-- ===== src/Moderation/Authority.antt =====
-- Who may moderate whom, and what an action leaves behind.
use realynk.Base.{ℕ, ◌<◌, ◌≤◌, ◌≡◌, ◌≢◌, true, false, arith}
use realynk.Models.{User}
use realynk.Session.{ok}
use realynk.Session.Ends.{}
use realynk.Permissions.ModerationRules.{moderation_level, of_user, is_restricted, can_warn_user}
use realynk.Repositories.{}
use realynk.Moderation.{}

-- The actor may act now, has a moderator's level, and stands strictly above the target.
pub record MayModerate (now : ℕ) (actor target : User) : Type 0 where
  pub unrestricted : is_restricted now (of_user actor) ≡ false
  pub level : 2 ≤ moderation_level actor.moderation_role
  pub other : actor.id ≢ target.id
  pub above : moderation_level target.moderation_role < moderation_level actor.moderation_role

-- Where the rule for warnings, which is also the rule for suspensions and bans, says yes, the actor is
-- unrestricted, a moderator or an admin, not the target, and of a higher level than the target.
pub can_warn_user-MayModerate :
    (now : ℕ) (actor target : User)
    → can_warn_user now actor target ≡ ok true
    → MayModerate now actor target
can_warn_user-MayModerate now actor target h = record {
  unrestricted = ground arith;
  level = ground arith;
  other = ground arith;
  above = ground arith;
}
