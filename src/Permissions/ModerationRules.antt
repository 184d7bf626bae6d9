-- ===== src/Permissions/ModerationRules.antt =====
-- app/permissions/moderation_permissions.py, with `ROLE_LEVELS` of app/moderation/constants.py.
-- The rules read their argument by `getattr`, and some callers pass an object that has only an id,
-- `is_active` and `status`. A `Subject` is what the rules can see of such an object.
use realynk.Base.{
  ℕ, Bool, true, false, not, ◌&&◌, ◌||◌, Option, none, some, leb, ltb, ◌==◌, is_some, if◌then◌else◌,
}
use realynk.Models.{User, UserStatus, ModerationRole, ChannelMembership, is_active_status}
use realynk.Session.{Result, ok, err, attribute_error}

-- `ROLE_LEVELS`
abbrev pub moderation_level : ModerationRole → ℕ
moderation_level ModerationRole.member = 1
moderation_level ModerationRole.moderator = 2
moderation_level ModerationRole.admin = 3

-- `moderation_role` is `none` where the object has no such attribute.
pub record Subject : Type 0 where
  pub id : ℕ
  pub is_active : Bool
  pub status : UserStatus
  pub moderation_role : Option ModerationRole
  pub suspended_at : Option ℕ
  pub suspension_expires_at : Option ℕ
  pub banned_at : Option ℕ

abbrev pub of_user : User → Subject
of_user u = record {
  id = u.id;
  is_active = u.is_active;
  status = u.status;
  moderation_role = some u.moderation_role;
  suspended_at = u.suspended_at;
  suspension_expires_at = u.suspension_expires_at;
  banned_at = u.banned_at;
}

-- `type("UserRef", (), {"id": user_id, "is_active": True, "status": "active"})()`
abbrev pub user_ref : ℕ → Subject
user_ref user_id = record {
  id = user_id;
  is_active = true;
  status = UserStatus.active;
  moderation_role = none;
  suspended_at = none;
  suspension_expires_at = none;
  banned_at = none;
}

-- `expires is None or expires > now`
abbrev pub is_pending : ℕ → Option ℕ → Bool
is_pending now none = true
is_pending now (some expires) = ltb now expires

-- the part of `is_restricted` behind the test of `banned_at`
abbrev pub is_suspended : ℕ → Option ℕ → Option ℕ → Bool
is_suspended now none expires = false
is_suspended now (some at) expires = is_pending now expires

abbrev pub is_restricted : ℕ → Subject → Bool
is_restricted now s =
    if not s.is_active || not (is_active_status s.status)
    then true
    else if is_some s.banned_at
    then true
    else is_suspended now s.suspended_at s.suspension_expires_at

abbrev has_level : Option ModerationRole → ModerationRole → Result Bool
has_level none required = err attribute_error
has_level (some role) required = ok (leb (moderation_level required) (moderation_level role))

abbrev pub has_moderation_role : ℕ → Subject → ModerationRole → Result Bool
has_moderation_role now s required =
    if is_restricted now s then ok false else has_level s.moderation_role required

abbrev pub can_target : User → User → Bool
can_target actor target =
    not (actor.id == target.id)
    && ltb (moderation_level target.moderation_role) (moderation_level actor.moderation_role)

-- `a and b` where `a` may raise
abbrev pub and_then : Result Bool → Bool → Result Bool
and_then (ok true) b = ok b
and_then (ok false) b = ok false
and_then (err e) b = err e

abbrev pub can_warn_user : ℕ → User → User → Result Bool
can_warn_user now actor target =
    and_then (has_moderation_role now (of_user actor) ModerationRole.moderator)
      (can_target actor target)

abbrev pub can_suspend_user : ℕ → User → User → Result Bool
can_suspend_user = can_warn_user

abbrev pub can_ban_user : ℕ → User → User → Result Bool
can_ban_user = can_warn_user

abbrev pub can_remove_member : ℕ → User → Option ChannelMembership → Result Bool
can_remove_member now actor target_membership =
    and_then (has_moderation_role now (of_user actor) ModerationRole.moderator)
      (is_some target_membership)

abbrev pub can_lock_channel : ℕ → User → Result Bool
can_lock_channel now actor = has_moderation_role now (of_user actor) ModerationRole.moderator

abbrev pub can_delete_message : ℕ → User → Result Bool
can_delete_message now actor = has_moderation_role now (of_user actor) ModerationRole.moderator

abbrev pub can_view_audit_logs : ℕ → User → Result Bool
can_view_audit_logs now actor = has_moderation_role now (of_user actor) ModerationRole.moderator
