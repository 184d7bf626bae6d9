-- ===== src/Moderation.antt =====
-- app/services/moderation_service.py. Where a call reads the clock twice, it takes two times: `now`
-- for its tests and `at` for what it writes. A new row of the audit log takes its `uuid4` as `id`.
pub mod Content
pub mod Authority
pub mod Actions
pub mod Restrictions
pub mod Removals
use realynk.Base.{
  ℕ, ◌+◌, Bool, true, false, not, ◌||◌, ◌&&◌, Option, none, some, List, ◌∷◌, [], Text, ◌==◌,
  is_some, is_empty, strip, if◌then◌else◌, update_where, filter, leb, is_id,
}
use realynk.Models.{
  Db, User, Channel, ChannelMembership, Message, ModerationAction, ActionKind, is_owner,
}
use realynk.Session.{
  Action, Engine, Exn, Result, ok, moderation_error, user_not_found_error, target_not_found,
  moderation_permission_denied, already_suspended, not_suspended, already_banned, not_banned,
  channel_already_locked, channel_not_locked, target_protected, pure, gets, fetch, lift, catch,
  raise_if, modify, commit, ◌>>=◌, ◌>>◌,
}
use realynk.Permissions.ModerationRules.{
  can_warn_user, can_suspend_user, can_ban_user, can_remove_member, can_lock_channel,
  can_delete_message, can_view_audit_logs, is_pending,
}
use realynk.Repositories.{get_channel, get_membership, get_message}
use realynk.Channels.Membership.{get_user, delete_membership}

-- `except UserNotFoundError`
abbrev pub no_target : Exn → Exn
no_target user_not_found_error = moderation_error target_not_found 404
no_target e = e

-- `_target`
abbrev pub target_user : ℕ → Action User
target_user user_id = catch (get_user user_id) no_target

-- `_authorize`
unfoldable pub authorize : Result Bool → Action (Unit {0})
authorize check = do
  allowed ← lift check
  raise_if (not allowed) (moderation_error moderation_permission_denied 403)

-- `_reason`
unfoldable pub clean_reason : Option Text → Option Text
clean_reason none = none
clean_reason (some reason) = if is_empty (strip reason) then none else some (strip reason)

-- `_record`
abbrev pub new_record :
    ℕ
    → ℕ
    → User
    → ActionKind
    → Option Text
    → Option ℕ
    → Option ℕ
    → Option ℕ
    → Option ℕ
    → ModerationAction
new_record id at actor action reason user channel message expires_at = record {
  id = id;
  moderator_id = actor.id;
  target_user_id = user;
  target_channel_id = channel;
  target_message_id = message;
  action = action;
  reason = clean_reason reason;
  created_at = at;
  expires_at = expires_at;
}

abbrev pub add_record : ModerationAction → Db → Db
add_record r d = record d { actions = r ∷ d.actions }

abbrev pub set_user : User → (User → User) → Db → Db
set_user target f d = record d { users = update_where (λ u. u.id == target.id) f d.users }

unfoldable pub warn_user : Engine → ℕ → ℕ → User → ℕ → Option Text → Action ModerationAction
warn_user engine id now actor user_id reason = do
  target ← target_user user_id
  authorize (can_warn_user now actor target)
  let r = new_record id now actor ActionKind.user_warn reason (some target.id) none none none
  modify (add_record r)
  commit engine
  pure r

-- `target.suspended_at and (expires is None or expires > now)`
abbrev pub is_under_suspension : ℕ → User → Bool
is_under_suspension now u = is_some u.suspended_at && is_pending now u.suspension_expires_at

-- `now + timedelta(seconds=duration_seconds) if duration_seconds else None`
abbrev pub expiry : ℕ → Option ℕ → Option ℕ
expiry at none = none
expiry at (some seconds) = if seconds == 0 then none else some (at + seconds)

abbrev pub suspended : ℕ → Option ℕ → User → User
suspended at expires u = record u { suspended_at = some at; suspension_expires_at = expires }

unfoldable pub suspend_user :
    Engine → ℕ → ℕ → ℕ → User → ℕ → Option Text → Option ℕ → Action ModerationAction
suspend_user engine id now at actor user_id reason duration = do
  target ← target_user user_id
  authorize (can_suspend_user now actor target)
  raise_if (is_under_suspension now target) (moderation_error already_suspended 409)
  let expires = expiry at duration
  let r = new_record id at actor ActionKind.user_suspend reason (some target.id) none none expires
  modify (set_user target (suspended at expires))
  modify (add_record r)
  commit engine
  pure r

abbrev is_over : ℕ → Option ℕ → Bool
is_over now none = false
is_over now (some expires) = leb expires now

abbrev pub unsuspended : User → User
unsuspended u = record u { suspended_at = none; suspension_expires_at = none }

unfoldable pub unsuspend_user : Engine → ℕ → ℕ → User → ℕ → Option Text → Action ModerationAction
unsuspend_user engine id now actor user_id reason = do
  target ← target_user user_id
  authorize (can_suspend_user now actor target)
  raise_if (not (is_some target.suspended_at) || is_over now target.suspension_expires_at)
      (moderation_error not_suspended 409)
  let r = new_record id now actor ActionKind.user_unsuspend reason (some target.id) none none none
  modify (set_user target unsuspended)
  modify (add_record r)
  commit engine
  pure r

abbrev pub banned : ℕ → User → User
banned at u = record u { banned_at = some at }

-- The duration is accepted and not used.
unfoldable pub ban_user :
    Engine → ℕ → ℕ → ℕ → User → ℕ → Option Text → Option ℕ → Action ModerationAction
ban_user engine id now at actor user_id reason duration = do
  target ← target_user user_id
  authorize (can_ban_user now actor target)
  raise_if (is_some target.banned_at) (moderation_error already_banned 409)
  let r = new_record id at actor ActionKind.user_ban reason (some target.id) none none none
  modify (set_user target (banned at))
  modify (add_record r)
  commit engine
  pure r

abbrev pub unbanned : User → User
unbanned u = record u { banned_at = none }

unfoldable pub unban_user : Engine → ℕ → ℕ → User → ℕ → Option Text → Action ModerationAction
unban_user engine id now actor user_id reason = do
  target ← target_user user_id
  authorize (can_ban_user now actor target)
  raise_if (not (is_some target.banned_at)) (moderation_error not_banned 409)
  let r = new_record id now actor ActionKind.user_unban reason (some target.id) none none none
  modify (set_user target unbanned)
  modify (add_record r)
  commit engine
  pure r
