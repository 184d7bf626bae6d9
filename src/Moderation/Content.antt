-- ===== src/Moderation/Content.antt =====
-- app/services/moderation_service.py: the actions on channels, members and messages, and the reads
-- of the audit log.
use realynk.Base.{
  ℕ, Bool, true, false, not, Option, none, some, List, [], Text, ◌==◌, is_some, is_id,
  if◌then◌else◌, update_where, filter,
}
use realynk.Models.{Db, User, Channel, Message, ModerationAction, ActionKind, is_owner}
use realynk.Session.{
  Action, Engine, moderation_error, target_not_found, channel_already_locked, channel_not_locked,
  target_protected, pure, gets, fetch, raise_if, modify, commit, ◌>>=◌, ◌>>◌,
}
use realynk.Permissions.ModerationRules.{
  can_remove_member, can_lock_channel, can_delete_message, can_view_audit_logs,
}
use realynk.Repositories.{get_channel, get_membership, get_message}
use realynk.Channels.Membership.{delete_membership}
use realynk.Moderation.{authorize, target_user, new_record, add_record}

-- `bool(channel.locked_at) == locked`
abbrev pub is_unchanged : Channel → Bool → Bool
is_unchanged channel true = is_some channel.locked_at
is_unchanged channel false = not (is_some channel.locked_at)

abbrev pub locked : User → ℕ → Bool → Channel → Channel
locked actor at true c = record c { locked_at = some at; locked_by = some actor.id }
locked actor at false c = record c { locked_at = none; locked_by = none }

abbrev pub set_lock : Channel → User → ℕ → Bool → Db → Db
set_lock channel actor at lock d = record d {
  channels = update_where (λ c. c.id == channel.id) (locked actor at lock) d.channels;
}

unfoldable pub lock_channel :
    Engine → ℕ → ℕ → ℕ → User → ℕ → Option Text → Bool → Action (ModerationAction × Channel)
lock_channel engine id now at actor channel_id reason lock = do
  channel ← fetch (get_channel channel_id) (moderation_error target_not_found 404)
  authorize (can_lock_channel now actor)
  raise_if (is_unchanged channel lock)
      (moderation_error (if lock then channel_already_locked else channel_not_locked) 409)
  let kind = if lock then ActionKind.channel_lock else ActionKind.channel_unlock
  let r = new_record id at actor kind reason none (some channel.id) none none
  modify (set_lock channel actor at lock)
  modify (add_record r)
  commit engine
  pure (r, locked actor at lock channel)

unfoldable pub remove_channel_member :
    Engine → ℕ → ℕ → User → ℕ → ℕ → Option Text → Action ModerationAction
remove_channel_member engine id now actor channel_id user_id reason = do
  target ← target_user user_id
  channel ← fetch (get_channel channel_id) (moderation_error target_not_found 404)
  membership ← fetch (get_membership channel_id user_id) (moderation_error target_not_found 404)
  authorize (can_remove_member now actor (some membership))
  raise_if (is_owner membership.role) (moderation_error target_protected 403)
  let kind = ActionKind.remove_from_channel
  let r = new_record id now actor kind reason (some target.id) (some channel.id) none none
  modify (delete_membership membership)
  modify (add_record r)
  commit engine
  pure r

-- `if message.deleted_at is None: …`
abbrev pub hidden : ℕ → Message → Message
hidden at m = if is_some m.deleted_at then m else record m { deleted_at = some at; content = [] }

abbrev pub set_message : Message → (Message → Message) → Db → Db
set_message message f d = record d {
  messages = update_where (λ m. m.id == message.id) f d.messages;
}

unfoldable pub moderate_message :
    Engine → ℕ → ℕ → ℕ → User → ℕ → Option Text → Action (ModerationAction × Message)
moderate_message engine id now at actor message_id reason = do
  message ← fetch (get_message message_id) (moderation_error target_not_found 404)
  authorize (can_delete_message now actor)
  let r = new_record id at actor ActionKind.message_delete reason none none (some message.id) none
  modify (set_message message (hidden at))
  modify (add_record r)
  commit engine
  pure (r, hidden at message)

-- `moderation_repository.get_user_actions`, in the order of the table, which is newest first
abbrev get_user_actions : ℕ → Db → List ModerationAction
get_user_actions user_id d = filter (λ r. is_id r.target_user_id user_id) d.actions

unfoldable pub get_user_history : ℕ → User → ℕ → Action (List ModerationAction)
get_user_history now actor user_id = do
  authorize (can_view_audit_logs now actor)
  gets (get_user_actions user_id)
