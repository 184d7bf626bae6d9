-- ===== src/Messages.antt =====
-- app/services/message_service.py; the creation of messages, which also sends notifications, is in
-- Messages/Sending.
-- `now` is the time at which the rules read the clock, `at` the time that a call writes.
pub mod Access
pub mod Edits
pub mod History
pub mod Sending
use realynk.Base.{
  ℕ, Bool, true, false, not, Option, none, some, [], Text, ◌==◌, is_some, if◌then◌else◌,
}
use realynk.Models.{Db, User, Message}
use realynk.Session.{
  Action, Engine, Exn, has_code, message_error, invalid_message_context, message_access_denied,
  message_not_found, message_already_deleted, message_edit_not_allowed, message_delete_not_allowed,
  pure, raise, gets, fetch, lift, raise_if, modify, catch, commit, ◌>>=◌, ◌>>◌,
}
use realynk.Permissions.ModerationRules.{user_ref}
use realynk.Permissions.MessageRules.{
  Context, in_channel, in_conversation, can_send_channel_message, can_send_conversation_message,
  can_edit_message, can_delete_message,
}
use realynk.Repositories.{get_message, list_participants}
use realynk.Channels.{get_channel_for_user}
use realynk.Conversations.{get_for_user}
use realynk.Moderation.Content.{set_message}

-- `except Exception as error: if hasattr(error, "code"): raise MessageError(…) from error; raise`
abbrev pub denied : Exn → Exn
denied e = if has_code e then message_error message_access_denied 403 else e

-- the part of `_context` for a channel
unfoldable pub channel_context : ℕ → ℕ → ℕ → Action Context
channel_context now user_id channel_id = do
  (channel, membership) ← catch (get_channel_for_user channel_id user_id) denied
  allowed ← lift (can_send_channel_message now (user_ref user_id) channel membership)
  raise_if (not allowed) (message_error message_access_denied 403)
  pure (in_channel channel membership)

-- the part of `_context` for a conversation
unfoldable pub conversation_context : ℕ → ℕ → ℕ → Action Context
conversation_context now user_id conversation_id = do
  (conversation, participant) ← catch (get_for_user conversation_id user_id) denied
  participants ← gets (list_participants conversation.id)
  raise_if
      (not (can_send_conversation_message now (user_ref user_id) participants (some participant)))
      (message_error message_access_denied 403)
  pure (in_conversation participants (some participant))

-- `_context`
unfoldable pub find_context : ℕ → ℕ → Option ℕ → Option ℕ → Action Context
find_context now user_id none none = raise (message_error invalid_message_context 422)
find_context now user_id (some c) (some v) = raise (message_error invalid_message_context 422)
find_context now user_id (some c) none = channel_context now user_id c
find_context now user_id none (some v) = conversation_context now user_id v

unfoldable pub get_message_for_user : ℕ → ℕ → ℕ → Action Message
get_message_for_user now user_id message_id = do
  message ← fetch (get_message message_id) (message_error message_not_found 404)
  _ ← find_context now user_id message.channel_id message.conversation_id
  pure message

abbrev pub edited : ℕ → Text → Message → Message
edited at content m = record m { content = content; is_edited = true; updated_at = at }

-- `message_repository.get_by_id(message.id) or message`
abbrev pub or_given : (Message → Message) → Message → Option Message → Message
or_given f message none = f message
or_given f message (some m) = m

unfoldable pub edit_message : Engine → ℕ → ℕ → User → Message → Text → Action Message
edit_message engine now at user message content = do
  raise_if (is_some message.deleted_at) (message_error message_already_deleted 409)
  raise_if (not (can_edit_message now user message)) (message_error message_edit_not_allowed 403)
  modify (set_message message (edited at content))
  commit engine
  row ← gets (get_message message.id)
  pure (or_given (edited at content) message row)

abbrev pub emptied : ℕ → Message → Message
emptied at m = record m { deleted_at = some at; content = []; updated_at = at }

unfoldable pub delete_message : Engine → ℕ → User → Message → Action Message
delete_message engine at user message = do
  raise_if (is_some message.deleted_at) (message_error message_already_deleted 409)
  raise_if (not (can_delete_message user message)) (message_error message_delete_not_allowed 403)
  modify (set_message message (emptied at))
  commit engine
  row ← gets (get_message message.id)
  pure (or_given (emptied at) message row)
