-- ===== src/Reads.antt =====
-- app/services/read_service.py and app/repositories/read_repository.py: who has read what. A new
-- row takes its `uuid4` as `id`.
pub mod Marking
pub mod Unread
pub mod Many
use realynk.Base.{
  ℕ, Bool, true, false, not, ◌&&◌, ◌||◌, Option, none, some, List, [], ◌∷◌, ◌==◌, is_some, any,
  count, is_id, if◌then◌else◌,
}
use realynk.Models.{Db, User, Message, MessageRead}
use realynk.Session.{
  Action, Engine, Exn, message_error, read_error, read_access_denied, message_deleted,
  read_mark_failed, pure, gets, fetch, raise_if, modify, catch, commit_or, try_commit, ◌>>=◌, ◌>>◌,
}
use realynk.Repositories.{get_read}
use realynk.Messages.{get_message_for_user}

-- `except MessageError`
abbrev pub no_access : Exn → Exn
no_access (message_error code status) = read_error read_access_denied 403
no_access e = e

-- `_message`
unfoldable pub readable : ℕ → ℕ → ℕ → Action Message
readable now user_id message_id = catch (get_message_for_user now user_id message_id) no_access

-- `read_repository.create`
abbrev pub new_read : ℕ → ℕ → ℕ → ℕ → MessageRead
new_read id at message_id user_id = record {
  id = id;
  message_id = message_id;
  user_id = user_id;
  read_at = at;
}

abbrev pub add_read : MessageRead → Db → Db
add_read r d = record d { reads = r ∷ d.reads }

-- after the commit, or after its rollback
unfoldable pub marked : MessageRead → Message → Bool → Action (MessageRead × Message × Bool)
marked item message true = pure (item, message, true)
marked item message false = do
  existing ← fetch (get_read item.message_id item.user_id) (read_error read_mark_failed 500)
  pure (existing, message, false)

abbrev pub mark_new :
    Engine → ℕ → ℕ → ℕ → ℕ → Message → Option MessageRead → Action (MessageRead × Message × Bool)
mark_new engine id at message_id user_id message (some existing) = pure (existing, message, false)
mark_new engine id at message_id user_id message none = do
  modify (add_read (new_read id at message_id user_id))
  committed ← try_commit engine
  marked (new_read id at message_id user_id) message committed

unfoldable pub mark_read : Engine → ℕ → ℕ → ℕ → User → ℕ → Action (MessageRead × Message × Bool)
mark_read engine id now at user message_id = do
  message ← readable now user.id message_id
  raise_if (is_some message.deleted_at) (read_error message_deleted 409)
  existing ← gets (get_read message_id user.id)
  mark_new engine id at message_id user.id message existing

abbrev summarize : ℕ → ℕ → Db → ℕ × Option MessageRead
summarize message_id user_id d =
    (count (λ r. r.message_id == message_id) d.reads, get_read message_id user_id d)

-- `summary`: the count, and the user's own row with its time
unfoldable pub summary : ℕ → User → ℕ → Action ((ℕ × Option MessageRead) × Message)
summary now user message_id = do
  message ← readable now user.id message_id
  counted ← gets (summarize message_id user.id)
  pure (counted, message)

abbrev pub channel_access : ℕ → Option ℕ → Db → Bool
channel_access user_id none d = false
channel_access user_id (some c) d =
    any (λ m. (m.channel_id == c) && (m.user_id == user_id)) d.memberships

abbrev pub conversation_access : ℕ → Option ℕ → Db → Bool
conversation_access user_id none d = false
conversation_access user_id (some v) d =
    any (λ p. (p.conversation_id == v) && (p.user_id == user_id) && not (is_some p.left_at))
      d.participants

abbrev pub is_unread : ℕ → Db → Message → Bool
is_unread user_id d m =
    not (m.sender_id == user_id)
    && not (is_some m.deleted_at)
    && (channel_access user_id m.channel_id d || conversation_access user_id m.conversation_id d)
    && not (any (λ r. (r.message_id == m.id) && (r.user_id == user_id)) d.reads)

unfoldable pub unread_count : ℕ → Db → ℕ
unread_count user_id d = count (is_unread user_id d) d.messages
