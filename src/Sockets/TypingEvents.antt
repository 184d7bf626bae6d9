-- ===== src/Sockets/TypingEvents.antt =====
-- app/services/typing_service.py and the typing handlers of app/sockets/presence.py. `payload` is the
-- data of the event, none where it is no dict, with the two context ids as texts where they are
-- given; `key_of` makes a typing key.
use realynk.Base.{ℕ, Bool, true, false, Option, none, some, [], ◌∷◌, Text, if◌then◌else◌}
use realynk.Models.{User}
use realynk.Session.{
  Action, Exn, Result, ok, err, has_code, typing_error, request_error, invalid_typing_context,
  typing_access_denied, authentication_required, pure, raise, catch, lift, ◌>>=◌,
}
use realynk.Auth.{Uuids}
use realynk.Channels.{get_channel_for_user}
use realynk.Conversations.{get_for_user}
use realynk.Presence.Typing.{TypingManager, start, stop}
use realynk.Sockets.{
  Server, SocketEvent, user_typing, user_stopped_typing, Effects, emit_to_context,
}

pub data ContextType : Type 0 where
  channel conversation : ContextType

pub record TypingData : Type 0 where
  pub channel_id : Option Text
  pub conversation_id : Option Text

-- `except Exception as exc: if … hasattr(exc, "code"): raise TypingError(…) from exc; raise`
abbrev pub no_typing : Exn → Exn
no_typing e = if has_code e then typing_error typing_access_denied else e

abbrev pub parsed_id : Option ℕ → Result ℕ
parsed_id none = err (typing_error invalid_typing_context)
parsed_id (some id) = ok id

unfoldable pub channel_typing : Uuids → ℕ → Text → Action (ContextType × ℕ)
channel_typing uuids user_id raw = do
  id ← lift (parsed_id (uuids.parse raw))
  _ ← catch (get_channel_for_user id user_id) no_typing
  pure (channel, id)

unfoldable pub conversation_typing : Uuids → ℕ → Text → Action (ContextType × ℕ)
conversation_typing uuids user_id raw = do
  id ← lift (parsed_id (uuids.parse raw))
  _ ← catch (get_for_user id user_id) no_typing
  pure (conversation, id)

abbrev pub one_context : Uuids → ℕ → Option Text → Option Text → Action (ContextType × ℕ)
one_context uuids user_id (some raw) none = channel_typing uuids user_id raw
one_context uuids user_id none (some raw) = conversation_typing uuids user_id raw
one_context uuids user_id _ _ = raise (typing_error invalid_typing_context)

unfoldable pub validate_context : Uuids → ℕ → Option TypingData → Action (ContextType × ℕ)
validate_context uuids user_id none = raise (typing_error invalid_typing_context)
validate_context uuids user_id (some payload) =
    one_context uuids user_id payload.channel_id payload.conversation_id

-- `_context`, for the user of the socket
unfoldable pub typing_context :
    Uuids → Option User → Option TypingData → Action (User × ContextType × ℕ)
typing_context uuids none payload = raise (request_error authentication_required 401)
typing_context uuids (some user) payload = do
  (type, id) ← validate_context uuids user.id payload
  pure (user, type, id)

-- `user_typing` or `user_stopped_typing`
abbrev pub typing_event : Bool → ℕ → SocketEvent
typing_event true key = user_typing key
typing_event false key = user_stopped_typing key

abbrev pub change : Bool → ℕ → ℕ → TypingManager → TypingManager × Bool
change true key sid m = start key sid m
change false key sid m = stop key sid m

abbrev pub event_if : Bool → Bool → ℕ → Effects
event_if true starting key = emit_to_context key (typing_event starting key) ∷ []
event_if false starting key = []

-- `_handle_typing`: whether the user's typing changed, with the new state and the effects
unfoldable pub handle_typing :
    Uuids
    → (ℕ → ContextType → ℕ → ℕ)
    → Bool
    → ℕ
    → Option User
    → Option TypingData
    → Server
    → Action (Bool × Server × Effects)
handle_typing uuids key_of starting sid user payload server = do
  (user, type, id) ← typing_context uuids user payload
  let key = key_of user.id type id
  let (typing, changed) = change starting key sid server.typing
  pure (changed, record server { typing = typing }, event_if changed starting key)
