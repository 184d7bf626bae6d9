-- ===== src/Sockets/Rooms.antt =====
-- The handlers of app/sockets/channels.py and app/sockets/conversations.py: who may hear a channel
-- or a conversation. `payload` is the data sent, none where it is no dict; an id that it does not have
-- is one that cannot be read.
use realynk.Base.{ℕ, Option, none, some, [], ◌∷◌, Text}
use realynk.Models.{User}
use realynk.Session.{
  Action, request_error, validation_error, authentication_required, channel_not_found,
  conversation_not_found, pure, raise, fetch, ◌>>=◌,
}
use realynk.Auth.{Uuids}
use realynk.Channels.{get_channel_for_user}
use realynk.Conversations.{get_for_user}
use realynk.Sockets.{
  channel_room, conversation_room, channel_joined, channel_left, conversation_joined,
  conversation_left, Effects, join_room, leave_room, emit_to_socket,
}

abbrev pub parsed : Uuids → Option Text → Option ℕ
parsed uuids none = none
parsed uuids (some raw) = uuids.parse raw

abbrev pub channel_for : Uuids → User → Option (Option Text) → Action ℕ
channel_for uuids user none = raise (request_error validation_error 422)
channel_for uuids user (some raw) = do
  channel_id ← fetch (λ d. parsed uuids raw) (request_error channel_not_found 404)
  _ ← get_channel_for_user channel_id user.id
  pure channel_id

abbrev pub channel_of : Uuids → Option User → Option (Option Text) → Action ℕ
channel_of uuids none payload = raise (request_error authentication_required 401)
channel_of uuids (some user) payload = channel_for uuids user payload

unfoldable pub handle_join_channel :
    Uuids → ℕ → Option User → Option (Option Text) → Action (ℕ × Effects)
handle_join_channel uuids sid user payload = do
  id ← channel_of uuids user payload
  pure (id, join_room (channel_room id) ∷ emit_to_socket sid (channel_joined id) ∷ [])

unfoldable pub handle_leave_channel :
    Uuids → ℕ → Option User → Option (Option Text) → Action (ℕ × Effects)
handle_leave_channel uuids sid user payload = do
  id ← channel_of uuids user payload
  pure (id, leave_room (channel_room id) ∷ emit_to_socket sid (channel_left id) ∷ [])

-- `_conversation_id`
abbrev pub conversation_id_of : Uuids → Option (Option Text) → Option ℕ
conversation_id_of uuids none = none
conversation_id_of uuids (some raw) = parsed uuids raw

-- `_authorize`
unfoldable pub conversation_of : Uuids → Option User → Option (Option Text) → Action ℕ
conversation_of uuids none payload = raise (request_error authentication_required 401)
conversation_of uuids (some user) payload = do
  conversation_id ←
      fetch (λ d. conversation_id_of uuids payload) (request_error conversation_not_found 404)
  _ ← get_for_user conversation_id user.id
  pure conversation_id

unfoldable pub handle_join_conversation :
    Uuids → ℕ → Option User → Option (Option Text) → Action (ℕ × Effects)
handle_join_conversation uuids sid user payload = do
  id ← conversation_of uuids user payload
  pure (id, join_room (conversation_room id) ∷ emit_to_socket sid (conversation_joined id) ∷ [])

unfoldable pub handle_leave_conversation :
    Uuids → ℕ → Option User → Option (Option Text) → Action (ℕ × Effects)
handle_leave_conversation uuids sid user payload = do
  id ← conversation_of uuids user payload
  pure (id, leave_room (conversation_room id) ∷ emit_to_socket sid (conversation_left id) ∷ [])
