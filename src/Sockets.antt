-- ===== src/Sockets.antt =====
-- app/sockets: the handlers of Socket.IO events. The state is that of the two managers; what a
-- handler asks of the library is returned as a list of effects, in order. The library's `request`
-- gives the identifier of the socket and, as `user`, its `current_user`, if it has one.
pub mod Connection
pub mod Connecting
pub mod TypingEvents
pub mod Rooms
use realynk.Base.{ℕ, Bool, List, [], ◌∷◌, ◌++◌, map}
use realynk.Models.{Db}
use realynk.Presence.Manager.{PresenceManager}
use realynk.Presence.Typing.{TypingManager}
use realynk.Presence.Service.{PresencePayload, payload, recipient_socket_ids}
use realynk.Base.{Option}

pub record Server : Type 0 where
  pub presence : PresenceManager
  pub typing : TypingManager

-- `channel:…`, `conversation:…` and `user:…`
pub data Room : Type 0 where
  channel_room conversation_room user_room : ℕ → Room

-- A typing key stands for its user, its kind of context and its context, and so does the payload
-- of a typing event.
pub data SocketEvent : Type 0 where
  connected : SocketEvent
  presence_update : PresencePayload → SocketEvent
  user_typing user_stopped_typing : ℕ → SocketEvent
  channel_joined channel_left conversation_joined conversation_left : ℕ → SocketEvent

pub data Effect : Type 0 where
  join_room leave_room : Room → Effect
  emit_to_socket : ℕ → SocketEvent → Effect
  -- to the room of a typing key's context
  emit_to_context : ℕ → SocketEvent → Effect

abbrev pub Effects : Type 0
Effects = List Effect

-- `broadcast_presence`
unfoldable pub broadcast_presence : ℕ → Option ℕ → PresenceManager → Db → Effects
broadcast_presence user_id last_seen_at m d =
    map (λ s. emit_to_socket s (presence_update (payload user_id last_seen_at m)))
      (recipient_socket_ids user_id m d)
