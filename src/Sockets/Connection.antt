-- ===== src/Sockets/Connection.antt =====
-- app/sockets/connection.py. `auth` is what the client sends as its token, if it is a string.
use realynk.Base.{
  ℕ, Bool, true, false, not, ◌||◌, Option, none, some, List, [], ◌∷◌, ◌++◌, Text, codes, map,
  is_empty, strip, remove_prefix, if◌then◌else◌,
}
use realynk.Models.{Db, User, is_active_status}
use realynk.Session.{Action, Engine, Result, ok, err, pure, gets, ◌>>=◌}
use realynk.Permissions.ModerationRules.{of_user, is_restricted}
use realynk.Repositories.{get_user_row}
use realynk.Auth.{Jwt, Uuids, decode_access_token}
use realynk.Presence.Manager.{PresenceManager, register, unregister}
use realynk.Presence.Typing.{cleanup_socket}
use realynk.Presence.Service.{persist_last_seen}
use realynk.Sockets.{
  Server, user_room, connected, user_stopped_typing, Effects, join_room, emit_to_socket,
  emit_to_context, broadcast_presence,
}

-- the token of a client that sends one: `isinstance(auth, str) and auth.strip()`, and what is
-- decoded of it
abbrev pub token_of : Option Text → Option Text
token_of none = none
token_of (some auth) =
    if is_empty (strip auth) then none else some (strip (remove_prefix (codes "Bearer ") auth))

abbrev pub user_of : Result ℕ → Db → Option User
user_of (err e) d = none
user_of (ok id) d = get_user_row id d

-- `if became_online: broadcast_presence(user.id)`
abbrev pub announce_if : Bool → ℕ → PresenceManager → Db → Effects
announce_if true user_id m d = broadcast_presence user_id none m d
announce_if false user_id m d = []

-- the connection of a user whose account is in order
unfoldable pub admit : ℕ → User → Server → Db → Bool × Server × Effects
admit sid user server d =
    let (presence, became_online) = register user.id sid server.presence in
    (
      true,
      record server { presence = presence },
      join_room (user_room user.id) ∷ announce_if became_online user.id presence d
          ++ emit_to_socket sid connected ∷ [],
    )

abbrev pub connect_user : ℕ → ℕ → Option User → Server → Db → Bool × Server × Effects
connect_user now sid none server d = (false, server, [])
connect_user now sid (some user) server d =
    if not user.is_active || not (is_active_status user.status) || is_restricted now (of_user user)
    then (false, server, [])
    else admit sid user server d

abbrev pub connect_token : Jwt → Uuids → ℕ → ℕ → Option Text → Server → Db → Bool × Server × Effects
connect_token jwt uuids now sid none server d = (true, server, emit_to_socket sid connected ∷ [])
connect_token jwt uuids now sid (some token) server d =
    connect_user now sid (user_of (decode_access_token jwt uuids now token) d) server d

-- whether the connection is accepted, with the new state and the effects
unfoldable pub handle_connect :
    Jwt → Uuids → ℕ → ℕ → Option Text → Server → Db → Bool × Server × Effects
handle_connect jwt uuids now sid auth server d =
    connect_token jwt uuids now sid (token_of auth) server d

-- `cleanup_typing_socket`, the effects
abbrev pub stopped_events : List ℕ → Effects
stopped_events keys = map (λ key. emit_to_context key (user_stopped_typing key)) keys

-- `if user_id and became_offline: …`
abbrev pub leave_presence : Engine → ℕ → PresenceManager → Option ℕ → Bool → Action Effects
leave_presence engine at presence (some user_id) true =
    persist_last_seen engine at user_id >>= λ last_seen_at.
    gets (broadcast_presence user_id last_seen_at presence)
leave_presence engine at presence user_id became_offline = pure []

unfoldable pub handle_disconnect : Engine → ℕ → ℕ → Server → Action (Server × Effects)
handle_disconnect engine at sid server = do
  let (typing, stopped) = cleanup_socket sid server.typing
  let (presence, user_id, became_offline) = unregister sid server.presence
  effects ← leave_presence engine at presence user_id became_offline
  pure (record { presence = presence; typing = typing }, stopped_events stopped ++ effects)
