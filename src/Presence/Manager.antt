-- ===== src/Presence/Manager.antt =====
-- app/presence/manager.py. Each method holds the lock throughout, so it is one atomic step. User
-- and socket identifiers are only compared.
pub mod Invariant
pub mod History
use realynk.Base.{
  ℕ, suc, ◌≡◌, Bool, true, false, not, Option, none, some, List, [], ◌∷◌, length, insert, discard,
  if◌then◌else◌,
}
use realynk.Base.Dict.{Dict, lookup, put, erase, is_nonempty, dict_tests}

pub record PresenceManager : Type 0 where
  pub connections : Dict (List ℕ)
  pub socket_users : Dict ℕ

abbrev pub init : PresenceManager
init = record { connections = []; socket_users = [] }

-- a missing key of the `defaultdict(set)` reads as the empty set
abbrev pub or_empty : Option (List ℕ) → List ℕ
or_empty none = []
or_empty (some s) = s

-- `self._connections.get(user_id, set())`
unfoldable pub sockets : ℕ → PresenceManager → List ℕ
sockets user_id m = or_empty (lookup user_id m.connections)

unfoldable pub register : ℕ → ℕ → PresenceManager → PresenceManager × Bool
unfolding sockets
register user_id socket_id m = (
  record {
    connections = put user_id (insert socket_id (sockets user_id m)) m.connections;
    socket_users = put socket_id user_id m.socket_users;
  },
  not (is_nonempty (sockets user_id m)),
)

-- the rest of `unregister`, for the entry that `pop` took from `_socket_users`
abbrev drop_connection : ℕ → ℕ → PresenceManager → PresenceManager × Option ℕ × Bool
drop_connection user_id socket_id m =
    let connections = sockets user_id m in
    let left = discard socket_id connections in
    if not (is_nonempty connections)
    then (m, some user_id, false)
    else if not (is_nonempty left)
    then (record m { connections = erase user_id m.connections }, some user_id, true)
    else (record m { connections = put user_id left m.connections }, some user_id, false)

abbrev drop_socket : Option ℕ → ℕ → PresenceManager → PresenceManager × Option ℕ × Bool
drop_socket none socket_id m = (m, none, false)
drop_socket (some user_id) socket_id m =
    drop_connection user_id socket_id (record m { socket_users = erase socket_id m.socket_users })

unfoldable pub unregister : ℕ → PresenceManager → PresenceManager × Option ℕ × Bool
unfolding sockets
unregister socket_id m = drop_socket (lookup socket_id m.socket_users) socket_id m

unfoldable pub is_online : ℕ → PresenceManager → Bool
unfolding sockets
is_online user_id m = is_nonempty (sockets user_id m)

pub data Status : Type 0 where
  online offline : Status

abbrev status_of : Bool → Status
status_of true = online
status_of false = offline

unfoldable pub status : ℕ → PresenceManager → Status
unfolding is_online
status user_id m = status_of (is_online user_id m)

unfoldable pub get_connection_count : ℕ → PresenceManager → ℕ
unfolding sockets
get_connection_count user_id m = length (sockets user_id m)

-- The mapping that the comprehension builds, for the users in the order given.
unfoldable pub socket_ids_for_users : List ℕ → PresenceManager → List (ℕ × List ℕ)
unfolding is_online
socket_ids_for_users [] m = []
socket_ids_for_users (u ∷ us) m =
    let rest = socket_ids_for_users us m in
    elim (is_online u m) [ true ↦ (u, sockets u m) ∷ rest | false ↦ rest ]
