-- ===== src/Sockets/Connecting.antt =====
-- Who gets connected, and who hears of it.
use realynk.Base.{
  ℕ, ◌≡◌, inl, refl, subst, Bool, true, false, not, ◌||◌, Option, none, some, List, [], ◌∷◌, ◌++◌,
  Text, arith, ==_refl, contains, map, All, All-map, if◌then◌else◌,
}
use realynk.Base.Dict.{lookup}
use realynk.Models.{Db, User, is_active_status}
use realynk.Session.{Result, ok, err}
use realynk.Permissions.ModerationRules.{of_user, is_restricted}
use realynk.Repositories.{get_user_row}
use realynk.Auth.{Jwt, Uuids, decode_access_token}
use realynk.Auth.Access.{account_of, unrestricted}
use realynk.Presence.Manager.{PresenceManager, register, is_online}
use realynk.Presence.Manager.Invariant.{IsValid, register-IsValid, register_reports}
use realynk.Presence.Service.{recipient_socket_ids, may_see, recipient_socket_ids-may_see}
use realynk.Sockets.{
  Server, connected, presence_update, Effect, Effects, emit_to_socket, broadcast_presence,
}
use realynk.Sockets.Connection.{
  token_of, user_of, announce_if, admit, connect_user, connect_token, handle_connect,
}

-- An effect reveals a user's presence only to a socket whose user may see it.
abbrev pub IsDiscreet : ℕ → PresenceManager → Db → Effect → Type 0
IsDiscreet target_id m d (emit_to_socket s (presence_update p)) =
    may_see (lookup s m.socket_users) target_id d ≡ true
IsDiscreet target_id m d effect = Unit {0}

abbrev pub ConnectOutcome :
    Option (Option User) → ℕ → Server → Db → Bool × Server × Effects → Type 0
ConnectOutcome none sid server d (accepted, server', effects) =
    (accepted ≡ true) × (server' ≡ server) × (effects ≡ emit_to_socket sid connected ∷ [])
ConnectOutcome (some none) sid server d (accepted, server', effects) =
    (accepted ≡ false) × (server' ≡ server) × (effects ≡ [])
ConnectOutcome (some (some user)) sid server d (accepted, server', effects) =
    (accepted ≡ true)
    × (server'.presence ≡ (register user.id sid server.presence).0)
    × (server'.typing ≡ server.typing)
    × (is_online user.id server'.presence ≡ true)
    × All (IsDiscreet user.id server'.presence d) effects

-- the account that a client's token stands for, if it sends one
abbrev pub account_for : Jwt → Uuids → ℕ → Option Text → Db → Option (Option User)
account_for jwt uuids now none d = none
account_for jwt uuids now (some token) d =
    some (account_of now d (decode_access_token jwt uuids now token))

own_members : (xs : List ℕ) → All (λ s. contains s xs ≡ true) xs
own_members [] = tt
own_members (x ∷ xs) = (
  ground (arith, ==_refl x),
  All-map (λ s. contains s xs ≡ true) (λ s. contains s (x ∷ xs) ≡ true) xs
      (λ s h. ground (arith, h)) (own_members xs),
)

All-mapped :
    {A : Type 0} (P : Effect → Type 0) (f : A → Effect) (xs : List A)
    → All (λ x. P (f x)) xs
    → All P (map f xs)
All-mapped P f [] h = tt
All-mapped P f (x ∷ xs) h = (h.0, All-mapped P f xs h.1)

All-append : (P : Effect → Type 0) (xs ys : Effects) → All P xs → All P ys → All P (xs ++ ys)
All-append P [] ys h k = k
All-append P (x ∷ xs) ys h k = (h.0, All-append P xs ys h.1 k)

-- A broadcast of a user's presence is discreet, while the tables of the manager agree.
pub broadcast_presence-IsDiscreet :
    (user_id : ℕ) (last_seen_at : Option ℕ) (m : PresenceManager) (d : Db)
    → IsValid m
    → All (IsDiscreet user_id m d) (broadcast_presence user_id last_seen_at m d)
unfolding broadcast_presence
broadcast_presence-IsDiscreet user_id last_seen_at m d v =
    All-mapped (IsDiscreet user_id m d) _ (recipient_socket_ids user_id m d) (
      All-map (λ s. contains s (recipient_socket_ids user_id m d) ≡ true)
        (λ s. may_see (lookup s m.socket_users) user_id d ≡ true) (recipient_socket_ids user_id m d)
        (λ s h. ground (arith, h, recipient_socket_ids-may_see s user_id m d v))
        (own_members (recipient_socket_ids user_id m d)))

announced :
    (b : Bool) (user_id : ℕ) (m : PresenceManager) (d : Db)
    → IsValid m
    → All (IsDiscreet user_id m d) (announce_if b user_id m d)
announced true user_id m d v = broadcast_presence-IsDiscreet user_id none m d v
announced false user_id m d v = tt

module _ (sid : ℕ) (server : Server) (d : Db) (v : IsValid server.presence)
    (fresh : lookup sid server.presence.socket_users ≡ none) where
  admit-ConnectOutcome :
      (user : User) → ConnectOutcome (some (some user)) sid server d (admit sid user server d)
  unfolding admit
  admit-ConnectOutcome user =
      let after = (register user.id sid server.presence).0 in
      let valid = register-IsValid user.id sid server.presence (inl fresh) v in
      (
        refl,
        refl,
        refl,
        (register_reports user.id sid server.presence).1,
        (
          tt,
          All-append (IsDiscreet user.id after d) (announce_if _ user.id after d)
              (emit_to_socket sid connected ∷ []) (announced _ user.id after d valid) (tt, tt),
        ),
      )

  connect_user-ConnectOutcome :
      (now : ℕ) (o : Option User)
      → ConnectOutcome (some (unrestricted now o)) sid server d (connect_user now sid o server d)
  connect_user-ConnectOutcome now none = (refl, refl, refl)
  connect_user-ConnectOutcome now (some user) =
      subst
        (λ b.
          ConnectOutcome (some (unrestricted now (some user))) sid server d
            (if b then (false, server, []) else admit sid user server d))
        same (go (is_restricted now (of_user user)))
    where
      same :
          is_restricted now (of_user user)
          ≡ not user.is_active
            || not (is_active_status user.status)
            || is_restricted now (of_user user)
      same = ground arith

      go :
          (b : Bool)
          → ConnectOutcome
              (some (if b then none else some user))
              sid
              server
              d
              (if b then (false, server, []) else admit sid user server d)
      go true = (refl, refl, refl)
      go false = admit-ConnectOutcome user

  decoded-ConnectOutcome :
      (now : ℕ) (r : Result ℕ)
      → ConnectOutcome
          (some (account_of now d r))
          sid
          server
          d
          (connect_user now sid (user_of r d) server d)
  decoded-ConnectOutcome now (err e) = (refl, refl, refl)
  decoded-ConnectOutcome now (ok id) = connect_user-ConnectOutcome now (get_user_row id d)

  token-ConnectOutcome :
      (jwt : Jwt) (uuids : Uuids) (now : ℕ) (token : Option Text)
      → ConnectOutcome
          (account_for jwt uuids now token d)
          sid
          server
          d
          (connect_token jwt uuids now sid token server d)
  token-ConnectOutcome jwt uuids now none = (refl, refl, refl)
  token-ConnectOutcome jwt uuids now (some token) =
      decoded-ConnectOutcome now (decode_access_token jwt uuids now token)

-- A new socket is connected as follows, while the tables of the manager agree. Without a token it
-- is accepted, and nobody comes online. With a token it is accepted exactly if the token stands for
-- an account that is not restricted: then that user is registered and online, and all that is sent
-- about them goes to sockets whose users may see their presence; otherwise nothing changes and
-- nothing is sent.
pub handle_connect-ConnectOutcome :
    (jwt : Jwt) (uuids : Uuids) (now sid : ℕ) (auth : Option Text) (server : Server) (d : Db)
    → IsValid server.presence
    → lookup sid server.presence.socket_users ≡ none
    → ConnectOutcome
        (account_for jwt uuids now (token_of auth) d)
        sid
        server
        d
        (handle_connect jwt uuids now sid auth server d)
unfolding handle_connect
handle_connect-ConnectOutcome jwt uuids now sid auth server d v fresh =
    token-ConnectOutcome sid server d v fresh jwt uuids now (token_of auth)
