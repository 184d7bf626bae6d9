-- ===== src/Presence/Service.antt =====
-- app/services/presence_service.py, which joins the manager of connections with the queries of
-- app/repositories/presence_repository.py. A set is a list.
use realynk.Base.{
  ℕ, ◌≡◌, ◌∙◌, refl, Bool, true, false, ◌||◌, Option, none, some, List, [], ◌∷◌, ◌++◌, arith, ◌==◌,
  any, contains, insert, is_id, Bool-cases, inl, inr, if◌then◌else◌,
}
use realynk.Base.Dict.{lookup, contains-insert, contains-nil}
use realynk.Models.{Db, User}
use realynk.Session.{Action, Engine, pure, gets, modify, commit, ◌>>=◌, ◌>>◌}
use realynk.Repositories.{get_user_row}
use realynk.Moderation.{set_user}
use realynk.Presence.Manager.{
  PresenceManager, Status, status, sockets, is_online, socket_ids_for_users,
}
use realynk.Presence.Manager.Invariant.{IsValid}
use realynk.Presence.Visibility.{
  can_view_presence, visible_user_ids, shared_observer_ids, can_view_presence-shared_observer_ids,
}

-- the dict of `payload`
pub record PresencePayload : Type 0 where
  pub user_id : ℕ
  pub status : Status
  pub last_seen_at : Option ℕ

unfoldable pub payload : ℕ → Option ℕ → PresenceManager → PresencePayload
payload user_id last_seen_at m = record {
  user_id = user_id;
  status = status user_id m;
  last_seen_at = if is_online user_id m then none else last_seen_at;
}

abbrev pub seen : ℕ → User → User
seen at u = record u { last_seen_at = some at }

abbrev persist : Engine → ℕ → Option User → Action (Option ℕ)
persist engine at none = pure none
persist engine at (some user) = do modify (set_user user (seen at)); commit engine; pure (some at)

unfoldable pub persist_last_seen : Engine → ℕ → ℕ → Action (Option ℕ)
persist_last_seen engine at user_id = gets (get_user_row user_id) >>= persist engine at

-- the comprehension over the values of the mapping
abbrev pub socket_ids : List (ℕ × List ℕ) → List ℕ
socket_ids [] = []
socket_ids ((u, s) ∷ rest) = s ++ socket_ids rest

unfoldable pub visible_recipient_socket_ids : ℕ → PresenceManager → Db → List ℕ
visible_recipient_socket_ids user_id m d =
    socket_ids (socket_ids_for_users (visible_user_ids user_id (user_id ∷ []) d) m)

unfoldable pub recipient_socket_ids : ℕ → PresenceManager → Db → List ℕ
recipient_socket_ids user_id m d =
    socket_ids (socket_ids_for_users (insert user_id (shared_observer_ids user_id d)) m)

-- whether the user of a socket, if it has one, may see the presence of the target
abbrev pub may_see : Option ℕ → ℕ → Db → Bool
may_see none target_id d = false
may_see (some viewer_id) target_id d = can_view_presence viewer_id target_id d

contains-append : (i : ℕ) (xs ys : List ℕ) → contains i (xs ++ ys) ≡ contains i xs || contains i ys
contains-append i [] ys = refl
contains-append i (x ∷ xs) ys = ground (arith, contains-append i xs ys)

offline_sockets :
    (u s : ℕ) (m : PresenceManager) → is_online u m ≡ false → contains s (sockets u m) ≡ false
unfolding is_online
offline_sockets u s m h = contains-nil s (sockets u m) h

contains-socket_ids :
    (s : ℕ) (us : List ℕ) (m : PresenceManager)
    → contains s (socket_ids (socket_ids_for_users us m)) ≡ any (λ u. contains s (sockets u m)) us
unfolding socket_ids_for_users
contains-socket_ids s [] m = refl
contains-socket_ids s (u ∷ us) m =
    (elim (is_online u m)
        as (λ b.
          is_online u m ≡ b
          → contains s (
              socket_ids (elim b [
                | true ↦ (u, sockets u m) ∷ socket_ids_for_users us m
                | false ↦ socket_ids_for_users us m
              ]))
            ≡ contains s (sockets u m) || any (λ u. contains s (sockets u m)) us) [
              | true ↦ λ e. ground (
                arith,
                contains-append s (sockets u m) (socket_ids (socket_ids_for_users us m)),
                contains-socket_ids s us m,
              )
              | false ↦ λ e. ground (arith, offline_sockets u s m e, contains-socket_ids s us m)
            ])
      refl

-- the users whose set has the socket, among the candidates
any-holder :
    (s : ℕ) (m : PresenceManager) (us : List ℕ)
    → IsValid m
    → any (λ u. contains s (sockets u m)) us ≡ any (λ u. is_id (lookup s m.socket_users) u) us
unfolding sockets
any-holder s m [] v = refl
any-holder s m (u ∷ us) v = ground (arith, v.agree u s, any-holder s m us v)

abbrev is_among : Option ℕ → List ℕ → Bool
is_among none us = false
is_among (some v) us = contains v us

any-is_id : (o : Option ℕ) (us : List ℕ) → any (λ u. is_id o u) us ≡ is_among o us
any-is_id none [] = refl
any-is_id none (u ∷ us) = any-is_id none us
any-is_id (some v) [] = refl
any-is_id (some v) (u ∷ us) = ground (arith, any-is_id (some v) us)

candidate-can_view_presence :
    (v target_id : ℕ) (d : Db)
    → contains v (insert target_id (shared_observer_ids target_id d))
      ≡ can_view_presence v target_id d
unfolding can_view_presence
candidate-can_view_presence v target_id d = elim (Bool-cases (v == target_id)) [
  | inl same ↦ ground (arith, same, contains-insert target_id v (shared_observer_ids target_id d))
  | inr other ↦ ground (
    arith,
    other,
    contains-insert target_id v (shared_observer_ids target_id d),
    can_view_presence-shared_observer_ids v target_id d (λ e. ground (arith, e, other)),
  )
]

among-may_see :
    (o : Option ℕ) (target_id : ℕ) (d : Db)
    → is_among o (insert target_id (shared_observer_ids target_id d)) ≡ may_see o target_id d
among-may_see none target_id d = refl
among-may_see (some v) target_id d = candidate-can_view_presence v target_id d

-- While the two tables of the manager agree, a change of a user's presence goes to exactly the
-- sockets whose user may see it: a socket is among the recipients if and only if it belongs to a
-- user, and that user may see the presence by the rule.
pub recipient_socket_ids-may_see :
    (s target_id : ℕ) (m : PresenceManager) (d : Db)
    → IsValid m
    → contains s (recipient_socket_ids target_id m d)
      ≡ may_see (lookup s m.socket_users) target_id d
unfolding recipient_socket_ids
recipient_socket_ids-may_see s target_id m d v =
    contains-socket_ids s (insert target_id (shared_observer_ids target_id d)) m
    ∙ any-holder s m (insert target_id (shared_observer_ids target_id d)) v
    ∙ any-is_id (lookup s m.socket_users) (insert target_id (shared_observer_ids target_id d))
    ∙ among-may_see (lookup s m.socket_users) target_id d
