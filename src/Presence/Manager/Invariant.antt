-- ===== src/Presence/Manager/Invariant.antt =====
-- The two tables agree: a socket stands in the set of exactly the user that it is mapped to. So the
-- manager is the finite map from sockets to users, and a user is online while a socket is theirs.
use realynk.Base.{
  ℕ, ◌≡◌, ◌≢◌, refl, sym, ◌∙◌, true, false, not, Option, none, some, [], arith, ◌⊎◌, ◌↔◌, contains,
  insert, discard, is_id, Bool-cases, Option-cases, inl, inr,
}
use realynk.Base.Dict.{
  lookup, put, erase, is_nonempty, lookup-put, lookup-erase, contains-insert, contains-discard,
  contains-nil, contains-nonempty, insert-nonempty, member_of,
}
use realynk.Presence.Manager.{PresenceManager, or_empty, sockets, register, unregister, is_online}

-- `is_id (lookup s socket_users) u` tells whether socket `s` is mapped to `u`.
pub record IsValid (m : PresenceManager) : Type 0 where
  pub agree :
      (u s : ℕ) → contains s (or_empty (lookup u m.connections)) ≡ is_id (lookup s m.socket_users) u
  pub nonempty : (u : ℕ) → lookup u m.connections ≢ some []

pub register-IsValid :
    (u s : ℕ) (m : PresenceManager)
    → (lookup s m.socket_users ≡ none) ⊎ (lookup s m.socket_users ≡ some u)
    → IsValid m
    → IsValid (register u s m).0
unfolding register
register-IsValid u s m fresh v = record {
  agree = λ w t. ground (
    arith,
    lookup-put u w (insert s (sockets u m)) m.connections,
    lookup-put s t u m.socket_users,
    contains-insert s t (sockets u m),
    v.agree w t,
  );
  nonempty = λ w e. ground (
    arith,
    lookup-put u w (insert s (sockets u m)) m.connections,
    insert-nonempty s (sockets u m),
    v.nonempty w,
  );
}

-- What `unregister` leaves for a socket that is mapped to `u`: sockets remain, or none do.
module _ (s u : ℕ) (m : PresenceManager) (v : IsValid m)
    (known : lookup s m.socket_users ≡ some u) where
  keep-IsValid :
      is_nonempty (discard s (or_empty (lookup u m.connections))) ≡ true
      → IsValid (record {
        connections = put u (discard s (or_empty (lookup u m.connections))) m.connections;
        socket_users = erase s m.socket_users;
      })
  keep-IsValid some_left = record {
    agree = λ w t. ground (
      arith,
      lookup-put u w (discard s (or_empty (lookup u m.connections))) m.connections,
      lookup-erase s t m.socket_users,
      contains-discard s t (or_empty (lookup u m.connections)),
      v.agree w t,
    );
    nonempty = λ w e. ground (
      arith,
      lookup-put u w (discard s (or_empty (lookup u m.connections))) m.connections,
      v.nonempty w,
    );
  }

  drop-IsValid :
      is_nonempty (discard s (or_empty (lookup u m.connections))) ≡ false
      → IsValid
          (record { connections = erase u m.connections; socket_users = erase s m.socket_users })
  drop-IsValid none_left = record {
    agree = λ w t. ground (
      arith,
      lookup-erase u w m.connections,
      lookup-erase s t m.socket_users,
      contains-discard s t (or_empty (lookup u m.connections)),
      contains-nil t (discard s (or_empty (lookup u m.connections))) none_left,
      v.agree w t,
    );
    nonempty = λ w e. ground (arith, lookup-erase u w m.connections, v.nonempty w);
  }

  -- The user of a known socket is online.
  known_online : is_nonempty (or_empty (lookup u m.connections)) ≡ true
  known_online =
      contains-nonempty s (or_empty (lookup u m.connections)) (v.agree u s ∙ ground arith)

pub unregister-IsValid : (s : ℕ) (m : PresenceManager) → IsValid m → IsValid (unregister s m).0
unfolding unregister
unregister-IsValid s m v = elim (Option-cases (lookup s m.socket_users)) [
  | inl unknown ↦ rw unknown v
  | inr (u, known) ↦ rw known (
      rw (known_online s u m v known)
        (elim (Bool-cases (is_nonempty (discard s (or_empty (lookup u m.connections))))) [
          | inl some_left ↦ rw some_left (keep-IsValid s u m v known some_left)
          | inr none_left ↦ rw none_left (drop-IsValid s u m v known none_left)
        ]))
]

-- `register` reports `became_online` exactly when the user was offline, and leaves them online;
-- nobody else's status changes.
pub register_reports :
    (u s : ℕ) (m : PresenceManager)
    → ((register u s m).1 ≡ not (is_online u m))
      × (is_online u (register u s m).0 ≡ true)
      × ((w : ℕ) → w ≢ u → is_online w (register u s m).0 ≡ is_online w m)
unfolding register is_online
register_reports u s m = (
  refl,
  ground (
    arith,
    lookup-put u u (insert s (sockets u m)) m.connections,
    insert-nonempty s (sockets u m),
  ),
  λ w ne. ground (arith, lookup-put u w (insert s (sockets u m)) m.connections),
)

-- `unregister` of a known socket returns its user, reports `became_offline` exactly when the user
-- is then offline, and changes nobody else's status. An unknown socket changes nothing.
pub unregister_reports :
    (s : ℕ) (m : PresenceManager)
    → IsValid m
    → ((unregister s m).1 ≡ lookup s m.socket_users)
      × ((u : ℕ)
          → lookup s m.socket_users ≡ some u
          → (unregister s m).2 ≡ not (is_online u (unregister s m).0))
      × ((w : ℕ)
          → lookup s m.socket_users ≢ some w
          → is_online w (unregister s m).0 ≡ is_online w m)
unfolding unregister is_online
unregister_reports s m v = elim (Option-cases (lookup s m.socket_users)) [
  | inl unknown ↦ rw unknown (refl, λ u e. ground arith, λ w ne. refl)
  | inr (u, known) ↦ rw known (
      rw (known_online s u m v known)
        (elim (Bool-cases (is_nonempty (discard s (or_empty (lookup u m.connections))))) [
          | inl some_left ↦ rw some_left (
            refl,
            λ x e. ground (
              arith,
              lookup-put u x (discard s (or_empty (lookup u m.connections))) m.connections,
            ),
            λ w ne. ground (
              arith,
              lookup-put u w (discard s (or_empty (lookup u m.connections))) m.connections,
            ),
          )
          | inr none_left ↦ rw none_left (
            refl,
            λ x e. ground (arith, lookup-erase u x m.connections),
            λ w ne. ground (arith, lookup-erase u w m.connections),
          )
        ]))
]

-- A user is online exactly while some socket is mapped to them.
pub online_exact :
    (u : ℕ) (m : PresenceManager)
    → IsValid m
    → (is_online u m ≡ true) ↔ ((s : ℕ) × (lookup s m.socket_users ≡ some u))
unfolding is_online
online_exact u m v = (
  λ on.
      let (s, here) = member_of (or_empty (lookup u m.connections)) on in
      (s, is_id_eq (lookup s m.socket_users) u (sym (v.agree u s) ∙ here)),
  λ (s, known). known_online s u m v known,
)
  where
    is_id_eq : (o : Option ℕ) (b : ℕ) → is_id o b ≡ true → o ≡ some b
    is_id_eq none b h = ground arith
    is_id_eq (some a) b h = ground arith
