-- ===== src/Presence/Manager/History.antt =====
-- The manager after a history of connections, against the history itself.
use realynk.Base.{
  ℕ, ◌≡◌, ◌↔◌, true, Option, none, some, List, [], ◌∷◌, arith, ◌==◌, if◌then◌else◌, inl, sym, ap,
  ◌∙◌,
}
use realynk.Base.Dict.{lookup, lookup-nil, lookup-put, lookup-erase}
use realynk.Presence.Manager.{PresenceManager, init, register, unregister, is_online}
use realynk.Presence.Manager.Invariant.{IsValid, register-IsValid, unregister-IsValid, online_exact}

pub data Event : Type 0 where
  connect : ℕ → ℕ → Event
  disconnect : ℕ → Event

-- A history has its latest event first.
unfoldable pub run : List Event → PresenceManager
run [] = init
run (connect u s ∷ earlier) = (register u s (run earlier)).0
run (disconnect s ∷ earlier) = (unregister s (run earlier)).0

-- the user whose connection over socket `s` is open
abbrev pub holder : List Event → ℕ → Option ℕ
holder [] s = none
holder (connect u t ∷ earlier) s = if t == s then some u else holder earlier s
holder (disconnect t ∷ earlier) s = if t == s then none else holder earlier s

-- A socket that connects is not open: the server gives each connection its own identifier.
abbrev pub IsHistory : List Event → Type 0
IsHistory [] = Unit
IsHistory (connect u t ∷ earlier) = (holder earlier t ≡ none) × IsHistory earlier
IsHistory (disconnect t ∷ earlier) = IsHistory earlier

pub record Tracks (m : PresenceManager) (h : List Event) : Type 0 where
  pub valid : IsValid m
  pub open_sockets : (s : ℕ) → lookup s m.socket_users ≡ holder h s

socket_users-unregister :
    (t s : ℕ) (m : PresenceManager)
    → lookup s (unregister t m).0.socket_users ≡ (if t == s then none else lookup s m.socket_users)
unfolding unregister
socket_users-unregister t s m = ground (arith, lookup-erase t s m.socket_users)

socket_users-register :
    (u t s : ℕ) (m : PresenceManager)
    → lookup s (register u t m).0.socket_users
      ≡ (if t == s then some u else lookup s m.socket_users)
unfolding register
socket_users-register u t s m = lookup-put t s u m.socket_users

pub run-Tracks : (h : List Event) → IsHistory h → Tracks (run h) h
unfolding run
run-Tracks [] p = record {
  valid = record {
    agree = λ u s. rw lookup-nil (rw lookup-nil);
    nonempty = λ u e. ground (arith, lookup-nil {V = List ℕ} u);
  };
  open_sockets = lookup-nil;
}
run-Tracks (connect u t ∷ h) p =
    let ih = run-Tracks h p.1 in
    record {
      valid = register-IsValid u t (run h) (inl (ih.open_sockets t ∙ p.0)) ih.valid;
      open_sockets = λ s.
          socket_users-register u t s (run h)
          ∙ ap (λ o. if t == s then some u else o) (ih.open_sockets s);
    }
run-Tracks (disconnect t ∷ h) p =
    let ih = run-Tracks h p in
    record {
      valid = unregister-IsValid t (run h) ih.valid;
      open_sockets = λ s.
          socket_users-unregister t s (run h)
          ∙ ap (λ o. if t == s then none else o) (ih.open_sockets s);
    }

-- After any history of connections, each over a socket that is not open yet, the manager reports
-- a user online exactly if one of the user's connections is still open.
pub online_iff_connected :
    (h : List Event) (u : ℕ)
    → IsHistory h
    → (is_online u (run h) ≡ true) ↔ ((s : ℕ) × (holder h s ≡ some u))
online_iff_connected h u p =
    let t = run-Tracks h p in
    let e = online_exact u (run h) t.valid in
    (
      λ on. let (s, known) = e.0 on in (s, sym (t.open_sockets s) ∙ known),
      λ (s, known). e.1 (s, t.open_sockets s ∙ known),
    )
