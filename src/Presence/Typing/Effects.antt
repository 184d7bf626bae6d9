-- ===== src/Presence/Typing/Effects.antt =====
-- What the methods report and change, and the race between a refresh and a timer that has fired.
use realynk.Base.{
  ℕ, ◌+◌, ◌≡◌, ◌≢◌, refl, true, false, not, Option, none, some, List, [], ◌∷◌, arith, ◌==◌, insert,
  discard, Option-cases, Bool-cases, inl, inr, if◌then◌else◌, ◌∙◌,
}
use realynk.Base.Dict.{
  lookup, put, erase, is_nonempty, lookup-put, lookup-erase, insert-nonempty, KeysOnce, lookup-cons,
  lookup-nil,
}
use realynk.Presence.Typing.{
  TypingManager, TypingState, Timer, Phase, or_new, start, cleanup_items, cleanup_socket, expire,
  is_typing, is_waiting, is_fired, discard_source, found as is_present,
}
use realynk.Presence.Typing.Invariant.{IsValid}

-- `start` reports `became_typing` exactly when the key was not typing; afterwards it is, and no
-- other key's status has changed.
pub start_reports :
    (key s : ℕ) (m : TypingManager)
    → ((start key s m).1 ≡ not (is_typing key m))
      × (is_typing key (start key s m).0 ≡ true)
      × ((k : ℕ) → k ≢ key → is_typing k (start key s m).0 ≡ is_typing k m)
unfolding start is_typing
start_reports key s m = (
  elim (Option-cases (lookup key m.states)) [ inl gone ↦ rw gone | inr (st, here) ↦ rw here ],
  ground (
    arith,
    lookup-put key key
        (record { sources = insert s (or_new (lookup key m.states)).sources; timer = some m.next })
        m.states,
    insert-nonempty s (or_new (lookup key m.states)).sources,
  ),
  λ k ne. ground (
    arith,
    lookup-put key k
        (record { sources = insert s (or_new (lookup key m.states)).sources; timer = some m.next })
        m.states,
  ),
)

-- what remains of a state when socket `s` is discarded
abbrev remaining : ℕ → TypingState → Option TypingState
remaining s st =
    if is_nonempty (discard s st.sources)
    then some (record st { sources = discard s st.sources })
    else none

abbrev pub remains : ℕ → Option TypingState → Option TypingState
remains s none = none
remains s (some st) = remaining s st

lookup-discard_source :
    (key s j : ℕ) (st : TypingState) (m : TypingManager)
    → lookup j (discard_source key s st m).0.states
      ≡ (if key == j then remaining s st else lookup j m.states)
lookup-discard_source key s j st m = elim (Bool-cases (is_nonempty (discard s st.sources))) [
  | inl left ↦ rw left (lookup-put key j (record st { sources = discard s st.sources }) m.states)
  | inr none_left ↦ rw none_left (lookup-erase key j m.states)
]

abbrev or_else : Option TypingState → ℕ → Option TypingState → Option TypingState
or_else none s kept = kept
or_else (some st) s kept = remaining s st

lookup-cleanup_items :
    (items : List (ℕ × TypingState)) (s j : ℕ) (m : TypingManager)
    → KeysOnce items
    → lookup j (cleanup_items items s m).0.states ≡ or_else (lookup j items) s (lookup j m.states)
unfolding cleanup_items
lookup-cleanup_items [] s j m once = rw (lookup-nil {V = TypingState} j) refl
lookup-cleanup_items ((k, st) ∷ items) s j m once =
    lookup-cleanup_items items s j (discard_source k s st m).0 once.1
    ∙ ground (arith, lookup-discard_source k s j st m, lookup-cons k j st items, once.0)

-- After `cleanup_socket` each state is what it was without the socket, and is gone if nothing else
-- was in it.
pub lookup-cleanup_socket :
    (s j : ℕ) (m : TypingManager)
    → IsValid m
    → lookup j (cleanup_socket s m).0.states ≡ remains s (lookup j m.states)
unfolding cleanup_socket
lookup-cleanup_socket s j m v =
    lookup-cleanup_items m.states s j m v.keys
    ∙ elim (Option-cases (lookup j m.states)) [ inl gone ↦ rw gone | inr (st, here) ↦ rw here ]

-- `expire` on a timer that has fired.
pub expire-fired :
    (t : ℕ) (tm : Timer) (m : TypingManager)
    → lookup t m.timers ≡ some tm
    → is_fired (some tm) ≡ true
    → expire t m ≡ (
      record m {
        states = erase tm.key m.states;
        timers = put t (record tm { phase = Phase.finished }) m.timers;
      },
      is_present (lookup tm.key m.states),
    )
unfolding expire
expire-fired t tm m here due = rw (here, due)

-- the manager after a `start` that cancels no timer
abbrev refreshed : ℕ → ℕ → TypingState → TypingManager → TypingManager
refreshed key s st m = record {
  states = put key (record { sources = insert s st.sources; timer = some m.next }) m.states;
  timers = put m.next (record { key = key; phase = Phase.waiting }) m.timers;
  next = m.next + 1;
}

-- `start` on a key whose timer has fired leaves that timer alone.
start_fired :
    (key s t : ℕ) (st : TypingState) (tm : Timer) (m : TypingManager)
    → lookup key m.states ≡ some st
    → st.timer ≡ some t
    → lookup t m.timers ≡ some tm
    → is_fired (some tm) ≡ true
    → start key s m ≡ (refreshed key s st m, not (is_nonempty st.sources))
unfolding start
start_fired key s t st tm m here set known due = rw (here, set, known, not_waiting)
  where
    not_waiting : is_waiting (some tm) ≡ false
    not_waiting = ground arith

-- A refresh does not save a user whose timer has already fired: `start` reports that the user was
-- typing already, the fired timer then ends the new state and announces that the user stopped,
-- though the time of the new timer is not up.
pub stale_expiry :
    (key s t : ℕ) (st : TypingState) (m : TypingManager)
    → IsValid m
    → lookup key m.states ≡ some st
    → st.timer ≡ some t
    → is_fired (lookup t m.timers) ≡ true
    → ((start key s m).1 ≡ false)
      × ((expire t (start key s m).0).1 ≡ true)
      × (is_typing key (expire t (start key s m).0).0 ≡ false)
      × (is_waiting (lookup m.next (expire t (start key s m).0).0.timers) ≡ true)
unfolding is_typing
stale_expiry key s t st m v here set due = elim (Option-cases (lookup t m.timers)) [
  | inl gone ↦ absurd (ground (arith, gone))
  | inr (tm, known) ↦ rw (start_fired key s t st tm m here set known (ground arith)) (
      let i = v.timed key st here in
      let old = v.fresh t tm known in
      let new = refreshed key s st m in
      let same_key : tm.key ≡ key = ground (arith, known, i.set, i.pending, set) in
      rw
        (expire-fired t tm new
          (ground
            (arith, lookup-put m.next t (record { key = key; phase = Phase.waiting }) m.timers))
          (ground arith))
        (
          ground (arith, i.sourced),
          ground (
            arith,
            lookup-put key key (record { sources = insert s st.sources; timer = some m.next })
                m.states,
          ),
          ground (arith, lookup-erase tm.key key new.states),
          ground (
            arith,
            lookup-put t m.next (record tm { phase = Phase.finished }) new.timers,
            lookup-put m.next m.next (record { key = key; phase = Phase.waiting }) m.timers,
          ),
        ))
]
