-- ===== src/Presence/Typing/Cleanup.antt =====
-- The invariant through `stop` and `cleanup_socket`.
use realynk.Base.{
  ℕ, ◌≡◌, subst, true, false, none, some, List, [], ◌∷◌, arith, ◌==◌, discard, ==_eq, Option-cases,
  Bool-cases, inl, inr,
}
use realynk.Base.Dict.{
  Dict, lookup, put, erase, is_nonempty, lookup-put, lookup-erase, KeysOnce, put-KeysOnce,
  erase-KeysOnce, lookup-cons,
}
use realynk.Presence.Typing.{
  TypingManager, TypingState, Timer, cancel, stop, cleanup_items, cleanup_socket, discard_source,
}
use realynk.Presence.Typing.Invariant.{
  is_pending_for, IsTimed, IsValid, pending-cancel, fresh-cancel,
}

module _ (key s : ℕ) (st : TypingState) (m : TypingManager) (v : IsValid m)
    (i : IsTimed key m.timers st) where
  own : (u : ℕ) → st.timer ≡ some u → is_pending_for key (lookup u m.timers) ≡ true
  own u e = ground (arith, i.set, i.pending)

  -- The end of one key's state leaves the other keys' timers pending.
  IsTimed-cancel :
      (k : ℕ) (other : TypingState)
      → (k == key) ≡ false
      → IsTimed k m.timers other
      → IsTimed k (cancel st.timer m.timers) other
  IsTimed-cancel k other ne j = record {
    sourced = j.sourced;
    timer = j.timer;
    set = j.set;
    pending = pending-cancel k key j.timer st.timer m.timers ne own j.pending;
  }

  keep_sources :
      is_nonempty (discard s st.sources) ≡ true
      → IsValid
          (record m { states = put key (record st { sources = discard s st.sources }) m.states })
  keep_sources left = record {
    timed = λ k st' e. elim (Bool-cases (key == k)) [
      | inl same ↦
          subst (IsTimed k m.timers)
            (ground
              (arith, lookup-put key k (record st { sources = discard s st.sources }) m.states))
            (record {
              sourced = left;
              timer = i.timer;
              set = i.set;
              pending =
                  subst (λ x. is_pending_for x (lookup i.timer m.timers) ≡ true) (==_eq key k same)
                    i.pending;
            })
      | inr other ↦
          v.timed k st' (
            ground
              (arith, lookup-put key k (record st { sources = discard s st.sources }) m.states))
    ];
    keys = put-KeysOnce key _ m.states v.keys;
    fresh = v.fresh;
  }

  end_state : IsValid (record m { states = erase key m.states; timers = cancel st.timer m.timers })
  end_state = record {
    timed = λ k st' e.
        let kept : lookup k m.states ≡ some st' = ground (arith, lookup-erase key k m.states) in
        IsTimed-cancel k st' (ground (arith, lookup-erase key k m.states)) (v.timed k st' kept);
    keys = erase-KeysOnce key m.states v.keys;
    fresh = λ t tm e. fresh-cancel t m.next st.timer m.timers v.fresh tm e;
  }

  pub discard_source-IsValid : IsValid (discard_source key s st m).0
  discard_source-IsValid = elim (Bool-cases (is_nonempty (discard s st.sources))) [
    | inl left ↦ rw left (keep_sources left)
    | inr none_left ↦ rw none_left end_state
  ]

  -- and it leaves the states of the other keys as they are
  pub discard_source_others :
      (k : ℕ) (other : TypingState)
      → (k == key) ≡ false
      → IsTimed k m.timers other
      → IsTimed k (discard_source key s st m).0.timers other
  discard_source_others k other ne j = elim (Bool-cases (is_nonempty (discard s st.sources))) [
    | inl left ↦ rw left j
    | inr none_left ↦ rw none_left (IsTimed-cancel k other ne j)
  ]

pub stop-IsValid : (key s : ℕ) (m : TypingManager) → IsValid m → IsValid (stop key s m).0
unfolding stop
stop-IsValid key s m v = elim (Option-cases (lookup key m.states)) [
  | inl gone ↦ rw gone v
  | inr (st, here) ↦ rw here (discard_source-IsValid key s st m v (v.timed key st here))
]

-- the snapshot that `cleanup_socket` goes through
abbrev AllTimed : List (ℕ × TypingState) → Dict Timer → Type 0
AllTimed [] timers = Unit
AllTimed ((k, st) ∷ items) timers = IsTimed k timers st × AllTimed items timers

AllTimed-discard :
    (key s : ℕ) (st : TypingState) (m : TypingManager) (v : IsValid m) (i : IsTimed key m.timers st)
    (items : List (ℕ × TypingState))
    → lookup key items ≡ none
    → AllTimed items m.timers
    → AllTimed items (discard_source key s st m).0.timers
AllTimed-discard key s st m v i [] h all = tt
AllTimed-discard key s st m v i ((k, st') ∷ items) h all = (
  discard_source_others key s st m v i k st' (ground (arith, lookup-cons k key st' items)) all.0,
  AllTimed-discard key s st m v i items (ground (arith, lookup-cons k key st' items)) all.1,
)

cleanup_items-IsValid :
    (items : List (ℕ × TypingState)) (s : ℕ) (m : TypingManager)
    → KeysOnce items
    → AllTimed items m.timers
    → IsValid m
    → IsValid (cleanup_items items s m).0
unfolding cleanup_items
cleanup_items-IsValid [] s m once all v = v
cleanup_items-IsValid ((k, st) ∷ items) s m once all v =
    cleanup_items-IsValid items s (discard_source k s st m).0 once.1
      (AllTimed-discard k s st m v all.0 items once.0 all.1)
      (discard_source-IsValid k s st m v all.0)

AllTimed-states :
    (items : List (ℕ × TypingState)) (timers : Dict Timer)
    → KeysOnce items
    → ((k : ℕ) (st : TypingState) → lookup k items ≡ some st → IsTimed k timers st)
    → AllTimed items timers
AllTimed-states [] timers once f = tt
AllTimed-states ((k, st) ∷ items) timers once f = (
  f k st (ground (arith, lookup-cons k k st items)),
  AllTimed-states items timers once.1
      (λ j st' e. f j st' (ground (arith, lookup-cons k j st items, once.0))),
)

pub cleanup_socket-IsValid :
    (s : ℕ) (m : TypingManager) → IsValid m → IsValid (cleanup_socket s m).0
unfolding cleanup_socket
cleanup_socket-IsValid s m v =
    cleanup_items-IsValid m.states s m v.keys (AllTimed-states m.states m.timers v.keys v.timed) v
