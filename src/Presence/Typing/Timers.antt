-- ===== src/Presence/Typing/Timers.antt =====
-- The invariant through the timers, and every interleaving of calls and timers.
use realynk.Base.{ℕ, some, arith, Option-cases, Bool-cases, inl, inr}
use realynk.Base.Dict.{lookup, lookup-put, lookup-erase, lookup-nil, erase-KeysOnce}
use realynk.Presence.Typing.{
  TypingManager, TypingState, Timer, Phase, init, start, stop, cleanup_socket, fire, expire,
  is_waiting, is_fired,
}
use realynk.Presence.Typing.Invariant.{IsValid, start-IsValid}
use realynk.Presence.Typing.Cleanup.{stop-IsValid, cleanup_socket-IsValid}

fire-IsValid : (t : ℕ) (m : TypingManager) → IsValid m → IsValid (fire t m)
unfolding fire
fire-IsValid t m v = elim (Option-cases (lookup t m.timers)) [
  | inl gone ↦ rw gone v
  | inr (tm, here) ↦ elim (Bool-cases (is_waiting (some tm))) [
    | inr still ↦ rw (here, still) v
    | inl waits ↦
        rw (here, waits)
          (record {
            timed = λ k st e.
                let i = v.timed k st e in
                record {
                  sourced = i.sourced;
                  timer = i.timer;
                  set = i.set;
                  pending = ground (
                    arith,
                    lookup-put t i.timer (record tm { phase = Phase.fired }) m.timers,
                    i.pending,
                  );
                };
            keys = v.keys;
            fresh = λ u timer e. ground (
              arith,
              lookup-put t u (record tm { phase = Phase.fired }) m.timers,
              v.fresh t tm here,
              v.fresh u timer,
            );
          })
  ]
]

expire-IsValid : (t : ℕ) (m : TypingManager) → IsValid m → IsValid (expire t m).0
unfolding expire
expire-IsValid t m v = elim (Option-cases (lookup t m.timers)) [
  | inl gone ↦ rw gone v
  | inr (tm, here) ↦ elim (Bool-cases (is_fired (some tm))) [
    | inr still ↦ rw (here, still) v
    | inl due ↦
        rw (here, due)
          (record {
            timed = λ k st e.
                let i = v.timed k st (ground (arith, lookup-erase tm.key k m.states)) in
                record {
                  sourced = i.sourced;
                  timer = i.timer;
                  set = i.set;
                  pending = ground (
                    arith,
                    lookup-put t i.timer (record tm { phase = Phase.finished }) m.timers,
                    lookup-erase tm.key k m.states,
                    i.pending,
                  );
                };
            keys = erase-KeysOnce tm.key m.states v.keys;
            fresh = λ u timer e. ground (
              arith,
              lookup-put t u (record tm { phase = Phase.finished }) m.timers,
              v.fresh t tm here,
              v.fresh u timer,
            );
          })
  ]
]

-- One atomic step: a call of a method, the end of a timer's time, or a fired timer's `_expire`.
pub data Step : TypingManager → TypingManager → Type 0 where
  starts : (key s : ℕ) (m : TypingManager) → Step m (start key s m).0
  stops : (key s : ℕ) (m : TypingManager) → Step m (stop key s m).0
  cleans : (s : ℕ) (m : TypingManager) → Step m (cleanup_socket s m).0
  fires : (t : ℕ) (m : TypingManager) → Step m (fire t m)
  expires : (t : ℕ) (m : TypingManager) → Step m (expire t m).0

pub data Reach (m : TypingManager) : TypingManager → Type 0 where
  here : Reach m m
  next : {n o : TypingManager} → Reach m n → Step n o → Reach m o

Step-IsValid : {m n : TypingManager} → Step m n → IsValid m → IsValid n
Step-IsValid (starts key s m) v = start-IsValid key s m v
Step-IsValid (stops key s m) v = stop-IsValid key s m v
Step-IsValid (cleans s m) v = cleanup_socket-IsValid s m v
Step-IsValid (fires t m) v = fire-IsValid t m v
Step-IsValid (expires t m) v = expire-IsValid t m v

init-IsValid : IsValid init
init-IsValid = record {
  timed = λ k st e. absurd (ground (arith, lookup-nil {V = TypingState} k));
  keys = tt;
  fresh = λ t timer e. absurd (ground (arith, lookup-nil {V = Timer} t));
}

-- However the calls and the timer threads interleave, each typing state has a source, and a timer
-- of its own key that is waiting or has fired: no user is left typing with no timeout to come.
pub Reach-IsValid : {m : TypingManager} → Reach init m → IsValid m
Reach-IsValid here = init-IsValid
Reach-IsValid (next r step) = Step-IsValid step (Reach-IsValid r)
