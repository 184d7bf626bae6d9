-- ===== src/Presence/Typing/Invariant.antt =====
-- Every typing state has a source and a timer of its own that is waiting or has fired: no state
-- outlives its timeout for good.
use realynk.Base.{
  ℕ, ◌≡◌, refl, subst, ◌<◌, Bool, true, false, Option, none, some, arith, ◌==◌, insert,
  Option-cases, Bool-cases, inl, inr, ◌||◌, ◌&&◌,
}
use realynk.Base.Dict.{
  Dict, lookup, is_nonempty, lookup-put, insert-nonempty, KeysOnce, put-KeysOnce,
}
use realynk.Presence.Typing.{
  TypingManager, TypingState, Timer, Phase, cancel, or_new, start, is_waiting, is_fired,
}

-- timer `t` belongs to the key and will call `_expire`, or is about to
abbrev pub is_pending_for : ℕ → Option Timer → Bool
is_pending_for key none = false
is_pending_for key (some timer) =
    (timer.key == key) && (is_waiting (some timer) || is_fired (some timer))

pub record IsTimed (key : ℕ) (timers : Dict Timer) (state : TypingState) : Type 0 where
  pub sourced : is_nonempty state.sources ≡ true
  pub timer : ℕ
  pub set : state.timer ≡ some timer
  pub pending : is_pending_for key (lookup timer timers) ≡ true

pub record IsValid (m : TypingManager) : Type 0 where
  pub timed :
      (key : ℕ) (state : TypingState)
      → lookup key m.states ≡ some state
      → IsTimed key m.timers state
  pub keys : KeysOnce m.states
  pub fresh : (t : ℕ) (timer : Timer) → lookup t m.timers ≡ some timer → t < m.next

-- Cancelling another key's timer leaves this one pending.
pub pending-cancel :
    (key other t : ℕ) (o : Option ℕ) (timers : Dict Timer)
    → (key == other) ≡ false
    → ((u : ℕ) → o ≡ some u → is_pending_for other (lookup u timers) ≡ true)
    → is_pending_for key (lookup t timers) ≡ true
    → is_pending_for key (lookup t (cancel o timers)) ≡ true
pending-cancel key other t none timers ne own h = h
pending-cancel key other t (some u) timers ne own h = elim (Option-cases (lookup u timers)) [
  | inl gone ↦ rw gone h
  | inr (tm, here) ↦ elim (Bool-cases (is_waiting (some tm))) [
    | inl waits ↦
        rw (here, waits)
          (ground
            (arith, lookup-put u t (record tm { phase = Phase.cancelled }) timers, own u refl))
    | inr still ↦ rw (here, still) h
  ]
]

-- A cancelled timer is no newer than the timers there are.
pub fresh-cancel :
    (t n : ℕ) (o : Option ℕ) (timers : Dict Timer)
    → ((u : ℕ) (timer : Timer) → lookup u timers ≡ some timer → u < n)
    → (timer : Timer) → lookup t (cancel o timers) ≡ some timer
    → t < n
fresh-cancel t n none timers f timer e = f t timer e
fresh-cancel t n (some u) timers f timer e = elim (Option-cases (lookup u timers)) [
  | inl gone ↦ f t timer (ground (arith, gone))
  | inr (tm, here) ↦
      grind (
        arith,
        lookup-put u t (record tm { phase = Phase.cancelled }) timers,
        f u tm here,
        f t timer,
      )
]

-- Each write keeps the other keys' timers pending.
own_timer :
    (key : ℕ) (m : TypingManager)
    → IsValid m
    → (u : ℕ) → (or_new (lookup key m.states)).timer ≡ some u
    → is_pending_for key (lookup u m.timers) ≡ true
own_timer key m v u e = elim (Option-cases (lookup key m.states)) [
  | inl gone ↦ absurd (ground (arith, gone))
  | inr (st, here) ↦ let i = v.timed key st here in ground (arith, i.set, i.pending, here)
]

pending-lt :
    (key t : ℕ) (m : TypingManager)
    → IsValid m
    → is_pending_for key (lookup t m.timers) ≡ true
    → t < m.next
pending-lt key t m v p = elim (Option-cases (lookup t m.timers)) [
  | inl gone ↦ absurd (ground (arith, gone))
  | inr (tm, here) ↦ v.fresh t tm here
]

pub start-IsValid : (key s : ℕ) (m : TypingManager) → IsValid m → IsValid (start key s m).0
unfolding start
start-IsValid key s m v = record {
  timed = λ k st e. elim (Bool-cases (key == k)) [
    | inl same ↦
        subst (IsTimed k (start key s m).0.timers) (ground (arith, lookup-put key k new m.states))
          (record {
            sourced = insert-nonempty s (or_new (lookup key m.states)).sources;
            timer = m.next;
            set = refl;
            pending = ground (arith, lookup-put m.next m.next timer (cancel old m.timers));
          })
    | inr other ↦
        let i = v.timed k st (ground (arith, lookup-put key k new m.states)) in
        record {
          sourced = i.sourced;
          timer = i.timer;
          set = i.set;
          pending = ground (
            arith,
            lookup-put m.next i.timer timer (cancel old m.timers),
            pending-lt k i.timer m v i.pending,
            pending-cancel k key i.timer old m.timers (ground arith) (own_timer key m v) i.pending,
          );
        }
  ];
  keys = put-KeysOnce key new m.states v.keys;
  fresh = λ t tm e. elim (Bool-cases (m.next == t)) [
    | inl same ↦ ground arith
    | inr other ↦ ground (
      arith,
      fresh-cancel t m.next old m.timers v.fresh tm
          (ground (arith, lookup-put m.next t timer (cancel old m.timers))),
    )
  ];
}
  where
    old : Option ℕ
    old = (or_new (lookup key m.states)).timer

    new : TypingState
    new = record { sources = insert s (or_new (lookup key m.states)).sources; timer = some m.next }

    timer : Timer
    timer = record { key = key; phase = Phase.waiting }
