-- ===== src/Presence/Typing/Ending.antt =====
-- Every typing state comes to an end.
use realynk.Base.{
  ℕ, ◌≡◌, ◌≢◌, refl, Bool, ◌||◌, true, false, some, arith, Option-cases, Bool-cases, inl, inr,
}
use realynk.Base.Dict.{lookup, put, lookup-put, lookup-erase}
use realynk.Presence.Typing.{
  TypingManager, TypingState, Timer, Phase, init, fire, expire, is_typing, is_waiting, is_fired,
}
use realynk.Presence.Typing.Invariant.{}
use realynk.Presence.Typing.Timers.{Reach, Reach-IsValid}
use realynk.Presence.Typing.Effects.{expire-fired}

-- the end of the typing state of one key
pub record IsEnded (key : ℕ) (before after : TypingManager) (announced : Bool) : Type 0 where
  pub told : announced ≡ true
  pub stopped : is_typing key after ≡ false
  pub others : (k : ℕ) → k ≢ key → is_typing k after ≡ is_typing k before

expire-IsEnded :
    (t key : ℕ) (tm : Timer) (st : TypingState) (m : TypingManager)
    → lookup t m.timers ≡ some tm
    → is_fired (some tm) ≡ true
    → tm.key ≡ key
    → lookup key m.states ≡ some st
    → IsEnded key m (expire t m).0 (expire t m).1
unfolding is_typing
expire-IsEnded t key tm st m known due same here = rw (expire-fired t tm m known due) (record {
  told = ground (arith, same, here);
  stopped = ground (arith, lookup-erase tm.key key m.states, same);
  others = λ k ne. ground (arith, lookup-erase tm.key k m.states, same, ne);
})

fire-IsEnded :
    (t key : ℕ) (tm : Timer) (st : TypingState) (m : TypingManager)
    → lookup t m.timers ≡ some tm
    → is_waiting (some tm) || is_fired (some tm) ≡ true
    → tm.key ≡ key
    → lookup key m.states ≡ some st
    → IsEnded key m (expire t (fire t m)).0 (expire t (fire t m)).1
unfolding fire is_typing
fire-IsEnded t key tm st m known pending same here = elim (Bool-cases (is_waiting (some tm))) [
  | inl waits ↦
      let fired_timer = record tm { phase = Phase.fired } in
      let ended =
        expire-IsEnded t key fired_timer st (record m { timers = put t fired_timer m.timers })
          (ground (arith, lookup-put t t fired_timer m.timers)) refl same here in
      rw (known, waits)
        (record { told = ended.told; stopped = ended.stopped; others = ended.others })
  | inr still ↦
      rw (known, still)
        (expire-IsEnded t key tm st m known (ground (arith, pending, still)) same here)
]

-- In every reachable state, a user who is typing has a timer that is still to run: when its time is
-- up and its callback gets the lock, the user is no longer typing, the observers are told so, and
-- nobody else's status has changed.
pub Reach-IsEnded :
    {m : TypingManager} (key : ℕ)
    → Reach init m
    → is_typing key m ≡ true
    → (t : ℕ) × IsEnded key m (expire t (fire t m)).0 (expire t (fire t m)).1
unfolding is_typing
Reach-IsEnded {m} key reach typing = elim (Option-cases (lookup key m.states)) [
  | inl gone ↦ absurd (ground (arith, gone, typing))
  | inr (st, here) ↦
      let i = (Reach-IsValid reach).timed key st here in
      elim (Option-cases (lookup i.timer m.timers)) [
        | inl gone ↦ absurd (ground (arith, gone, i.pending))
        | inr (tm, known) ↦ (
          i.timer,
          fire-IsEnded i.timer key tm st m known (ground (arith, known, i.pending))
              (ground (arith, known, i.pending)) here,
        )
      ]
]
