-- ===== src/Presence/Typing.antt =====
-- app/presence/typing_manager.py. A key `(user_id, context_type, context_id)` is only compared, so
-- it is a number, as are socket identifiers and `Timer` objects. Each method holds the lock
-- throughout and is one atomic step. A timer runs in a thread of its own: when its time is up it
-- has fired, and `_expire` runs later, when it gets the lock; `cancel` stops only a timer that is
-- still waiting.
pub mod Invariant
pub mod Cleanup
pub mod Timers
pub mod Effects
pub mod Ending
use realynk.Base.{
  ℕ, ◌+◌, Bool, true, false, not, Option, none, some, List, [], ◌∷◌, insert, discard, if◌then◌else◌,
}
use realynk.Base.Dict.{Dict, lookup, put, erase, is_nonempty, dict_tests}

pub data Phase : Type 0 where
  waiting fired cancelled finished : Phase

pub record Timer : Type 0 where
  pub key : ℕ
  pub phase : Phase

pub record TypingState : Type 0 where
  pub sources : List ℕ
  pub timer : Option ℕ

-- `next` is the identity of the next `Timer` object.
pub record TypingManager : Type 0 where
  pub states : Dict TypingState
  pub timers : Dict Timer
  pub next : ℕ

abbrev pub init : TypingManager
init = record { states = []; timers = []; next = 0 }

abbrev set_phase : ℕ → Phase → Option Timer → Dict Timer → Dict Timer
set_phase t p none timers = timers
set_phase t p (some timer) timers = put t (record timer { phase = p }) timers

abbrev pub is_waiting : Option Timer → Bool
is_waiting none = false
is_waiting (some timer) = elim timer.phase [ waiting ↦ true | _ ↦ false ]

abbrev pub is_fired : Option Timer → Bool
is_fired none = false
is_fired (some timer) = elim timer.phase [ fired ↦ true | _ ↦ false ]

-- `if state.timer: state.timer.cancel()`
abbrev pub cancel : Option ℕ → Dict Timer → Dict Timer
cancel none timers = timers
cancel (some t) timers =
    if is_waiting (lookup t timers) then set_phase t cancelled (lookup t timers) timers else timers

-- `self._states.setdefault(key, TypingState())`
abbrev pub or_new : Option TypingState → TypingState
or_new none = record { sources = []; timer = none }
or_new (some state) = state

unfoldable pub start : ℕ → ℕ → TypingManager → TypingManager × Bool
start key socket_id m =
    let state = or_new (lookup key m.states) in
    (
      record {
        states =
            put key (record { sources = insert socket_id state.sources; timer = some m.next })
              m.states;
        timers = put m.next (record { key = key; phase = waiting }) (cancel state.timer m.timers);
        next = m.next + 1;
      },
      not (is_nonempty state.sources),
    )

-- `state.sources.discard(socket_id)`, and the end of the state where no source is left
abbrev pub discard_source : ℕ → ℕ → TypingState → TypingManager → TypingManager × Bool
discard_source key socket_id state m =
    let left = discard socket_id state.sources in
    if is_nonempty left
    then (record m { states = put key (record state { sources = left }) m.states }, false)
    else (record m { states = erase key m.states; timers = cancel state.timer m.timers }, true)

abbrev stop_state : Option TypingState → ℕ → ℕ → TypingManager → TypingManager × Bool
stop_state none key socket_id m = (m, false)
stop_state (some state) key socket_id m = discard_source key socket_id state m

unfoldable pub stop : ℕ → ℕ → TypingManager → TypingManager × Bool
stop key socket_id m = stop_state (lookup key m.states) key socket_id m

-- The loop of `cleanup_socket` over `list(self._states.items())`, with the keys that it stops.
unfoldable pub cleanup_items : List (ℕ × TypingState) → ℕ → TypingManager → TypingManager × List ℕ
cleanup_items [] socket_id m = (m, [])
cleanup_items ((key, state) ∷ items) socket_id m =
    let (m', stopped) = discard_source key socket_id state m in
    let (m'', rest) = cleanup_items items socket_id m' in
    (m'', if stopped then key ∷ rest else rest)

unfoldable pub cleanup_socket : ℕ → TypingManager → TypingManager × List ℕ
unfolding cleanup_items
cleanup_socket socket_id m = cleanup_items m.states socket_id m

-- The time of a waiting timer is up.
unfoldable pub fire : ℕ → TypingManager → TypingManager
fire t m =
    if is_waiting (lookup t m.timers)
    then record m { timers = set_phase t fired (lookup t m.timers) m.timers }
    else m

-- whether `_expire` finds a state, and calls `on_timeout`
abbrev found : Option TypingState → Bool
found none = false
found (some state) = true

abbrev expire_timer : Option Timer → ℕ → TypingManager → TypingManager × Bool
expire_timer none t m = (m, false)
expire_timer (some timer) t m = (
  record m {
    states = erase timer.key m.states;
    timers = put t (record timer { phase = finished }) m.timers;
  },
  found (lookup timer.key m.states),
)

-- A fired timer gets the lock and runs `_expire`.
unfoldable pub expire : ℕ → TypingManager → TypingManager × Bool
expire t m =
    if is_fired (lookup t m.timers) then expire_timer (lookup t m.timers) t m else (m, false)

abbrev has_sources : Option TypingState → Bool
has_sources none = false
has_sources (some state) = is_nonempty state.sources

unfoldable pub is_typing : ℕ → TypingManager → Bool
is_typing key m = has_sources (lookup key m.states)
