-- ===== src/Tests/PresenceTests.antt =====
-- Presence and typing at work.
use realynk.Base.{ℕ, ◌≡◌, ◌↔◌, refl, true, false, some, List, [], ◌∷◌}
use realynk.Base.Dict.{lookup, dict_tests}
use realynk.Presence.Manager.{register, unregister, is_online}
use realynk.Presence.Manager.Invariant.{}
use realynk.Presence.Manager.History.{Event, connect, disconnect, run, holder, online_iff_connected}
use realynk.Presence.Typing.{TypingManager, init, start, fire, expire, is_typing, is_waiting}
use realynk.Presence.Typing.Invariant.{IsValid}
use realynk.Presence.Typing.Timers.{Reach, here, next, starts, fires, Reach-IsValid}
use realynk.Presence.Typing.Ending.{IsEnded, Reach-IsEnded}
use realynk.Presence.Typing.Effects.{stale_expiry}

-- Two tabs of user 7, of which the first closes.
abbrev tabs : List Event
tabs = disconnect 1 ∷ connect 7 2 ∷ connect 7 1 ∷ []

still_online : is_online 7 (run tabs) ≡ true
unfolding run register unregister is_online dict_tests
still_online = refl

online_iff_connected_example :
    (is_online 7 (run tabs) ≡ true) ↔ ((s : ℕ) × (holder tabs s ≡ some 7))
online_iff_connected_example = online_iff_connected tabs 7 (refl, (refl, tt))

-- User 7 types over socket 1; the time of the first timer is up.
abbrev fired_once : TypingManager
fired_once = fire 0 (start 7 1 init).0

fired_once-Reach : Reach init fired_once
fired_once-Reach = next (next here (starts 7 1 init)) (fires 0 (start 7 1 init).0)

Reach-IsValid_example : IsValid fired_once
Reach-IsValid_example = Reach-IsValid fired_once-Reach

stale_expiry_example :
    ((start 7 1 fired_once).1 ≡ false)
    × ((expire 0 (start 7 1 fired_once).0).1 ≡ true)
    × (is_typing 7 (expire 0 (start 7 1 fired_once).0).0 ≡ false)
    × (is_waiting (lookup 1 (expire 0 (start 7 1 fired_once).0).0.timers) ≡ true)
unfolding start fire dict_tests
stale_expiry_example =
    stale_expiry 7 1 0 (record { sources = 1 ∷ []; timer = some 0 }) fired_once
      (Reach-IsValid fired_once-Reach) refl refl refl

fired_once_typing : is_typing 7 fired_once ≡ true
unfolding start fire is_typing dict_tests
fired_once_typing = refl

Reach-IsEnded_example :
    (t : ℕ) × IsEnded 7 fired_once (expire t (fire t fired_once)).0 (expire t (fire t fired_once)).1
Reach-IsEnded_example = Reach-IsEnded 7 fired_once-Reach fired_once_typing
