-- ===== src/Tests/VisibilityTests.antt =====
-- Bob and Carol share a conversation.
use realynk.Base.{◌≡◌, refl, true, arith, contains}
use realynk.Presence.Visibility.{
  can_view_presence, shared_observer_ids, can_view_presence-shared_observer_ids,
}
use realynk.Tests.Scenario.{town}

can_view_presence-shared_observer_ids_example :
    can_view_presence 3 2 town ≡ contains 3 (shared_observer_ids 2 town)
can_view_presence-shared_observer_ids_example =
    can_view_presence-shared_observer_ids 3 2 town (ground arith)

carol_sees : can_view_presence 3 2 town ≡ true
unfolding can_view_presence
carol_sees = refl
