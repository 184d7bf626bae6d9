-- ===== src/Tests/HistoryTests.antt =====
-- A page of the lobby's history.
use realynk.Base.{◌≡◌, ◌+◌, refl, false, none, some, [], ◌∷◌, ltb, length}
use realynk.Messages.History.{list_history, matching, list_history-more}
use realynk.Tests.Scenario.{hello, town}

list_history-more_example :
    (list_history (some 10) none 1 none 0 town).1
    ≡ ltb (0 + 1) (length (matching (some 10) none none town))
list_history-more_example = list_history-more (some 10) none 1 0 none town

one_page : list_history (some 10) none 1 none 0 town ≡ (hello ∷ [], false)
unfolding list_history
one_page = refl
