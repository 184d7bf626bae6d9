-- ===== src/Tests/PagingTests.antt =====
-- Alice reads two pages of one notification each.
use realynk.Base.{
  ℕ, zero, suc, ◌+◌, ◌<◌, ◌≡◌, refl, false, Option, none, some, Text, [], ◌∷◌, codes, arith, strip,
  text_eq, if◌then◌else◌,
}
use realynk.Models.{Db, Notification, NotificationType}
use realynk.Session.{ok, ◌>>=◌}
use realynk.Notifications.{new_notification}
use realynk.Config.Parsing.{int_of}
use realynk.Notifications.Paging.{listed, list_for_user, pagination, unread_arg, list_notifications}
use realynk.Notifications.Paging.Reading.{AllDue, read_pages, goes_on, list_notifications-AllDue}
use realynk.Tests.Platforms.{ascii_lower}
use realynk.Tests.Scenario.{town, alice}

abbrev notice : ℕ → ℕ → Notification
notice id now =
    new_notification id now alice NotificationType.system (codes "Hello") [] none none none

abbrev busy_town : Db
busy_town = record town { notifications = notice 1 5 ∷ notice 2 9 ∷ [] }

-- newest first
second_page : (list_for_user 1 2 1 false busy_town).0 ≡ notice 1 5 ∷ []
unfolding list_for_user listed
second_page = refl

-- `?page=…&limit=1`, for the pages below ten
abbrev query : ℕ → Text → Option Text
query page name =
    if text_eq name (codes "page")
    then some ((48 + page) ∷ [])
    else if text_eq name (codes "limit")
    then some (codes "1")
    else none

paged : (p : ℕ) → p < 2 → pagination (query (suc p)) ≡ ok (suc p, 1)
unfolding pagination int_of strip
paged zero h = refl
paged (suc zero) h = refl
paged (suc (suc p)) h = absurd (omega arith)

asked : (p : ℕ) → p < 2 → unread_arg ascii_lower (query (suc p) (codes "unread")) ≡ false
asked p h = refl

no_more : goes_on (list_notifications ascii_lower (query 2) alice busy_town).0 ≡ false
unfolding list_notifications pagination int_of strip list_for_user listed ◌>>=◌
no_more = refl

list_notifications-AllDue_example :
    AllDue 1 false busy_town (read_pages ascii_lower query alice busy_town 2)
list_notifications-AllDue_example =
    list_notifications-AllDue ascii_lower query alice busy_town 1 false 1 paged asked no_more
