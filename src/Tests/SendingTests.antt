-- ===== src/Tests/SendingTests.antt =====
-- Bob writes to the lobby and mentions Alice, and Alice reads what he has written.
use realynk.Base.{ℕ, ◌≡◌, refl, none, some, Text, codes, [], ◌∷◌}
use realynk.Models.{Db, Message}
use realynk.Session.{}
use realynk.Session.Ends.{Ends}
use realynk.Constraints.Checked.{checking, checking-RestoresOn}
use realynk.Messages.Sending.{
  new_message, with_message, create_message, SendOutcome, create_message-SendOutcome,
}
use realynk.Notifications.Delivery.{mentioned_names, notify_message}
use realynk.Notifications.Delivery.Batch.{NotifyOutcome, notify_message-NotifyOutcome}
use realynk.Reads.Many.{mark_many, ManyOutcome, mark_many-ManyOutcome}
use realynk.Reactions.Adding.{}
use realynk.Tests.Scenario.{town, alice, bob, hello}

abbrev shown_id : ℕ → Text
shown_id id = id ∷ []

abbrev row_id : ℕ → ℕ
row_id = λ i. i

names_are_found :
    mentioned_names (codes "@Alice, ask @bo or @@carol_9!") ≡ codes "alice" ∷ codes "carol_9" ∷ []
names_are_found = refl

notify_message-NotifyOutcome_example :
    Ends (NotifyOutcome hello town) (notify_message shown_id (checking town) row_id 9 hello) town
notify_message-NotifyOutcome_example =
    notify_message-NotifyOutcome shown_id (checking town) row_id 9 hello town
      (checking-RestoresOn town)

abbrev hi : Message
hi = new_message 31 9 bob (codes "hi @alice") (some 10) none

abbrev told_town : Db
told_town = with_message 9 hi town

create_message-SendOutcome_example :
    Ends
      (SendOutcome (checking town) 9 9 bob hi town)
      (create_message
        (checking town)
        (checking told_town)
        shown_id
        row_id
        31
        9
        9
        bob
        (codes "hi @alice")
        (some 10)
        none)
      town
create_message-SendOutcome_example =
    create_message-SendOutcome (checking town) (checking told_town) shown_id row_id 31 9 9 bob
      (codes "hi @alice") (some 10) none town (checking-RestoresOn town)
      (checking-RestoresOn told_town)

mark_many-ManyOutcome_example :
    Ends
      (ManyOutcome 1 (30 ∷ 30 ∷ []) town)
      (mark_many (checking town) row_id 9 9 alice (30 ∷ 30 ∷ []))
      town
mark_many-ManyOutcome_example =
    mark_many-ManyOutcome (checking town) row_id 9 9 alice (30 ∷ 30 ∷ []) town
      (checking-RestoresOn town)
