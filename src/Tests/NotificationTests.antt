-- ===== src/Tests/NotificationTests.antt =====
-- The theorems on notifications at work.
use realynk.Base.{◌≡◌, refl, false, some, Text, codes}
use realynk.Models.{Db, Notification, NotificationType}
use realynk.Session.{}
use realynk.Session.Ends.{Ends}
use realynk.Constraints.Checked.{checking, checking-RestoresOn}
use realynk.Notifications.{
  create_notification, mark_all_as_read, new_notification, add_notification, count_unread,
}
use realynk.Notifications.Preferences.{is_enabled, upsert_preference, is_enabled-upsert_preference}
use realynk.Notifications.Inbox.{ReadAllOutcome, mark_all_as_read-ReadAllOutcome}
use realynk.Notifications.Creation.{CreateOutcome, create_notification-CreateOutcome}
use realynk.Tests.Scenario.{alice, town}

abbrev key : Text
key = codes "mention:30:1"

abbrev note : Notification
note =
    new_notification 500 9 alice NotificationType.mention (codes "Mention") (codes "…") (some 30)
      (some 2) (some key)

create_notification-CreateOutcome_example :
    Ends
      (CreateOutcome (checking town) note alice NotificationType.mention town)
      (create_notification
        (checking town)
        500
        9
        alice
        NotificationType.mention
        (codes "Mention")
        (codes "…")
        (some 30)
        (some 2)
        (some key))
      town
create_notification-CreateOutcome_example =
    create_notification-CreateOutcome (checking town) 500 9 alice NotificationType.mention
      (codes "Mention") (codes "…") (some 30) (some 2) (some key) town (checking-RestoresOn town)

abbrev noted_town : Db
noted_town = add_notification note town

mark_all_as_read-ReadAllOutcome_example :
    Ends
      (ReadAllOutcome 12 1 noted_town)
      (mark_all_as_read (checking noted_town) 12 alice)
      noted_town
mark_all_as_read-ReadAllOutcome_example =
    mark_all_as_read-ReadAllOutcome (checking noted_town) 12 alice noted_town
      (checking-RestoresOn noted_town)

noted_once : count_unread 1 noted_town ≡ 1
noted_once = refl

is_enabled-upsert_preference_example :
    is_enabled 1 NotificationType.mention
      (upsert_preference 600 1 NotificationType.mention false town)
    ≡ false
is_enabled-upsert_preference_example =
    is_enabled-upsert_preference 600 1 NotificationType.mention false town
