-- ===== src/Notifications/Delivery/Batch.antt =====
-- What a message adds to the inboxes.
use realynk.Base.{
  ℕ, suc, ◌≡◌, refl, Bool, true, false, some, List, [], ◌∷◌, Text, arith, ◌==◌, map, All,
  if◌then◌else◌,
}
use realynk.Models.{Db, User, Message, Notification, NotificationType}
use realynk.Session.{
  Engine, Result, ok, err, RestoresOn, notification_error, notification_create_failed,
}
use realynk.Session.Ends.{Ends, Ends-pure, Ends-gets, Ends-modify, Ends-commit_or}
use realynk.Notifications.Preferences.{is_enabled}
use realynk.Notifications.{Events, add_notification}
use realynk.Notifications.Delivery.{
  Item, row_of, is_due, create_items, deliver_all, create_many_notifications, is_mentioned,
  item_for, items_for, create_some, notify_message,
}
use realynk.Notifications.Delivery.Recipients.{
  takes_part, has_account, IsRecipient, active_users-IsRecipient,
}

-- A notification of a message that its recipient is to get.
pub record IsFor (d : Db) (message : Message) (n : Notification) : Type 0 where
  pub not_sender : (n.recipient_id == message.sender_id) ≡ false
  pub member : takes_part message message.channel_id n.recipient_id d ≡ true
  pub account : has_account n.recipient_id d ≡ true
  pub wanted : is_enabled n.recipient_id n.type d ≡ true
  pub entity : n.entity_id ≡ some message.id
  pub actor : n.actor_id ≡ some message.sender_id

-- the state with the rows, the last one made first
abbrev pub with_rows : List Notification → Db → Db
with_rows [] d = d
with_rows (n ∷ ns) d = with_rows ns (add_notification n d)

-- an item of the message for one who is to be told
abbrev IsItem : Db → Message → Item → Type 0
IsItem d message item =
    IsRecipient d message item.recipient.id
    × (item.entity_id ≡ some message.id)
    × (item.actor_id ≡ some message.sender_id)

item_for-IsItem :
    (show : ℕ → Text) (message : Message) (d : Db) (b : Bool) (u : User)
    → IsRecipient d message u.id
    → IsItem d message (item_for show message b u)
item_for-IsItem show message d true u h = (h, refl, refl)
item_for-IsItem show message d false u h = (h, refl, refl)

items-IsItem :
    (show : ℕ → Text) (message : Message) (d : Db) (us : List User)
    → All (λ u. IsRecipient d message u.id) us
    → All (IsItem d message) (map (λ u. item_for show message (is_mentioned message d u) u) us)
items-IsItem show message d [] h = tt
items-IsItem show message d (u ∷ us) h = (
  item_for-IsItem show message d (is_mentioned message d u) u h.0,
  items-IsItem show message d us h.1,
)

module _ (uuid : ℕ → ℕ) (now : ℕ) where
  create_items-with_rows :
      (i : ℕ) (items : List Item) (d : Db)
      → (create_items uuid now i items d).1 ≡ with_rows (create_items uuid now i items d).0 d
  unfolding create_items
  create_items-with_rows i [] d = refl
  create_items-with_rows i (item ∷ items) d =
      elim (is_due item d)
        as (λ b.
          (create_items uuid now (suc i) items
            (if b then add_notification (row_of (uuid i) now item) d else d)).1
          ≡ with_rows
              (if b
                then row_of (uuid i) now item
                  ∷ (create_items uuid now (suc i) items
                      (if b then add_notification (row_of (uuid i) now item) d else d)).0
                else (create_items uuid now (suc i) items
                    (if b then add_notification (row_of (uuid i) now item) d else d)).0)
              d) [
                | true ↦
                    create_items-with_rows (suc i) items
                      (add_notification (row_of (uuid i) now item) d)
                | false ↦ create_items-with_rows (suc i) items d
              ]

  module _ (d : Db) (message : Message) where
    row_of-IsFor :
        (id : ℕ) (item : Item) (d' : Db)
        → ((x : ℕ) (t : NotificationType) → is_enabled x t d' ≡ is_enabled x t d)
        → IsItem d message item
        → is_due item d' ≡ true
        → IsFor d message (row_of id now item)
    row_of-IsFor id item d' same h due = record {
      not_sender = h.0.0;
      member = h.0.1;
      account = h.0.2;
      wanted = ground (arith, due, same item.recipient.id item.notification_type);
      entity = h.1;
      actor = h.2;
    }

    create_items-IsFor :
        (i : ℕ) (items : List Item) (d' : Db)
        → ((x : ℕ) (t : NotificationType) → is_enabled x t d' ≡ is_enabled x t d)
        → All (IsItem d message) items
        → All (IsFor d message) (create_items uuid now i items d').0
    unfolding create_items is_enabled
    create_items-IsFor i [] d' same h = tt
    create_items-IsFor i (item ∷ items) d' same h =
        (elim (is_due item d')
            as (λ b.
              is_due item d' ≡ b
              → All (IsFor d message) (
                  if b
                  then row_of (uuid i) now item
                    ∷ (create_items uuid now (suc i) items
                        (if b then add_notification (row_of (uuid i) now item) d' else d')).0
                  else (create_items uuid now (suc i) items
                      (if b then add_notification (row_of (uuid i) now item) d' else d')).0)) [
                        | true ↦ λ due. (
                          row_of-IsFor (uuid i) item d' same h.0 due,
                          create_items-IsFor (suc i) items
                              (add_notification (row_of (uuid i) now item) d') same h.1,
                        )
                        | false ↦ λ due. create_items-IsFor (suc i) items d' same h.1
                      ])
          refl

abbrev pub NotifyOutcome : Message → Db → Result (List Notification × Events) → Db → Type 0
NotifyOutcome message d (ok (made, events)) d' =
    (d' ≡ with_rows made d) × (events ≡ deliver_all made d') × All (IsFor d message) made
NotifyOutcome message d (err e) d' =
    (d' ≡ d) × (e ≡ notification_error notification_create_failed 500)

create_some-NotifyOutcome :
    (engine : Engine) (show : ℕ → Text) (uuid : ℕ → ℕ) (now : ℕ) (message : Message) (d : Db)
    (items : List Item)
    → RestoresOn engine d
    → All (IsItem d message) items
    → Ends (NotifyOutcome message d) (create_some show engine uuid now items) d
unfolding create_many_notifications
create_some-NotifyOutcome engine show uuid now message d [] restores h =
    Ends-pure _ d (refl, refl, tt)
create_some-NotifyOutcome engine show uuid now message d (item ∷ items) restores h =
    Ends-gets _ _ d (
      Ends-modify _ _ d (
        Ends-commit_or engine _ _ _
          (λ _. Ends-gets _ _ _ (
            Ends-pure _ _ (
              create_items-with_rows uuid now 0 (item ∷ items) d,
              refl,
              create_items-IsFor uuid now d message 0 (item ∷ items) d (λ x t. refl) h,
            )))
          (λ d' r. (restores _ d' r, refl))))

-- With an engine that restores the state before the call: a message adds only new rows for users
-- that it concerns, who are not its sender, are in its channel or take part in its conversation,
-- have an active account, and want the type of the row; each new row is announced to its recipient
-- with the unread count. A failure changes nothing and announces nothing.
pub notify_message-NotifyOutcome :
    (show : ℕ → Text) (engine : Engine) (uuid : ℕ → ℕ) (now : ℕ) (message : Message) (d : Db)
    → RestoresOn engine d
    → Ends (NotifyOutcome message d) (notify_message show engine uuid now message) d
unfolding notify_message
notify_message-NotifyOutcome show engine uuid now message d restores = Ends-gets _ _ d (
    create_some-NotifyOutcome engine show uuid now message d (items_for show message d) restores
      (items-IsItem show message d _ (active_users-IsRecipient message d)))
