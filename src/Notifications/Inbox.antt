-- ===== src/Notifications/Inbox.antt =====
-- Reading all notifications of an inbox.
use realynk.Base.{ℕ, ◌≡◌, refl, ap, not, List, [], ◌∷◌, arith, ◌==◌, count, filter, update_where}
use realynk.Models.{Db, User, Notification}
use realynk.Session.{Engine, Result, ok, err, RestoresOn}
use realynk.Session.Ends.{Ends, Ends-pure, Ends-modify, Ends-commit_or, Ends-gets}
use realynk.Notifications.{Events, is_unread, count_unread, read, read_all_events, mark_all_as_read}

none_left :
    (user_id at : ℕ) (ns : List Notification)
    → count (is_unread user_id) (update_where (is_unread user_id) (read at) ns) ≡ 0
none_left user_id at [] = refl
none_left user_id at (n ∷ ns) = ground (arith, none_left user_id at ns)

-- the notifications of the other users
abbrev pub of_others : ℕ → Db → List Notification
of_others user_id d = filter (λ n. not (n.recipient_id == user_id)) d.notifications

others_left :
    (user_id at : ℕ) (ns : List Notification)
    → filter (λ n. not (n.recipient_id == user_id)) (update_where (is_unread user_id) (read at) ns)
      ≡ filter (λ n. not (n.recipient_id == user_id)) ns
others_left user_id at [] = refl
others_left user_id at (n ∷ ns) = ground (arith, others_left user_id at ns)

-- All of the user's notifications are read; those of the other users and the other tables are as
-- they were; the number and the events are right.
pub record AllRead (at : ℕ) (user_id : ℕ) (d : Db) (changed : ℕ) (events : Events) (d' : Db)
    : Type 0 where
  pub counted : changed ≡ count_unread user_id d
  pub none_unread : count_unread user_id d' ≡ 0
  pub others : of_others user_id d' ≡ of_others user_id d
  pub only : d' ≡ record d { notifications = d'.notifications }
  pub told : events ≡ read_all_events user_id at (count_unread user_id d) 0

abbrev pub ReadAllOutcome : ℕ → ℕ → Db → Result (ℕ × Events) → Db → Type 0
ReadAllOutcome at user_id d (ok (changed, events)) d' = AllRead at user_id d changed events d'
ReadAllOutcome at user_id d (err e) d' = d' ≡ d

-- With an engine that restores the state before the call: a call that returns gives the number of
-- notifications that were unread, leaves none of the user's unread, the notifications of the other
-- users and every other table as they were, and tells the user's sockets the count 0 exactly if one was unread; a call that raises
-- has changed nothing.
pub mark_all_as_read-ReadAllOutcome :
    (engine : Engine) (at : ℕ) (user : User) (d : Db)
    → RestoresOn engine d
    → Ends (ReadAllOutcome at user.id d) (mark_all_as_read engine at user) d
unfolding mark_all_as_read
mark_all_as_read-ReadAllOutcome engine at user d restores = Ends-gets _ _ d (
    Ends-modify _ _ d (
      Ends-commit_or engine _ _ _
        (λ _. Ends-gets _ _ _ (
          Ends-pure _ _ (record {
            counted = refl;
            none_unread = none_left user.id at d.notifications;
            others = others_left user.id at d.notifications;
            only = refl;
            told =
                ap (read_all_events user.id at (count_unread user.id d))
                  (none_left user.id at d.notifications);
          })))
        (λ d' r. restores _ d' r)))
