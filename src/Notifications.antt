-- ===== src/Notifications.antt =====
-- app/services/notification_service.py with app/repositories/notification_repository.py; the bulk
-- creation, `notify_message` and `notify_reaction` are in Notifications/Delivery. A call returns what
-- it emits beside its result, in the order of the emissions: each event with its user. A row's
-- `entity_type` and `metadata` are left out: only the serialization reads them.
pub mod Preferences
pub mod Inbox
pub mod Creation
pub mod Delivery
pub mod Paging
use realynk.Base.{
  ℕ, Bool, true, false, not, ◌&&◌, ◌||◌, Option, none, some, List, [], ◌∷◌, Text, ◌==◌, is_some,
  find, count, update_where, delete_where, is_empty, text_eq, ltb, if◌then◌else◌,
}
use realynk.Models.{
  Db, User, Notification, NotificationType, NotificationPreference, is_active_status,
}
use realynk.Session.{
  Action, Engine, notification_error, notification_not_found, notification_create_failed, pure,
  gets, fetch, raise_if, modify, commit, try_commit, ◌>>=◌, ◌>>◌,
}
use realynk.Notifications.Preferences.{is_enabled}

pub data Event : Type 0 where
  notification_created : Notification → Event
  notification_read notification_deleted : ℕ → Event
  notifications_read_all : ℕ → Event
  notification_count_updated : ℕ → Event

abbrev pub Events : Type 0
Events = List (ℕ × Event)

-- `Notification.deduplication_key == deduplication_key`
abbrev has_key : Text → Option Text → Bool
has_key key none = false
has_key key (some k) = text_eq k key

abbrev is_duplicate : ℕ → Text → Notification → Bool
is_duplicate recipient_id key n =
    (n.recipient_id == recipient_id)
    && has_key key n.deduplication_key
    && not (is_some n.deleted_at)

unfoldable pub find_duplicate : ℕ → Option Text → Db → Option Notification
find_duplicate recipient_id none d = none
find_duplicate recipient_id (some key) d =
    if is_empty key then none else find (is_duplicate recipient_id key) d.notifications

abbrev pub is_unread : ℕ → Notification → Bool
is_unread recipient_id n =
    (n.recipient_id == recipient_id) && not (is_some n.deleted_at) && not n.is_read

-- `count_unread`, and `get_unread_count` of the service
abbrev pub count_unread : ℕ → Db → ℕ
count_unread recipient_id d = count (is_unread recipient_id) d.notifications

abbrev pub add_notification : Notification → Db → Db
add_notification n d = record d { notifications = n ∷ d.notifications }

-- `_deliver_created`
abbrev pub delivered : Notification → Db → Events
delivered n d =
    (n.recipient_id, notification_created n)
    ∷ (n.recipient_id, notification_count_updated (count_unread n.recipient_id d))
    ∷ []

-- after the commit, or after its rollback
unfoldable pub created : Notification → Bool → Action (Option Notification × Events)
created n true = do events ← gets (delivered n); pure (some n, events)
created n false = do
  existing ←
      fetch (find_duplicate n.recipient_id n.deduplication_key)
        (notification_error notification_create_failed 500)
  pure (some existing, [])

abbrev pub create_new :
    Engine → Notification → Option Notification → Action (Option Notification × Events)
create_new engine n (some existing) = pure (some existing, [])
create_new engine n none = do
  modify (add_notification n)
  committed ← try_commit engine
  created n committed

-- `recipient is None or not recipient.is_active or recipient.status != "active"`
abbrev pub is_reachable : Option User → Bool
is_reachable none = false
is_reachable (some u) = u.is_active && is_active_status u.status

abbrev pub create_enabled : Engine → Notification → Bool → Action (Option Notification × Events)
create_enabled engine n false = pure (none, [])
create_enabled engine n true = do
  existing ← gets (find_duplicate n.recipient_id n.deduplication_key)
  create_new engine n existing

abbrev pub new_notification :
    ℕ → ℕ → User → NotificationType → Text → Text → Option ℕ → Option ℕ → Option Text → Notification
new_notification id now recipient type title body entity_id actor_id deduplication_key = record {
  id = id;
  recipient_id = recipient.id;
  actor_id = actor_id;
  type = type;
  title = title;
  body = body;
  entity_id = entity_id;
  deduplication_key = deduplication_key;
  is_read = false;
  read_at = none;
  deleted_at = none;
  created_at = now;
}

-- `create_notification`, for a recipient that is there
unfoldable pub create_notification :
    Engine
    → ℕ
    → ℕ
    → User
    → NotificationType
    → Text
    → Text
    → Option ℕ
    → Option ℕ
    → Option Text
    → Action (Option Notification × Events)
create_notification engine id now recipient type title body entity_id actor_id key =
    if is_reachable (some recipient)
    then (gets (is_enabled recipient.id type)
        >>= create_enabled engine
            (new_notification id now recipient type title body entity_id actor_id key))
    else pure (none, [])

-- `can_view_notification`, and the two rules that are the same
abbrev pub can_view_notification : User → Notification → Bool
can_view_notification user n = n.recipient_id == user.id

abbrev pub get_notification_row : ℕ → Db → Option Notification
get_notification_row notification_id d = find (λ n. n.id == notification_id) d.notifications

unfoldable pub get_notification : User → ℕ → Action Notification
get_notification user notification_id = do
  n ← fetch (get_notification_row notification_id) (notification_error notification_not_found 404)
  raise_if (not (can_view_notification user n)) (notification_error notification_not_found 404)
  pure n

abbrev pub read : ℕ → Notification → Notification
read at n = record n { is_read = true; read_at = some at }

abbrev pub set_notification : ℕ → (Notification → Notification) → Db → Db
set_notification id f d = record d {
  notifications = update_where (λ n. n.id == id) f d.notifications;
}

-- the part of `mark_as_read` for a notification that is not read
unfoldable pub mark : Engine → ℕ → User → Notification → Action (Notification × Bool × Events)
mark engine at user n = do
  modify (set_notification n.id (read at))
  commit engine
  left ← gets (count_unread user.id)
  pure (
    read at n,
    true,
    (user.id, notification_read n.id) ∷ (user.id, notification_count_updated left) ∷ [],
  )

abbrev mark_if : Engine → ℕ → User → Notification → Bool → Action (Notification × Bool × Events)
mark_if engine at user n true = pure (n, false, [])
mark_if engine at user n false = mark engine at user n

unfoldable pub mark_as_read : Engine → ℕ → User → ℕ → Action (Notification × Bool × Events)
mark_as_read engine at user notification_id = do
  n ← get_notification user notification_id
  mark_if engine at user n n.is_read

abbrev pub deleted : ℕ → Notification → Notification
deleted at n = record n { deleted_at = some at }

-- the part of `delete_notification` for a notification that is not deleted
unfoldable pub delete_live : Engine → ℕ → User → Notification → Action (Notification × Events)
delete_live engine at user n = do
  modify (set_notification n.id (deleted at))
  commit engine
  left ← gets (count_unread user.id)
  pure (
    deleted at n,
    (user.id, notification_deleted n.id) ∷ (user.id, notification_count_updated left) ∷ [],
  )

abbrev delete_if : Engine → ℕ → User → Notification → Bool → Action (Notification × Events)
delete_if engine at user n true = pure (n, [])
delete_if engine at user n false = delete_live engine at user n

-- The second test of the rule repeats the one of `get_notification`.
unfoldable pub delete_notification : Engine → ℕ → User → ℕ → Action (Notification × Events)
delete_notification engine at user notification_id = do
  n ← get_notification user notification_id
  raise_if (not (can_view_notification user n)) (notification_error notification_not_found 404)
  delete_if engine at user n (is_some n.deleted_at)

abbrev pub read_all : ℕ → ℕ → Db → Db
read_all recipient_id at d = record d {
  notifications = update_where (is_unread recipient_id) (read at) d.notifications;
}

-- `if changed: …`
abbrev pub read_all_events : ℕ → ℕ → ℕ → ℕ → Events
read_all_events user_id at changed left =
    if changed == 0
    then []
    else ((user_id, notifications_read_all at) ∷ (user_id, notification_count_updated left) ∷ [])

unfoldable pub mark_all_as_read : Engine → ℕ → User → Action (ℕ × Events)
mark_all_as_read engine at user = do
  changed ← gets (count_unread user.id)
  modify (read_all user.id at)
  commit engine
  left ← gets (count_unread user.id)
  pure (changed, read_all_events user.id at changed left)

unfoldable pub cleanup_old_notifications : Engine → ℕ → Action ℕ
cleanup_old_notifications engine before = do
  removed ← gets (λ d. count (λ n. ltb n.created_at before) d.notifications)
  modify (λ d. record d {
    notifications = delete_where (λ n. ltb n.created_at before) d.notifications;
  })
  commit engine
  pure removed
