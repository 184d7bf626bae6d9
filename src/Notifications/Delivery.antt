-- ===== src/Notifications/Delivery.antt =====
-- app/services/notification_service.py: `create_many_notifications`, `notify_message` and
-- `notify_reaction`. `show` is `str` on a UUID; `uuid` gives the `uuid4` of the new rows, one for
-- each position of the list. A new row is tested at the commit; the source's queries for the items
-- behind it flush it before, outside the `try`, so that a row that the database refuses there raises
-- the IntegrityError itself.
pub mod Recipients
pub mod Batch
use realynk.Base.{
  ℕ, zero, suc, ◌+◌, Bool, true, false, not, ◌&&◌, ◌||◌, Option, none, some, List, [], ◌∷◌, ◌++◌,
  Text, codes, ◌==◌, leb, any, filter, map, is_some, is_empty, length, contains, text_eq, find,
  is_id, if◌then◌else◌,
}
use realynk.Models.{Db, User, Message, Notification, NotificationType, is_active_status}
use realynk.Session.{
  Action, Engine, notification_error, notification_create_failed, pure, gets, modify, commit_or,
  ◌>>=◌, ◌>>◌,
}
use realynk.Notifications.Preferences.{is_enabled}
use realynk.Notifications.{
  Events, find_duplicate, add_notification, delivered, is_reachable, new_notification,
  create_notification,
}

-- One of the dicts that `create_many_notifications` takes; the keys that only the serialization
-- reads are left out, as in the row.
pub record Item : Type 0 where
  pub recipient : User
  pub notification_type : NotificationType
  pub title : Text
  pub body : Text
  pub entity_id : Option ℕ
  pub actor_id : Option ℕ
  pub deduplication_key : Option Text

abbrev pub row_of : ℕ → ℕ → Item → Notification
row_of id now item =
    new_notification id now item.recipient item.notification_type item.title item.body
      item.entity_id item.actor_id item.deduplication_key

-- whether the loop makes a row of the item
abbrev pub is_due : Item → Db → Bool
is_due item d =
    is_reachable (some item.recipient)
    && is_enabled item.recipient.id item.notification_type d
    && not (is_some (find_duplicate item.recipient.id item.deduplication_key d))

module _ (uuid : ℕ → ℕ) (now : ℕ) where
  -- The loop: the rows that are made, in order, and the state with them. A later item sees the rows
  -- of the earlier ones.
  pub create_items : ℕ → List Item → Db → List Notification × Db
  create_items i [] d = ([], d)
  create_items i (item ∷ items) d =
      let n = row_of (uuid i) now item in
      let due = is_due item d in
      let (made, d') = create_items (suc i) items (if due then add_notification n d else d) in
      (if due then n ∷ made else made, d')

-- the events of each new row, in order
abbrev pub deliver_all : List Notification → Db → Events
deliver_all [] d = []
deliver_all (n ∷ ns) d = delivered n d ++ deliver_all ns d

unfoldable pub create_many_notifications :
    Engine → (ℕ → ℕ) → ℕ → List Item → Action (List Notification × Events)
unfolding create_items
create_many_notifications engine uuid now items = do
  made ← gets (λ d. (create_items uuid now 0 items d).0)
  modify (λ d. (create_items uuid now 0 items d).1)
  commit_or engine (notification_error notification_create_failed 500)
  events ← gets (deliver_all made)
  pure (made, events)

-- the class `[A-Za-z0-9_]`
abbrev pub is_name_char : ℕ → Bool
is_name_char c = leb 65 c && leb c 90 || leb 97 c && leb c 122 || leb 48 c && leb c 57 || c == 95

-- the characters of the class at the start of a text, at most `n` of them
abbrev pub name_prefix : ℕ → Text → Text
name_prefix zero s = []
name_prefix (suc n) [] = []
name_prefix (suc n) (c ∷ s) = let rest = name_prefix n s in if is_name_char c then c ∷ rest else []

-- `str.lower` on the characters of the class
abbrev pub lower_name : Text → Text
lower_name name = map (λ c. if leb 65 c && leb c 90 then c + 32 else c) name

-- `MENTION_PATTERN.finditer`, the names in lower case. The search goes on behind the `@` of a
-- match, and not behind its name: no match starts in a name.
abbrev pub mentioned_names : Text → List Text
mentioned_names [] = []
mentioned_names (c ∷ s) =
    let rest = mentioned_names s in
    let name = name_prefix 30 s in
    if (c == 64) && leb 3 (length name) then lower_name name ∷ rest else rest

-- `presence_repository.get_users` and `user_repository.get_by_usernames`
abbrev pub get_users : List ℕ → Db → List User
get_users ids d = filter (λ u. contains u.id ids) d.users

abbrev pub get_by_usernames : List Text → Db → List User
get_by_usernames names d = filter (λ u. any (λ name. text_eq u.username name) names) d.users

-- `_active_users`
abbrev pub active_users : List ℕ → Db → List User
active_users ids d = filter (λ u. is_reachable (some u)) (get_users ids d)

-- the ids of the other members of the channel, or of those who take part in the conversation
abbrev pub recipient_ids : Message → Option ℕ → Db → List ℕ
recipient_ids message (some c) d =
    map (λ m. m.user_id)
      (filter (λ m. (m.channel_id == c) && not (m.user_id == message.sender_id)) d.memberships)
recipient_ids message none d =
    map (λ p. p.user_id)
      (filter
        (λ p.
          is_id message.conversation_id p.conversation_id
          && not (p.user_id == message.sender_id)
          && not (is_some p.left_at))
        d.participants)

abbrev pub type_value : NotificationType → Text
type_value NotificationType.new_message = codes "new_message"
type_value NotificationType.mention = codes "mention"
type_value NotificationType.direct_message = codes "direct_message"
type_value NotificationType.reaction = codes "reaction"
type_value NotificationType.channel_invitation = codes "channel_invitation"
type_value NotificationType.system = codes "system"

-- the type and the body of what members get who are not mentioned
abbrev pub plain_type : Option ℕ → NotificationType
plain_type (some c) = NotificationType.new_message
plain_type none = NotificationType.direct_message

abbrev pub plain_body : Option ℕ → Text
plain_body (some c) = codes "New activity in a channel"
plain_body none = codes "You received a new direct message"

-- `user_id in mentioned_ids`, for a recipient
abbrev pub is_mentioned : Message → Db → User → Bool
is_mentioned message d u =
    any (λ v. v.id == u.id) (get_by_usernames (mentioned_names message.content) d)

module _ (show : ℕ → Text) where
  -- f"{prefix}:{message.id}:{recipient.id}"
  abbrev pub key_of : Text → Message → User → Text
  key_of prefix message u = prefix ++ codes ":" ++ show message.id ++ codes ":" ++ show u.id

  -- `_message_item`
  abbrev pub message_item : User → Message → NotificationType → Text → Text → Text → Item
  message_item u message type title body key = record {
    recipient = u;
    notification_type = type;
    title = title;
    body = body;
    entity_id = some message.id;
    actor_id = some message.sender_id;
    deduplication_key = some key;
  }

  abbrev pub item_for : Message → Bool → User → Item
  item_for message true u =
      message_item u message NotificationType.mention (codes "You were mentioned")
        (codes "You were mentioned in a conversation") (key_of (codes "mention") message u)
  item_for message false u =
      message_item u message (plain_type message.channel_id) (codes "New message")
        (plain_body message.channel_id)
        (key_of (type_value (plain_type message.channel_id)) message u)

  abbrev pub items_for : Message → Db → List Item
  items_for message d =
      map (λ u. item_for message (is_mentioned message d u) u)
        (active_users (recipient_ids message message.channel_id d) d)

  abbrev pub create_some : Engine → (ℕ → ℕ) → ℕ → List Item → Action (List Notification × Events)
  create_some engine uuid now [] = pure ([], [])
  create_some engine uuid now (item ∷ items) =
      create_many_notifications engine uuid now (item ∷ items)

  -- with the rows that are made
  unfoldable pub notify_message :
      Engine → (ℕ → ℕ) → ℕ → Message → Action (List Notification × Events)
  notify_message engine uuid now message = do
    items ← gets (items_for message)
    create_some engine uuid now items

  -- f"reaction:{message.id}:{actor.id}:{emoji}:{event_id or message.id}", for the id of a reaction
  abbrev pub reaction_key : Message → User → Text → ℕ → Text
  reaction_key message actor emoji event_id =
      codes "reaction:"
      ++ show message.id
      ++ codes ":"
      ++ show actor.id
      ++ codes ":"
      ++ emoji
      ++ codes ":"
      ++ show event_id

  abbrev pub first_of : List User → Option User
  first_of us = find (λ u. true) us

  abbrev pub react_to :
      Engine
      → ℕ
      → ℕ
      → Message
      → User
      → Text
      → ℕ
      → Option User
      → Action (Option Notification × Events)
  react_to engine id now message actor emoji event_id none = pure (none, [])
  react_to engine id now message actor emoji event_id (some recipient) =
      create_notification engine id now recipient NotificationType.reaction
        (codes "Someone reacted to your message") (codes "Someone reacted to your message")
        (some message.id) (some actor.id) (some (reaction_key message actor emoji event_id))

  unfoldable pub notify_reaction :
      Engine → ℕ → ℕ → Message → User → Text → ℕ → Action (Option Notification × Events)
  notify_reaction engine id now message actor emoji event_id =
      if message.sender_id == actor.id
      then pure (none, [])
      else (gets (λ d. first_of (active_users (message.sender_id ∷ []) d))
          >>= react_to engine id now message actor emoji event_id)
