-- ===== src/Constraints.antt =====
-- The constraints that app/models declares: primary keys, unique constraints, foreign keys and
-- checks, where the rows of the model have the columns. The checks that a column has one of several
-- words hold by the types of the fields; the lengths of the text columns other than a message's
-- content are left out. `Enforces` states what the database documents: a commit that breaks one is rejected.
pub mod Checked
use realynk.Base.{
  ℕ, ◌≤◌, ◌≡◌, ◌≢◌, Bool, true, false, not, Option, none, some, ◌&&◌, ◌==◌, Text, length, any, All,
  Unique, is_some, text_eq,
}
use realynk.Models.{
  Db, ChannelMembership, Conversation, ConversationParticipant, Message, MessageReaction,
  MessageRead, Notification, NotificationPreference, ModerationAction, type_eq,
}
use realynk.Session.{Engine, accepted}

-- `uq_channel_membership_channel_user`
abbrev pub same_member : ChannelMembership → ChannelMembership → Bool
same_member a b = (a.channel_id == b.channel_id) && (a.user_id == b.user_id)

-- `uq_conversations_participant_pair`
abbrev pub same_pair : Conversation → Conversation → Bool
same_pair a b =
    (a.participant_a_id == b.participant_a_id) && (a.participant_b_id == b.participant_b_id)

-- `uq_conversation_participant`
abbrev pub same_participant : ConversationParticipant → ConversationParticipant → Bool
same_participant a b = (a.conversation_id == b.conversation_id) && (a.user_id == b.user_id)

-- `uq_message_reaction_user_emoji`
abbrev pub same_reaction : MessageReaction → MessageReaction → Bool
same_reaction a b =
    (a.message_id == b.message_id) && (a.user_id == b.user_id) && text_eq a.emoji b.emoji

-- `uq_message_read_user`
abbrev pub same_read : MessageRead → MessageRead → Bool
same_read a b = (a.message_id == b.message_id) && (a.user_id == b.user_id)

-- `length(btrim(content)) > 0`: some character is not a blank.
abbrev pub is_not_blank : Text → Bool
is_not_blank content = any (λ c. not (c == 32)) content

-- `ck_messages_exactly_one_context`, `ck_messages_content_not_empty`, `ck_messages_content_length`
pub record MessageChecks (m : Message) : Type 0 where
  pub one_context : is_some m.channel_id ≡ not (is_some m.conversation_id)
  pub not_empty : is_not_blank m.content ≡ true
  pub bounded : length m.content ≤ 4000

-- `uq_notification_recipient_deduplication`, for which no two missing keys are the same
abbrev pub same_notice : Notification → Notification → Bool
same_notice a b =
    (a.recipient_id == b.recipient_id) && same_key a.deduplication_key b.deduplication_key
  where
    same_key : Option Text → Option Text → Bool
    same_key (some s) (some t) = text_eq s t
    same_key none o = false
    same_key o none = false

-- `uq_notification_preference_user_type`
abbrev pub same_preference : NotificationPreference → NotificationPreference → Bool
same_preference a b = (a.user_id == b.user_id) && type_eq a.notification_type b.notification_type

-- the rows that a foreign key may name; a missing value names none
abbrev pub has_user : Db → ℕ → Bool
has_user d id = any (λ u. u.id == id) d.users

abbrev pub has_channel : Db → ℕ → Bool
has_channel d id = any (λ c. c.id == id) d.channels

abbrev pub has_conversation : Db → ℕ → Bool
has_conversation d id = any (λ c. c.id == id) d.conversations

abbrev pub has_message : Db → ℕ → Bool
has_message d id = any (λ m. m.id == id) d.messages

abbrev pub optional : (ℕ → Bool) → Option ℕ → Bool
optional has none = true
optional has (some id) = has id

abbrev pub action_refers : Db → ModerationAction → Bool
action_refers d a =
    has_user d a.moderator_id
    && optional (has_user d) a.target_user_id
    && optional (has_channel d) a.target_channel_id
    && optional (has_message d) a.target_message_id

abbrev pub message_refers : Db → Message → Bool
message_refers d m =
    has_user d m.sender_id
    && optional (has_channel d) m.channel_id
    && optional (has_conversation d) m.conversation_id

-- the foreign keys other than those of `Constraints` itself
pub record References (d : Db) : Type 0 where
  pub owners :
      All (λ c. (has_user d c.owner_id && optional (has_user d) c.locked_by) ≡ true) d.channels
  pub member_users : All (λ m. has_user d m.user_id ≡ true) d.memberships
  pub participant_users : All (λ p. has_user d p.user_id ≡ true) d.participants
  pub pair_users :
      All
        (λ c. (has_user d c.participant_a_id && has_user d c.participant_b_id) ≡ true)
        d.conversations
  pub message_rows : All (λ m. message_refers d m ≡ true) d.messages
  pub reaction_rows :
      All (λ r. (has_message d r.message_id && has_user d r.user_id) ≡ true) d.reactions
  pub read_rows : All (λ r. (has_message d r.message_id && has_user d r.user_id) ≡ true) d.reads
  pub attachment_rows :
      All (λ a. (has_message d a.message_id && has_user d a.uploader_id) ≡ true) d.attachments
  pub notification_rows :
      All
        (λ n. (has_user d n.recipient_id && optional (has_user d) n.actor_id) ≡ true)
        d.notifications
  pub preference_users : All (λ p. has_user d p.user_id ≡ true) d.preferences
  pub action_rows : All (λ a. action_refers d a ≡ true) d.actions

-- the further keys and checks
pub record Keys (d : Db) : Type 0 where
  pub participant_ids : Unique (λ a b. a.id == b.id) d.participants
  pub read_ids : Unique (λ a b. a.id == b.id) d.reads
  pub attachment_ids : Unique (λ a b. a.id == b.id) d.attachments
  pub storage_paths : Unique (λ a b. text_eq a.storage_path b.storage_path) d.attachments
  pub file_sizes : All (λ a. 1 ≤ a.file_size) d.attachments
  pub notification_ids : Unique (λ a b. a.id == b.id) d.notifications
  pub notices : Unique same_notice d.notifications
  pub preference_ids : Unique (λ a b. a.id == b.id) d.preferences
  pub preferences : Unique same_preference d.preferences
  pub action_ids : Unique (λ a b. a.id == b.id) d.actions

pub record Constraints (d : Db) : Type 0 where
  pub user_ids : Unique (λ a b. a.id == b.id) d.users
  pub usernames : Unique (λ a b. text_eq a.username b.username) d.users
  pub emails : Unique (λ a b. text_eq a.email b.email) d.users
  pub channel_ids : Unique (λ a b. a.id == b.id) d.channels
  pub membership_ids : Unique (λ a b. a.id == b.id) d.memberships
  pub members : Unique same_member d.memberships
  pub membership_channels :
      All (λ m. any (λ c. c.id == m.channel_id) d.channels ≡ true) d.memberships
  pub message_ids : Unique (λ a b. a.id == b.id) d.messages
  pub message_checks : All MessageChecks d.messages
  pub conversation_ids : Unique (λ a b. a.id == b.id) d.conversations
  pub participants : Unique same_participant d.participants
  pub participant_conversations :
      All (λ p. any (λ c. c.id == p.conversation_id) d.conversations ≡ true) d.participants
  pub pairs : Unique same_pair d.conversations
  pub distinct : All (λ c. c.participant_a_id ≢ c.participant_b_id) d.conversations
  pub reaction_ids : Unique (λ a b. a.id == b.id) d.reactions
  pub reactions : Unique same_reaction d.reactions
  pub reads : Unique same_read d.reads
  pub references : References d
  pub keys : Keys d

abbrev pub Enforces : Engine → Type 0
Enforces engine = (d : Db) → engine d ≡ accepted → Constraints d
