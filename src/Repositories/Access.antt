-- ===== src/Repositories/Access.antt =====
-- app/repositories/user_repository.py, channel_repository.py, conversation_repository.py and the
-- look-ups of message_repository.py, reaction_repository.py, read_repository.py.
use realynk.Base.{ℕ, ◌&&◌, List, Option, Text, ◌==◌, find, filter, text_eq}
use realynk.Models.{
  Db, User, Channel, ChannelMembership, Conversation, ConversationParticipant, Message,
  MessageReaction, MessageRead,
}

-- `user_repository.get_by_id`
abbrev pub get_user_row : ℕ → Db → Option User
get_user_row user_id d = find (λ u. u.id == user_id) d.users

abbrev pub get_channel : ℕ → Db → Option Channel
get_channel channel_id d = find (λ c. c.id == channel_id) d.channels

abbrev pub get_membership : ℕ → ℕ → Db → Option ChannelMembership
get_membership channel_id user_id d =
    find (λ m. (m.channel_id == channel_id) && (m.user_id == user_id)) d.memberships

-- `conversation_repository.get_by_id`
abbrev pub get_conversation : ℕ → Db → Option Conversation
get_conversation conversation_id d = find (λ c. c.id == conversation_id) d.conversations

abbrev pub get_direct_by_pair : ℕ → ℕ → Db → Option Conversation
get_direct_by_pair a b d =
    find (λ c. (c.participant_a_id == a) && (c.participant_b_id == b)) d.conversations

abbrev pub get_participant : ℕ → ℕ → Db → Option ConversationParticipant
get_participant conversation_id user_id d =
    find (λ p. (p.conversation_id == conversation_id) && (p.user_id == user_id)) d.participants

abbrev pub list_participants : ℕ → Db → List ConversationParticipant
list_participants conversation_id d =
    filter (λ p. p.conversation_id == conversation_id) d.participants

-- `message_repository.get_by_id`
abbrev pub get_message : ℕ → Db → Option Message
get_message message_id d = find (λ m. m.id == message_id) d.messages

-- `reaction_repository.get`
abbrev pub get_reaction : ℕ → ℕ → Text → Db → Option MessageReaction
get_reaction message_id user_id emoji d =
    find (λ r. (r.message_id == message_id) && (r.user_id == user_id) && text_eq r.emoji emoji)
      d.reactions

-- `read_repository.get`
abbrev pub get_read : ℕ → ℕ → Db → Option MessageRead
get_read message_id user_id d =
    find (λ r. (r.message_id == message_id) && (r.user_id == user_id)) d.reads
