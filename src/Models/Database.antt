-- ===== src/Models/Database.antt =====
-- The tables together, as the session of a request sees them.
use realynk.Base.{List}
use realynk.Models.Users.{User}
use realynk.Models.Channels.{Channel, ChannelMembership}
use realynk.Models.Messages.{
  Conversation, ConversationParticipant, Message, MessageReaction, MessageRead, Attachment,
}
use realynk.Models.Notices.{Notification, NotificationPreference, ModerationAction}

pub record Db : Type 0 where
  pub users : List User
  pub channels : List Channel
  pub memberships : List ChannelMembership
  pub conversations : List Conversation
  pub participants : List ConversationParticipant
  pub messages : List Message
  pub reactions : List MessageReaction
  pub reads : List MessageRead
  pub attachments : List Attachment
  pub notifications : List Notification
  pub preferences : List NotificationPreference
  pub actions : List ModerationAction
