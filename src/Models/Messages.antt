-- ===== src/Models/Messages.antt =====
-- app/models/conversation.py, conversation_participant.py, message.py, message_reaction.py,
-- message_read.py and attachment.py.
use realynk.Base.{ℕ, Bool, Option, Text}

pub record Conversation : Type 0 where
  pub id : ℕ
  pub participant_a_id : ℕ
  pub participant_b_id : ℕ
  pub updated_at : ℕ

pub record ConversationParticipant : Type 0 where
  pub id : ℕ
  pub conversation_id : ℕ
  pub user_id : ℕ
  pub joined_at : ℕ
  pub left_at : Option ℕ

pub record Message : Type 0 where
  pub id : ℕ
  pub sender_id : ℕ
  pub channel_id : Option ℕ
  pub conversation_id : Option ℕ
  pub content : Text
  pub created_at : ℕ
  pub updated_at : ℕ
  pub is_edited : Bool
  pub deleted_at : Option ℕ

pub record MessageReaction : Type 0 where
  pub id : ℕ
  pub message_id : ℕ
  pub user_id : ℕ
  pub emoji : Text

pub record MessageRead : Type 0 where
  pub id : ℕ
  pub message_id : ℕ
  pub user_id : ℕ
  pub read_at : ℕ

pub record Attachment : Type 0 where
  pub id : ℕ
  pub message_id : ℕ
  pub uploader_id : ℕ
  pub original_filename : Text
  pub storage_path : Text
  pub mime_type : Text
  pub file_size : ℕ
  pub extension : Text
  pub attachment_type : Text
  pub checksum : Option Text
  pub created_at : ℕ
  pub deleted_at : Option ℕ
