-- ===== src/Models/Notices.antt =====
-- app/models/notification.py, notification_preference.py, moderation_action.py, with
-- app/notifications/types.py and app/moderation/constants.py.
use realynk.Base.{ℕ, Bool, true, false, Option, Text}

pub data NotificationType : Type 0 where
  new_message mention direct_message reaction channel_invitation system : NotificationType

-- `==` on notification types
abbrev pub type_eq : NotificationType → NotificationType → Bool
type_eq new_message new_message = true
type_eq mention mention = true
type_eq direct_message direct_message = true
type_eq reaction reaction = true
type_eq channel_invitation channel_invitation = true
type_eq system system = true
type_eq _ _ = false

pub record Notification : Type 0 where
  pub id : ℕ
  pub recipient_id : ℕ
  pub actor_id : Option ℕ
  pub type : NotificationType
  pub title : Text
  pub body : Text
  pub entity_id : Option ℕ
  pub deduplication_key : Option Text
  pub is_read : Bool
  pub read_at : Option ℕ
  pub deleted_at : Option ℕ
  pub created_at : ℕ

pub record NotificationPreference : Type 0 where
  pub id : ℕ
  pub user_id : ℕ
  pub notification_type : NotificationType
  pub enabled : Bool

-- `moderation.constants.ModerationAction`
pub data ActionKind : Type 0 where
  user_warn user_suspend user_ban user_unban user_unsuspend : ActionKind
  remove_from_channel message_delete channel_lock channel_unlock : ActionKind

-- `models.moderation_action.ModerationAction`: a row of the audit log.
pub record ModerationAction : Type 0 where
  pub id : ℕ
  pub moderator_id : ℕ
  pub target_user_id : Option ℕ
  pub target_channel_id : Option ℕ
  pub target_message_id : Option ℕ
  pub action : ActionKind
  pub reason : Option Text
  pub created_at : ℕ
  pub expires_at : Option ℕ
