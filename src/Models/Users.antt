-- ===== src/Models/Users.antt =====
-- app/models/user.py. UUIDs are only compared, so they are numbers; a time is a number.
use realynk.Base.{ℕ, Bool, true, false, Option, Text}

-- The values that the check constraint on `status` allows.
pub data UserStatus : Type 0 where
  active inactive : UserStatus

-- `user.status == "active"`
abbrev pub is_active_status : UserStatus → Bool
is_active_status active = true
is_active_status inactive = false

-- The values that the check constraint on `moderation_role` allows.
pub data ModerationRole : Type 0 where
  member moderator admin : ModerationRole

pub record User : Type 0 where
  pub id : ℕ
  pub username : Text
  pub email : Text
  pub password_hash : Text
  pub display_name : Option Text
  pub avatar_url : Option Text
  pub status : UserStatus
  pub is_active : Bool
  pub last_login_at : Option ℕ
  pub last_seen_at : Option ℕ
  pub moderation_role : ModerationRole
  pub suspended_at : Option ℕ
  pub suspension_expires_at : Option ℕ
  pub banned_at : Option ℕ
