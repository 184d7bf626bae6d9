-- ===== src/Models/Channels.antt =====
-- app/models/channel.py and app/models/channel_membership.py.
use realynk.Base.{ℕ, Bool, true, false, Option, Text}

-- The values that the check constraint on `role` allows.
pub data ChannelRole : Type 0 where
  member admin owner : ChannelRole

-- `role == "owner"`
abbrev pub is_owner : ChannelRole → Bool
is_owner member = false
is_owner admin = false
is_owner owner = true

pub record Channel : Type 0 where
  pub id : ℕ
  pub name : Text
  pub description : Option Text
  pub is_private : Bool
  pub owner_id : ℕ
  pub updated_at : ℕ
  pub locked_at : Option ℕ
  pub locked_by : Option ℕ

pub record ChannelMembership : Type 0 where
  pub id : ℕ
  pub channel_id : ℕ
  pub user_id : ℕ
  pub role : ChannelRole
  pub joined_at : ℕ
