-- ===== src/Permissions/ChannelRules.antt =====
-- app/permissions/channel_permissions.py
use realynk.Base.{ℕ, Bool, true, false, not, ◌||◌, Option, none, some, leb, is_some, if◌then◌else◌}
use realynk.Models.{Channel, ChannelMembership, ChannelRole, is_owner}

-- `ROLE_LEVELS`
abbrev pub role_level : ChannelRole → ℕ
role_level ChannelRole.member = 1
role_level ChannelRole.admin = 2
role_level ChannelRole.owner = 3

abbrev pub has_channel_role : Option ChannelMembership → ChannelRole → Bool
has_channel_role none required = false
has_channel_role (some m) required = leb (role_level required) (role_level m.role)

abbrev pub can_view_channel : Channel → Option ChannelMembership → Bool
can_view_channel channel membership = not channel.is_private || is_some membership

abbrev pub can_manage_channel : Option ChannelMembership → Bool
can_manage_channel membership = has_channel_role membership ChannelRole.admin

abbrev pub can_delete_channel : Option ChannelMembership → Bool
can_delete_channel membership = has_channel_role membership ChannelRole.owner

abbrev target_allows : Option ChannelMembership → Bool
target_allows none = true
target_allows (some m) = not (is_owner m.role)

abbrev pub can_manage_member : Option ChannelMembership → Option ChannelMembership → Bool
can_manage_member actor target =
    if not (has_channel_role actor ChannelRole.admin) then false else target_allows target
