-- ===== src/Channels.antt =====
-- app/services/channel_service.py. An ORM object is passed as the row that was read; a write to it
-- is an update of the row with its primary key. A new row takes its `uuid4` as an argument.
pub mod Membership
pub mod Lookup
pub mod Ownership
pub mod Routes
use realynk.Base.{
  ℕ, Bool, true, false, not, ◌&&◌, ◌||◌, Option, none, some, List, ◌∷◌, Text, ◌==◌, is_some, is_id,
  is_empty, strip, if◌then◌else◌, update_where, delete_where,
}
use realynk.Models.{Db, Channel, ChannelMembership, ChannelRole, Message, is_owner}
use realynk.Session.{
  Action, Engine, channel_error, channel_not_found, channel_update_forbidden,
  channel_delete_forbidden, pure, gets, fetch, raise_if, modify, commit, ◌>>=◌, ◌>>◌,
}
use realynk.Permissions.ChannelRules.{can_view_channel, can_manage_channel, can_delete_channel}
use realynk.Repositories.{get_channel, get_membership}

unfoldable pub get_channel_for_user : ℕ → ℕ → Action (Channel × Option ChannelMembership)
get_channel_for_user channel_id user_id = do
  channel ← fetch (get_channel channel_id) (channel_error channel_not_found 404)
  membership ← gets (get_membership channel_id user_id)
  raise_if (not (can_view_channel channel membership)) (channel_error channel_not_found 404)
  pure (channel, membership)

-- `description.strip() if description else None`
unfoldable pub strip_optional : Option Text → Option Text
strip_optional none = none
strip_optional (some t) = if is_empty t then none else some (strip t)

abbrev pub add_channel : Channel → Db → Db
add_channel channel d = record d { channels = channel ∷ d.channels }

abbrev pub add_membership : ChannelMembership → Db → Db
add_membership membership d = record d { memberships = membership ∷ d.memberships }

abbrev pub new_channel : ℕ → ℕ → ℕ → Text → Option Text → Bool → Channel
new_channel id now user_id name description is_private = record {
  id = id;
  name = strip name;
  description = strip_optional description;
  is_private = is_private;
  owner_id = user_id;
  updated_at = now;
  locked_at = none;
  locked_by = none;
}

unfoldable pub create_channel : Engine → ℕ → ℕ → ℕ → ℕ → Text → Option Text → Bool → Action Channel
create_channel engine id membership_id now user_id name description is_private = do
  let channel = new_channel id now user_id name description is_private
  modify (add_channel channel)
  modify (
      add_membership (record {
        id = membership_id;
        channel_id = id;
        user_id = user_id;
        role = ChannelRole.owner;
        joined_at = now;
      }))
  commit engine
  pure channel

-- The fields of the request that are present. `description` may be present and null.
pub record ChannelUpdates : Type 0 where
  pub name : Option Text
  pub description : Option (Option Text)
  pub is_private : Option Bool

-- `value.strip() if isinstance(value, str) else value`
abbrev strip_value : Option Text → Option Text
strip_value none = none
strip_value (some t) = some (strip t)

abbrev set_name : Option Text → Channel → Channel
set_name none c = c
set_name (some name) c = record c { name = strip name }

abbrev set_description : Option (Option Text) → Channel → Channel
set_description none c = c
set_description (some description) c = record c { description = strip_value description }

abbrev set_privacy : Option Bool → Channel → Channel
set_privacy none c = c
set_privacy (some is_private) c = record c { is_private = is_private }

abbrev pub apply_updates : ChannelUpdates → Channel → Channel
apply_updates u c = set_privacy u.is_private (set_description u.description (set_name u.name c))

-- `membership.role != "owner"`; a membership that is `None` has failed `can_manage_channel`.
abbrev is_not_owner : Option ChannelMembership → Bool
is_not_owner none = true
is_not_owner (some m) = not (is_owner m.role)

unfoldable pub update_channel :
    Engine → Channel → Option ChannelMembership → ChannelUpdates → Action Channel
update_channel engine channel membership updates = do
  raise_if (not (can_manage_channel membership)) (channel_error channel_update_forbidden 403)
  raise_if (is_some updates.is_private && is_not_owner membership)
      (channel_error channel_update_forbidden 403)
  modify (λ d. record d {
    channels = update_where (λ c. c.id == channel.id) (apply_updates updates) d.channels;
  })
  commit engine
  pure (apply_updates updates channel)

-- What the models declare for the deletion of a channel: its memberships go by cascade; messages
-- have no cascade, so the ORM sets their foreign key to null.
abbrev pub remove_channel : Channel → Db → Db
remove_channel channel d = record d {
  channels = delete_where (λ c. c.id == channel.id) d.channels;
  memberships = delete_where (λ m. m.channel_id == channel.id) d.memberships;
  messages =
      update_where (λ m. is_id m.channel_id channel.id) (λ m. record m { channel_id = none })
        d.messages;
}

unfoldable pub delete_channel : Engine → Channel → Option ChannelMembership → Action (Unit {0})
delete_channel engine channel membership = do
  raise_if (not (can_delete_channel membership)) (channel_error channel_delete_forbidden 403)
  modify (remove_channel channel)
  commit engine
