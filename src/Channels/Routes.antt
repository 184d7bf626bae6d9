-- ===== src/Channels/Routes.antt =====
-- app/routes/channels.py, behind the authentication and the parsing of the request: `user_id` is
-- `g.current_user.id`, UUIDs are parsed, and a body is one that passed its schema.
use realynk.Base.{ℕ, Bool, true, false, Option, Text, is_some, not, ◌||◌}
use realynk.Models.{Db, Channel, ChannelMembership, ChannelRole}
use realynk.Session.{
  Action, Engine, request_error, channel_not_found, validation_error, fetch, raise_if, ◌>>=◌, ◌>>◌,
}
use realynk.Repositories.{get_channel}
use realynk.Channels.{
  ChannelUpdates, get_channel_for_user, create_channel, update_channel, delete_channel,
}
use realynk.Channels.Membership.{join_public, leave, add_member, remove_member, change_role}

-- `channel_repository.get_channel`, with the 404 response
abbrev require_channel : ℕ → Action Channel
require_channel channel_id = fetch (get_channel channel_id) (request_error channel_not_found 404)

-- `if not data`
abbrev is_no_update : ChannelUpdates → Bool
is_no_update u = not (is_some u.name || is_some u.description || is_some u.is_private)

unfoldable pub update_channel_route : Engine → ℕ → ℕ → ChannelUpdates → Action Channel
update_channel_route engine channel_id user_id updates = do
  (channel, membership) ← get_channel_for_user channel_id user_id
  raise_if (is_no_update updates) (request_error validation_error 422)
  update_channel engine channel membership updates

unfoldable pub delete_channel_route : Engine → ℕ → ℕ → Action (Unit {0})
delete_channel_route engine channel_id user_id = do
  (channel, membership) ← get_channel_for_user channel_id user_id
  delete_channel engine channel membership

unfoldable pub join_channel_route : Engine → ℕ → ℕ → ℕ → ℕ → Action ChannelMembership
join_channel_route engine id now channel_id user_id = do
  channel ← require_channel channel_id
  join_public engine id now channel user_id

unfoldable pub leave_channel_route : Engine → ℕ → ℕ → Action (Unit {0})
leave_channel_route engine channel_id user_id = do
  channel ← require_channel channel_id
  leave engine channel user_id

unfoldable pub add_member_route : Engine → ℕ → ℕ → ℕ → ℕ → ℕ → Action ChannelMembership
add_member_route engine id now channel_id actor_id user_id = do
  channel ← require_channel channel_id
  add_member engine id now channel actor_id user_id

-- `validate_role` of app/schemas/channel.py: the role is `admin` or `member`.
abbrev pub is_valid_role : ChannelRole → Bool
is_valid_role ChannelRole.member = true
is_valid_role ChannelRole.admin = true
is_valid_role ChannelRole.owner = false

unfoldable pub update_member_role_route :
    Engine → ℕ → ℕ → ℕ → ChannelRole → Action ChannelMembership
update_member_role_route engine channel_id actor_id target_id role = do
  raise_if (not (is_valid_role role)) (request_error validation_error 422)
  channel ← require_channel channel_id
  change_role engine channel actor_id target_id role

unfoldable pub remove_member_route : Engine → ℕ → ℕ → ℕ → Action (Unit {0})
remove_member_route engine channel_id actor_id target_id = do
  channel ← require_channel channel_id
  remove_member engine channel actor_id target_id

-- A request to one of the routes that write.
pub data ChannelRequest : Type 0 where
  create : ℕ → ℕ → ℕ → ℕ → Text → Option Text → Bool → ChannelRequest
  update : ℕ → ℕ → ChannelUpdates → ChannelRequest
  delete : ℕ → ℕ → ChannelRequest
  join : ℕ → ℕ → ℕ → ℕ → ChannelRequest
  quit : ℕ → ℕ → ChannelRequest
  add : ℕ → ℕ → ℕ → ℕ → ℕ → ChannelRequest
  set_role : ℕ → ℕ → ℕ → ChannelRole → ChannelRequest
  remove : ℕ → ℕ → ℕ → ChannelRequest

-- The state after the request has been served.
unfoldable pub serve : Engine → ChannelRequest → Db → Db
serve engine (create id mid now user_id name description is_private) d =
    (create_channel engine id mid now user_id name description is_private d).1
serve engine (update channel_id user_id updates) d =
    (update_channel_route engine channel_id user_id updates d).1
serve engine (delete channel_id user_id) d = (delete_channel_route engine channel_id user_id d).1
serve engine (join id now channel_id user_id) d =
    (join_channel_route engine id now channel_id user_id d).1
serve engine (quit channel_id user_id) d = (leave_channel_route engine channel_id user_id d).1
serve engine (add id now channel_id actor_id user_id) d =
    (add_member_route engine id now channel_id actor_id user_id d).1
serve engine (set_role channel_id actor_id target_id role) d =
    (update_member_role_route engine channel_id actor_id target_id role d).1
serve engine (remove channel_id actor_id target_id) d =
    (remove_member_route engine channel_id actor_id target_id d).1
