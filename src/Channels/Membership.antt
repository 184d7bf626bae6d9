-- ===== src/Channels/Membership.antt =====
-- app/services/membership_service.py
use realynk.Base.{ℕ, not, ◌||◌, none, some, ◌==◌, is_some, update_where, delete_where}
use realynk.Models.{Db, User, Channel, ChannelMembership, ChannelRole, is_owner}
use realynk.Session.{
  Action, Engine, Exn, channel_error, user_not_found_error, channel_access_denied, already_member,
  owner_cannot_leave, membership_forbidden, membership_not_found, user_not_found, pure, gets, fetch,
  raise_if, modify, catch, commit, commit_or, ◌>>=◌, ◌>>◌,
}
use realynk.Permissions.ChannelRules.{can_manage_member, has_channel_role}
use realynk.Repositories.{get_user_row, get_membership}
use realynk.Channels.{add_membership}

-- `user_service.get_user`
abbrev pub get_user : ℕ → Action User
get_user user_id = fetch (get_user_row user_id) user_not_found_error

abbrev pub require_channel_membership : Channel → ℕ → Action ChannelMembership
require_channel_membership channel user_id =
    fetch (get_membership channel.id user_id) (channel_error channel_access_denied 403)

abbrev new_member : ℕ → ℕ → Channel → ℕ → ChannelMembership
new_member id now channel user_id = record {
  id = id;
  channel_id = channel.id;
  user_id = user_id;
  role = ChannelRole.member;
  joined_at = now;
}

unfoldable pub join_public : Engine → ℕ → ℕ → Channel → ℕ → Action ChannelMembership
join_public engine id now channel user_id = do
  raise_if channel.is_private (channel_error channel_access_denied 403)
  raise_if (is_some (← gets (get_membership channel.id user_id))) (channel_error already_member 409)
  modify (add_membership (new_member id now channel user_id))
  commit_or engine (channel_error already_member 409)
  pure (new_member id now channel user_id)

-- `db.session.delete(membership)`
abbrev pub delete_membership : ChannelMembership → Db → Db
delete_membership membership d = record d {
  memberships = delete_where (λ m. m.id == membership.id) d.memberships;
}

unfoldable pub leave : Engine → Channel → ℕ → Action (Unit {0})
leave engine channel user_id = do
  membership ← require_channel_membership channel user_id
  raise_if (is_owner membership.role) (channel_error owner_cannot_leave 409)
  modify (delete_membership membership)
  commit engine

-- `except UserNotFoundError`
abbrev user_missing : Exn → Exn
user_missing user_not_found_error = channel_error user_not_found 404
user_missing e = e

unfoldable pub add_member : Engine → ℕ → ℕ → Channel → ℕ → ℕ → Action ChannelMembership
add_member engine id now channel actor_id user_id = do
  actor ← require_channel_membership channel actor_id
  raise_if (not (can_manage_member (some actor) none)) (channel_error membership_forbidden 403)
  catch (get_user user_id) user_missing
  raise_if (is_some (← gets (get_membership channel.id user_id))) (channel_error already_member 409)
  modify (add_membership (new_member id now channel user_id))
  commit_or engine (channel_error already_member 409)
  pure (new_member id now channel user_id)

unfoldable pub remove_member : Engine → Channel → ℕ → ℕ → Action (Unit {0})
remove_member engine channel actor_id user_id = do
  actor ← require_channel_membership channel actor_id
  target ← fetch (get_membership channel.id user_id) (channel_error membership_not_found 404)
  raise_if (not (can_manage_member (some actor) (some target)))
      (channel_error membership_forbidden 403)
  modify (delete_membership target)
  commit engine

abbrev pub set_role : ChannelMembership → ChannelRole → Db → Db
set_role target role d = record d {
  memberships = update_where (λ m. m.id == target.id) (λ m. record m { role = role }) d.memberships;
}

unfoldable pub change_role : Engine → Channel → ℕ → ℕ → ChannelRole → Action ChannelMembership
change_role engine channel actor_id user_id role = do
  actor ← require_channel_membership channel actor_id
  target ← fetch (get_membership channel.id user_id) (channel_error membership_not_found 404)
  raise_if (not (has_channel_role (some actor) ChannelRole.owner) || is_owner target.role)
      (channel_error membership_forbidden 403)
  modify (set_role target role)
  commit engine
  pure (record target { role = role })
