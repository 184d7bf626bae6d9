-- ===== src/Permissions/MessageRules.antt =====
-- app/permissions/message_permissions.py and app/permissions/reaction_permissions.py
use realynk.Base.{
  ℕ, Bool, true, false, not, ◌&&◌, List, Option, none, some, ◌==◌, is_some, if◌then◌else◌,
}
use realynk.Models.{
  User, Channel, ChannelMembership, ChannelRole, ConversationParticipant, Message, MessageReaction,
  ModerationRole, is_active_status,
}
use realynk.Session.{Result, ok}
use realynk.Permissions.ChannelRules.{has_channel_role}
use realynk.Permissions.ConversationRules.{can_access_conversation}
use realynk.Permissions.ModerationRules.{Subject, of_user, is_restricted, has_moderation_role}

-- `_is_active_user`
abbrev pub is_active_user : Subject → Bool
is_active_user s = s.is_active && is_active_status s.status

-- `membership and membership.user_id == user.id`
abbrev is_own : ℕ → Option ChannelMembership → Bool
is_own user_id none = false
is_own user_id (some m) = m.user_id == user_id

-- The tests before the one on `locked_at`, in their order, are pure; the last may raise.
abbrev pub can_send_channel_message : ℕ → Subject → Channel → Option ChannelMembership → Result Bool
can_send_channel_message now user channel membership =
    if is_active_user user
      && not (is_restricted now user)
      && is_own user.id membership
      && has_channel_role membership ChannelRole.member
    then (if is_some channel.locked_at
        then has_moderation_role now user ModerationRole.moderator
        else ok true)
    else ok false

abbrev pub can_send_conversation_message :
    ℕ → Subject → List ConversationParticipant → Option ConversationParticipant → Bool
can_send_conversation_message now user participants participant =
    is_active_user user
    && not (is_restricted now user)
    && can_access_conversation user.id participants participant

abbrev pub can_edit_message : ℕ → User → Message → Bool
can_edit_message now user message =
    is_active_user (of_user user)
    && not (is_restricted now (of_user user))
    && (message.sender_id == user.id)
    && not (is_some message.deleted_at)

abbrev pub can_delete_message : User → Message → Bool
can_delete_message user message =
    is_active_user (of_user user)
    && (message.sender_id == user.id)
    && not (is_some message.deleted_at)

-- `_context` returns a channel with a membership or a conversation with a participant;
-- `hasattr(context, "is_private")` tells them apart.
pub data Context : Type 0 where
  in_channel : Channel → Option ChannelMembership → Context
  in_conversation : List ConversationParticipant → Option ConversationParticipant → Context

abbrev pub can_view_reactions : ℕ → User → Context → Result Bool
can_view_reactions now user (in_channel channel membership) =
    can_send_channel_message now (of_user user) channel membership
can_view_reactions now user (in_conversation participants participant) =
    ok (can_send_conversation_message now (of_user user) participants participant)

abbrev pub can_react_to_message : ℕ → User → Message → Context → Result Bool
can_react_to_message now user message context =
    if is_some message.deleted_at then ok false else can_view_reactions now user context

abbrev pub can_remove_reaction : User → MessageReaction → Bool
can_remove_reaction user reaction = reaction.user_id == user.id
