-- ===== src/Reactions.antt =====
-- app/services/reaction_service.py: access and the removal of a reaction.
pub mod Removal
pub mod Adding
use realynk.Base.{ℕ, Bool, true, false, not, Text, ◌==◌, delete_where, if◌then◌else◌}
use realynk.Models.{Db, User, Message, MessageReaction}
use realynk.Session.{
  Action, Engine, Exn, message_error, reaction_error, reaction_access_denied, reaction_not_found,
  pure, fetch, lift, raise_if, modify, catch, commit, ◌>>=◌, ◌>>◌,
}
use realynk.Permissions.MessageRules.{Context, can_view_reactions, can_remove_reaction}
use realynk.Repositories.{get_reaction}
use realynk.Messages.{get_message_for_user, find_context}

-- `except MessageError`
abbrev no_reaction : Exn → Exn
no_reaction (message_error code status) = reaction_error reaction_access_denied 403
no_reaction e = e

-- the body of the `try` of `_access`
unfoldable pub message_and_context : ℕ → ℕ → ℕ → Action (Message × Context)
message_and_context now user_id message_id = do
  message ← get_message_for_user now user_id message_id
  context ← find_context now user_id message.channel_id message.conversation_id
  pure (message, context)

-- `_access`
unfoldable pub access : ℕ → ℕ → ℕ → Action (Message × Context)
access now user_id message_id = catch (message_and_context now user_id message_id) no_reaction

abbrev pub delete_reaction : MessageReaction → Db → Db
delete_reaction r d = record d { reactions = delete_where (λ x. x.id == r.id) d.reactions }

unfoldable pub remove_reaction : Engine → ℕ → User → ℕ → Text → Action (MessageReaction × Message)
remove_reaction engine now user message_id emoji = do
  (message, context) ← access now user.id message_id
  allowed ← lift (can_view_reactions now user context)
  raise_if (not allowed) (reaction_error reaction_access_denied 403)
  reaction ← fetch (get_reaction message_id user.id emoji) (reaction_error reaction_not_found 404)
  raise_if (not (can_remove_reaction user reaction)) (reaction_error reaction_access_denied 403)
  modify (delete_reaction reaction)
  commit engine
  pure (reaction, message)
