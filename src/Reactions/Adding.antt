-- ===== src/Reactions/Adding.antt =====
-- app/services/reaction_service.py: `add_reaction` and `list_reactions`, with `aggregate` of
-- app/repositories/reaction_repository.py. The notification has a commit of its own, which `later`
-- accepts or rejects; `before` is the order of the database on texts.
use realynk.Base.{
  ℕ, suc, ◌+◌, Bool, not, ◌&&◌, ◌||◌, none, List, [], ◌∷◌, Text, ◌==◌, filter, is_some, ltb,
  text_eq, if◌then◌else◌,
}
use realynk.Models.{Db, User, Message, MessageReaction}
use realynk.Session.{
  Action, Engine, reaction_error, reaction_access_denied, reaction_already_exists, message_deleted,
  pure, gets, lift, raise_if, modify, attempt, commit_or, ◌>>=◌, ◌>>◌,
}
use realynk.Permissions.MessageRules.{can_react_to_message, can_view_reactions}
use realynk.Repositories.{get_reaction}
use realynk.Reactions.{access}
use realynk.Notifications.{Events}
use realynk.Notifications.Delivery.{notify_reaction}

abbrev pub new_reaction : ℕ → ℕ → ℕ → Text → MessageReaction
new_reaction id message_id user_id emoji = record {
  id = id;
  message_id = message_id;
  user_id = user_id;
  emoji = emoji;
}

abbrev pub add_row : MessageReaction → Db → Db
add_row r d = record d { reactions = r ∷ d.reactions }

unfoldable pub add_reaction :
    Engine
    → Engine
    → (ℕ → Text)
    → ℕ
    → ℕ
    → ℕ
    → User
    → ℕ
    → Text
    → Action (MessageReaction × Message × Events)
add_reaction engine later show id notification_id now user message_id emoji = do
  (message, context) ← access now user.id message_id
  raise_if (is_some message.deleted_at) (reaction_error message_deleted 409)
  allowed ← lift (can_react_to_message now user message context)
  raise_if (not allowed) (reaction_error reaction_access_denied 403)
  raise_if (is_some (← gets (get_reaction message_id user.id emoji)))
      (reaction_error reaction_already_exists 409)
  modify (add_row (new_reaction id message_id user.id emoji))
  commit_or engine (reaction_error reaction_already_exists 409)
  (made, events) ←
      attempt (none, []) (notify_reaction show later notification_id now message user emoji id)
  pure (new_reaction id message_id user.id emoji, message, events)

-- a row of the result of `aggregate`
pub record ReactionCount : Type 0 where
  pub emoji : Text
  pub number : ℕ
  pub reacted_by_me : Bool

-- `GROUP BY emoji`: the rows of the first group, in front of those that have no group yet
pub add_to_group : ℕ → MessageReaction → List ReactionCount → List ReactionCount
add_to_group user_id r [] =
    record { emoji = r.emoji; number = 1; reacted_by_me = r.user_id == user_id } ∷ []
add_to_group user_id r (g ∷ gs) =
    let rest = add_to_group user_id r gs in
    if text_eq r.emoji g.emoji
    then record g { number = suc g.number; reacted_by_me = g.reacted_by_me || r.user_id == user_id }
      ∷ gs
    else g ∷ rest

pub grouped : ℕ → List MessageReaction → List ReactionCount
grouped user_id [] = []
grouped user_id (r ∷ rs) = add_to_group user_id r (grouped user_id rs)

module _ (before : Text → Text → Bool) where
  -- `ORDER BY count DESC, emoji ASC`
  abbrev precedes : ReactionCount → ReactionCount → Bool
  precedes a b = ltb b.number a.number || (a.number == b.number) && before a.emoji b.emoji

  pub insert_group : ReactionCount → List ReactionCount → List ReactionCount
  insert_group a [] = a ∷ []
  insert_group a (b ∷ bs) =
      let rest = insert_group a bs in if precedes b a then b ∷ rest else a ∷ b ∷ bs

  pub ordered : List ReactionCount → List ReactionCount
  ordered [] = []
  ordered (g ∷ gs) = insert_group g (ordered gs)

  unfoldable pub aggregate : ℕ → ℕ → Db → List ReactionCount
  unfolding grouped add_to_group ordered insert_group
  aggregate message_id user_id d =
      ordered (grouped user_id (filter (λ r. r.message_id == message_id) d.reactions))

  unfoldable pub list_reactions : ℕ → User → ℕ → Action (List ReactionCount × Message)
  list_reactions now user message_id = do
    (message, context) ← access now user.id message_id
    allowed ← lift (can_view_reactions now user context)
    raise_if (not allowed) (reaction_error reaction_access_denied 403)
    counts ← gets (aggregate message_id user.id)
    pure (counts, message)

-- the reactions that the groups stand for
abbrev total : List ReactionCount → ℕ
total [] = 0
total (g ∷ gs) = g.number + total gs
