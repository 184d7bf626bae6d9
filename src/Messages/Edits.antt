-- ===== src/Messages/Edits.antt =====
-- Editing and deleting one's own messages.
use realynk.Base.{
  ℕ, ◌≡◌, ◌≢◌, refl, false, none, some, Text, arith, ◌==◌, ap, ◌∙◌, find-update_where,
  map_found_same,
}
use realynk.Models.{Db, User, Message}
use realynk.Session.{Engine, Result, ok, err, is_ok, RestoresOn}
use realynk.Session.Ends.{Ends, Ends-pure, Ends-raise_if, Ends-modify, Ends-commit_or, Ends-gets}
use realynk.Constraints.{Enforces}
use realynk.Permissions.ModerationRules.{of_user, is_restricted}
use realynk.Repositories.{get_message}
use realynk.Moderation.Content.{set_message}
use realynk.Moderation.Removals.{blank-rejected, get_message-set_message}
use realynk.Messages.{edit_message, delete_message, edited, emptied, or_given}

set_message_others :
    (f : Message → Message) (m : Message) (d : Db)
    → ((x : Message) → (f x).id ≡ x.id)
    → (id : ℕ) → id ≢ m.id
    → get_message id (set_message m f d) ≡ get_message id d
set_message_others f m d keeps id ne =
    find-update_where (λ x. x.id == id) (λ x. x.id == m.id) f d.messages
      (λ x. ap (λ i. i == id) (keeps x)) false (λ x h. ground arith)
    ∙ map_found_same (get_message id d)

-- An edit that its author was entitled to: it changes the one message, and shows it.
pub record Edited (now at : ℕ) (user : User) (message : Message) (content : Text) (d : Db)
    (shown : Message) (d' : Db) : Type 0 where
  pub author : message.sender_id ≡ user.id
  pub unrestricted : is_restricted now (of_user user) ≡ false
  pub live : message.deleted_at ≡ none
  pub shows : shown ≡ edited at content message
  pub changed : get_message message.id d' ≡ some (edited at content message)
  pub others : (id : ℕ) → id ≢ message.id → get_message id d' ≡ get_message id d

abbrev pub EditOutcome : ℕ → ℕ → User → Message → Text → Db → Result Message → Db → Type 0
EditOutcome now at user message content d (ok shown) d' =
    Edited now at user message content d shown d'
EditOutcome now at user message content d (err e) d' = d' ≡ d

module _ (engine : Engine) (d : Db) (restores : RestoresOn engine d) (message : Message)
    (found : get_message message.id d ≡ some message) where
  row :
      (f : Message → Message)
      → ((x : Message) → (f x).id ≡ x.id)
      → get_message message.id (set_message message f d) ≡ some (f message)
  row f keeps = get_message-set_message f d message.id message found keeps

  -- With an engine that restores the state before the call, and a row of the table: only the author,
  -- unrestricted, edits a message, and only one that is not deleted; the call returns the edited row,
  -- and no other message changes. A call that raises has changed nothing.
  pub edit_message-Edited :
      (now at : ℕ) (user : User) (content : Text)
      → Ends
          (EditOutcome now at user message content d)
          (edit_message engine now at user message content)
          d
  unfolding edit_message
  edit_message-Edited now at user content =
      Ends-raise_if _ _ _ d (λ _. refl)
        λ live.
          Ends-raise_if _ _ _ d (λ _. refl)
            λ allowed. Ends-modify _ _ d (
              Ends-commit_or engine _ _ _
                (λ _. Ends-gets _ _ _ (
                  Ends-pure _ _ (record {
                    author = ground arith;
                    unrestricted = ground arith;
                    live = ground arith;
                    shows =
                        ap (or_given (edited at content) message)
                          (row (edited at content) (λ _. refl));
                    changed = row (edited at content) (λ _. refl);
                    others = set_message_others (edited at content) message d (λ _. refl);
                  })))
                (λ d' r. restores _ d' r))

  -- Nobody deletes a message, not even its author: the call empties the content, and the database,
  -- which enforces its constraints and restores the state before the call, refuses the commit.
  pub delete_message-fails :
      Enforces engine
      → (at : ℕ) (user : User)
      → Ends (λ r d'. (is_ok r ≡ false) × (d' ≡ d)) (delete_message engine at user message) d
  unfolding delete_message
  delete_message-fails enforces at user =
      Ends-raise_if _ _ _ d (λ _. (refl, refl))
        λ _.
          Ends-raise_if _ _ _ d (λ _. (refl, refl))
            λ _. Ends-modify _ _ d (
              Ends-commit_or engine _ _ _
                (λ acc. absurd (
                  blank-rejected engine _ message.id (emptied at message) enforces
                    (row (emptied at) (λ _. refl)) refl acc))
                (λ d' r. (refl, restores _ d' r)))
