-- ===== src/Moderation/Removals.antt =====
-- Removing a member, and hiding a message.
use realynk.Base.{
  ℕ, ◌≡◌, ◌≢◌, refl, Bool, true, false, Option, none, some, Text, arith, ◌==◌, ap, ◌∙◌, find,
  find-update_where, find-test, find-All, map_found,
}
use realynk.Models.{Db, User, Message}
use realynk.Session.{Action, Engine, Exn, Result, err, is_ok, RestoresOn, accepted, ◌>>◌}
use realynk.Session.Ends.{
  Ends, Ends-pure, Ends-raise_if, Ends-modify, Ends-commit_or, Ends-fetch, Ends-catch_fetch,
  Ends-lift, Ends-assoc,
}
use realynk.Constraints.{is_not_blank, Enforces, MessageChecks}
use realynk.Repositories.{get_message}
use realynk.Channels.Ownership.{IsSound, IsSound-accepted, IsSound-rejected}
use realynk.Channels.Ownership.Edits.{IsOwned-delete}
use realynk.Moderation.{authorize}
use realynk.Moderation.Content.{remove_channel_member, moderate_message, set_message, hidden}

-- a test of a rule, and its exception
Ends-authorize :
    {B : Type 0} {Q : Result B → Db → Type 0} (check : Result Bool) (k : Action B) (d : Db)
    → ((e : Exn) → Q (err e) d)
    → Ends Q k d
    → Ends Q (authorize check >> k) d
unfolding authorize
Ends-authorize check k d stop go =
    Ends-assoc _ _ _ d
      (Ends-lift _ _ d (λ e _. stop e) λ allowed h. Ends-raise_if _ _ _ d (λ _. stop _) λ yes. go)

module _ (engine : Engine) (enforces : Enforces engine) (d : Db)
    (restores : RestoresOn engine d) where
  -- A moderator's removal of a member keeps one owner in every channel: the owner is protected.
  pub remove_channel_member-IsSound :
      IsSound d
      → (id now : ℕ) (actor : User) (channel_id user_id : ℕ) (reason : Option Text)
      → Ends (λ _. IsSound) (remove_channel_member engine id now actor channel_id user_id reason) d
  unfolding remove_channel_member
  remove_channel_member-IsSound sound id now actor channel_id user_id reason =
      Ends-catch_fetch _ _ _ _ d (λ _. sound)
        λ target _.
          Ends-fetch _ _ _ d (λ _. sound)
            λ channel _.
              Ends-fetch _ _ _ d (λ _. sound)
                λ membership found.
                  Ends-authorize _ _ d (λ _. sound)
                    (Ends-raise_if _ _ _ d (λ _. sound)
                      λ plain. Ends-modify _ _ d (
                        Ends-modify _ _ _ (
                          Ends-commit_or engine _ _ _
                            (λ acc. Ends-pure _ _ (
                              IsSound-accepted engine enforces d restores sound _
                                (IsOwned-delete membership _ d sound.constraints found plain
                                  sound.owned)
                                acc))
                            (IsSound-rejected engine enforces d restores sound _))))

-- The database refuses a message whose content is empty.
pub blank-rejected :
    (engine : Engine) (p : Db) (message_id : ℕ) (m : Message)
    → Enforces engine
    → find (λ x. x.id == message_id) p.messages ≡ some m
    → is_not_blank m.content ≡ false
    → engine p ≢ accepted
blank-rejected engine p message_id m enforces found blank acc =
    absurd (ground (arith, blank, checked.not_empty))
  where
    checked : MessageChecks m
    checked =
        find-All MessageChecks (λ x. x.id == message_id) p.messages m
          (enforces p acc).message_checks found

-- the row that a query finds after an update of it
pub get_message-set_message :
    (f : Message → Message) (d : Db) (message_id : ℕ) (m : Message)
    → get_message message_id d ≡ some m
    → ((x : Message) → (f x).id ≡ x.id)
    → get_message message_id (set_message m f d) ≡ some (f m)
get_message-set_message f d message_id m found keeps =
    find-update_where (λ x. x.id == message_id) (λ x. x.id == m.id) f d.messages
      (λ x. ap (λ i. i == message_id) (keeps x)) true
      (λ x h. ground (arith, find-test (λ y. y.id == message_id) d.messages m found))
    ∙ ap (map_found f) found

hidden-blank :
    (at : ℕ) (m : Message) → m.deleted_at ≡ none → is_not_blank (hidden at m).content ≡ false
hidden-blank at m live = ground (arith, live)

hidden-id : (at : ℕ) (m : Message) → (hidden at m).id ≡ m.id
hidden-id at m = ground arith

module _ (engine : Engine) (enforces : Enforces engine) (d : Db)
    (restores : RestoresOn engine d) where
  -- A moderator's request to delete a message that is not deleted raises, whoever asks and for
  -- whatever reason, and the database is as it was: the call empties the content, and the table's
  -- check refuses the commit.
  pub moderate_message-fails :
      (id now at : ℕ) (actor : User) (message_id : ℕ) (reason : Option Text) (m : Message)
      → get_message message_id d ≡ some m
      → m.deleted_at ≡ none
      → Ends
          (λ r d'. (is_ok r ≡ false) × (d' ≡ d))
          (moderate_message engine id now at actor message_id reason)
          d
  unfolding moderate_message
  moderate_message-fails id now at actor message_id reason m found live =
      Ends-fetch _ _ _ d (λ _. (refl, refl))
        λ message f.
          Ends-authorize _ _ d (λ _. (refl, refl))
            (Ends-modify _ _ d (
              Ends-modify _ _ _ (
                Ends-commit_or engine _ _ _
                  (λ acc. absurd (
                    blank-rejected engine _ message_id (hidden at message) enforces
                      (get_message-set_message (hidden at) d message_id message f (hidden-id at))
                      (hidden-blank at message (ground (arith, found, f, live))) acc))
                  (λ d' rejection. (refl, restores _ d' rejection)))))
