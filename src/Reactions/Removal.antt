-- ===== src/Reactions/Removal.antt =====
-- What the removal of a reaction leaves.
use realynk.Base.{
  ℕ, ◌≡◌, ◌≢◌, ◌⊎◌, inl, inr, refl, ap, sym, subst, ◌∙◌, Bool, true, false, not, ◌&&◌, none, some,
  List, [], ◌∷◌, Text, arith, ◌==◌, All, All-map₂, Unique-find, any, any-delete_where_self,
  delete_where, filter, find_of_any-false, text_eq, text_eq_eq, find-test,
}
use realynk.Models.{Db, User, Message, MessageReaction}
use realynk.Session.{Action, Engine, Exn, Result, ok, err, is_ok, RestoresOn, accepted, pure, ◌>>=◌}
use realynk.Session.Ends.{
  Ends, Ends-pure, Ends-raise_if, Ends-modify, Ends-commit_or, Ends-fetch, Ends-lift,
}
use realynk.Session.Blocks.{Then, Handled, Ends-bind, Ends-catch, Ends-weaken}
use realynk.Constraints.{Constraints, same_reaction}
use realynk.Permissions.MessageRules.{Context, can_view_reactions}
use realynk.Repositories.{get_message, get_reaction}
use realynk.Messages.{find_context}
use realynk.Messages.Access.{
  is_visible, can_reach, Shows, get_message_for_user-is_visible, find_context-can_reach,
}
use realynk.Reactions.{message_and_context, access, no_reaction, delete_reaction, remove_reaction}

abbrev pub is_key : ℕ → ℕ → Text → MessageReaction → Bool
is_key message_id user_id emoji r =
    (r.message_id == message_id) && (r.user_id == user_id) && text_eq r.emoji emoji

text_eq_comm : (s t : Text) → text_eq s t ≡ text_eq t s
text_eq_comm [] [] = refl
text_eq_comm [] (d ∷ t) = refl
text_eq_comm (c ∷ s) [] = refl
text_eq_comm (c ∷ s) (d ∷ t) = ground (arith, text_eq_comm s t)

-- a test that agrees with another on the rows of a list deletes the same
delete_where-agree :
    (p q : MessageReaction → Bool) (xs : List MessageReaction)
    → All (λ x. p x ≡ q x) xs
    → delete_where p xs ≡ delete_where q xs
delete_where-agree p q [] h = refl
delete_where-agree p q (x ∷ xs) h = ground (arith, h.0, delete_where-agree p q xs h.1)

filter-delete_where :
    (q : MessageReaction → Bool) (xs : List MessageReaction)
    → filter (λ x. not (q x)) (delete_where q xs) ≡ filter (λ x. not (q x)) xs
filter-delete_where q [] = refl
filter-delete_where q (x ∷ xs) = ground (arith, filter-delete_where q xs)

iff : (a b : Bool) → (a ≡ true → b ≡ true) → (b ≡ true → a ≡ true) → a ≡ b
iff a b f g = ground (arith, f, g)

module _ (message_id user_id : ℕ) (emoji : Text) (r : MessageReaction) (d : Db) (c : Constraints d)
    (found : get_reaction message_id user_id emoji d ≡ some r) where
  key_of_r : is_key message_id user_id emoji r ≡ true
  key_of_r = find-test (is_key message_id user_id emoji) d.reactions r found

  alike :
      (x : MessageReaction) → is_key message_id user_id emoji x ≡ true → same_reaction x r ≡ true
  alike x key =
      ground (
        arith,
        key_of_r,
        ap (text_eq x.emoji) (text_eq_eq r.emoji emoji (ground (arith, key_of_r))),
      )

  one : (x : MessageReaction) → x ≡ r → (x.id == r.id) ≡ true
  one x e = ground (arith, ap (λ y. y.id) e)

  keyed : (x : MessageReaction) → x ≡ r → is_key message_id user_id emoji x ≡ true
  keyed x e = ap (is_key message_id user_id emoji) e ∙ key_of_r

  -- the row that is found is the one with its key, and the one with its id
  same_rows : All (λ x. (x.id == r.id) ≡ is_key message_id user_id emoji x) d.reactions
  same_rows =
      All-map₂ (λ x. same_reaction x r ≡ true → x ≡ r) (λ x. (x.id == r.id) ≡ true → x ≡ r)
        (λ x. (x.id == r.id) ≡ is_key message_id user_id emoji x) d.reactions
        (λ x by_key by_id.
          iff (x.id == r.id) (is_key message_id user_id emoji x) (λ e. keyed x (by_id e))
            (λ k. one x (by_key (alike x k))))
        (Unique-find same_reaction (is_key message_id user_id emoji) d.reactions r
          (λ x y. ground (arith, text_eq_comm x.emoji y.emoji)) c.reactions found)
        (Unique-find (λ a b. a.id == b.id) (is_key message_id user_id emoji) d.reactions r
          (λ x y. ground arith) c.reaction_ids found)

  deleted :
      (delete_reaction r d).reactions ≡ delete_where (is_key message_id user_id emoji) d.reactions
  deleted =
      delete_where-agree (λ x. x.id == r.id) (is_key message_id user_id emoji) d.reactions same_rows

  gone : get_reaction message_id user_id emoji (delete_reaction r d) ≡ none
  gone = find_of_any-false (is_key message_id user_id emoji) (delete_reaction r d).reactions (
      ap (any (is_key message_id user_id emoji)) deleted
      ∙ any-delete_where_self (is_key message_id user_id emoji) d.reactions)

  kept :
      filter (λ x. not (is_key message_id user_id emoji x)) (delete_reaction r d).reactions
      ≡ filter (λ x. not (is_key message_id user_id emoji x)) d.reactions
  kept =
      ap (filter (λ x. not (is_key message_id user_id emoji x))) deleted
      ∙ filter-delete_where (is_key message_id user_id emoji) d.reactions

-- A call that first finds a message with its context, and goes on where the user can reach it.
Ends-access :
    {B : Type 0} {Q : Result B → Db → Type 0} (now user_id message_id : ℕ)
    (f : Message × Context → Action B) (d : Db)
    → ((e : Exn) → is_visible user_id d (get_message message_id d) ≡ false → Q (err e) d)
    → ((m : Message) (c : Context)
        → get_message message_id d ≡ some m
        → is_visible user_id d (get_message message_id d) ≡ true
        → find_context now user_id m.channel_id m.conversation_id d ≡ (ok c, d)
        → Ends Q (f (m, c)) d)
    → Ends Q (access now user_id message_id >>= f) d
unfolding access message_and_context
Ends-access {B} {Q} now user_id message_id f d stop go = Ends-bind _ f d (
    Ends-catch _ no_reaction d (
      Ends-bind _ _ d
        (Ends-weaken _ d on_message (get_message_for_user-is_visible now user_id message_id d))))
  where
    on_context :
        (m : Message)
        → get_message message_id d ≡ some m
        → is_visible user_id d (get_message message_id d) ≡ true
        → (r : Result Context) (d' : Db)
        → find_context now user_id m.channel_id m.conversation_id d ≡ (r, d')
        → (is_ok r ≡ can_reach user_id d m.channel_id m.conversation_id) × (d' ≡ d)
        → Then (Handled (Then Q f) no_reaction) (λ c. pure (m, c)) r d'
    on_context m e seen (ok c) d' at h =
        Ends-pure (m, c) d'
          (subst (λ x. Ends Q (f (m, c)) x) (sym h.1)
            (go m c e seen (at ∙ ap (λ x. (ok c, x)) h.1)))
    on_context m e seen (err x) d' at h = absurd (ground (arith, h.0, e, seen))

    on_message :
        (r : Result Message) (d' : Db)
        → (is_ok r ≡ is_visible user_id d (get_message message_id d))
          × (d' ≡ d)
          × Shows (get_message message_id d) r
        → Then
            (Handled (Then Q f) no_reaction)
            (λ m. find_context now user_id m.channel_id m.conversation_id >>= λ c. pure (m, c))
            r
            d'
    on_message (err e) d' h =
        subst (Q (err (no_reaction e))) (sym h.1) (stop (no_reaction e) (sym h.0))
    on_message (ok m) d' h =
        subst
          (Ends (Handled (Then Q f) no_reaction)
            (find_context now user_id m.channel_id m.conversation_id >>= λ c. pure (m, c)))
          (sym h.1)
          (Ends-bind _ _ d (record {
            at =
                on_context m h.2 (sym h.0)
                  (find_context now user_id m.channel_id m.conversation_id d).0
                  (find_context now user_id m.channel_id m.conversation_id d).1 refl
                  (find_context-can_reach now user_id m.channel_id m.conversation_id d).at;
          }))

-- why a removal may fail: the user does not see the message, or the rules keep the user out of its
-- context, or there is no such reaction of the user, or the commit of its deletion is refused
abbrev pub Hindrance : Engine → ℕ → User → ℕ → Text → Db → Type 0
Hindrance engine now user message_id emoji d =
    (is_visible user.id d (get_message message_id d) ≡ false)
    ⊎ ((m : Message) × (c : Context) × (find_context now user.id m.channel_id m.conversation_id d
          ≡ (ok c, d))
        × (can_view_reactions now user c ≢ ok true))
    ⊎ (get_reaction message_id user.id emoji d ≡ none)
    ⊎ ((r : MessageReaction) × (get_reaction message_id user.id emoji d ≡ some r)
        × (engine (delete_reaction r d) ≢ accepted))

abbrev pub others : ℕ → ℕ → Text → Db → List MessageReaction
others message_id user_id emoji d =
    filter (λ x. not (is_key message_id user_id emoji x)) d.reactions

-- After a removal that returns, the reaction of the user that was there is gone.
pub record Removed (user : User) (message_id : ℕ) (emoji : Text) (d : Db) (r : MessageReaction)
    (m : Message) (d' : Db) : Type 0 where
  pub message : get_message message_id d ≡ some m
  pub seen : is_visible user.id d (some m) ≡ true
  pub there : get_reaction message_id user.id emoji d ≡ some r
  pub gone_now : get_reaction message_id user.id emoji d' ≡ none
  pub kept_others : others message_id user.id emoji d' ≡ others message_id user.id emoji d
  pub only : d' ≡ record d { reactions = d'.reactions }

abbrev pub RemoveOutcome :
    Engine → ℕ → User → ℕ → Text → Db → Result (MessageReaction × Message) → Db → Type 0
RemoveOutcome engine now user message_id emoji d (ok (r, m)) d' =
    Removed user message_id emoji d r m d'
RemoveOutcome engine now user message_id emoji d (err e) d' =
    (d' ≡ d) × Hindrance engine now user message_id emoji d

-- Where the declared constraints hold and the engine restores the state before the call: a removal
-- that returns shows the message, which the user sees, and the user's reaction to it with the emoji;
-- the next search finds no such reaction, and all others and every other table are as they were. A
-- removal that raises has changed nothing, and does so only where the user does not see the message,
-- a rule keeps the user out of a context that was found, the reaction is not there, or the commit is
-- refused.
pub remove_reaction-RemoveOutcome :
    (engine : Engine) (now : ℕ) (user : User) (message_id : ℕ) (emoji : Text) (d : Db)
    → Constraints d
    → RestoresOn engine d
    → Ends
        (RemoveOutcome engine now user message_id emoji d)
        (remove_reaction engine now user message_id emoji)
        d
unfolding remove_reaction
remove_reaction-RemoveOutcome engine now user message_id emoji d c restores =
    Ends-access now user.id message_id _ d (λ e h. (refl, inl h))
      λ m context found seen at.
        Ends-lift _ _ d
          (λ e h. (refl, inr (inl (m, context, at, λ k. absurd (ground (arith, h, k))))))
          λ allowed h.
            Ends-raise_if _ _ _ d
              (λ no. (refl, inr (inl (m, context, at, λ k. absurd (ground (arith, h, k, no))))))
              λ yes.
                Ends-fetch _ _ _ d (λ missing. (refl, inr (inr (inl missing))))
                  λ r there.
                    Ends-raise_if _ _ _ d
                      (λ foreign.
                        absurd
                          (ground (arith, foreign, key_of_r message_id user.id emoji r d c there)))
                      λ own. Ends-modify _ _ d (
                        Ends-commit_or engine _ _ _
                          (λ _. Ends-pure _ _ (record {
                            message = found;
                            seen = subst (λ o. is_visible user.id d o ≡ true) found seen;
                            there = there;
                            gone_now = gone message_id user.id emoji r d c there;
                            kept_others = kept message_id user.id emoji r d c there;
                            only = refl;
                          }))
                          (λ d' rejection. (
                            restores _ d' rejection,
                            inr (
                                inr
                                  (inr (r, there, λ acc. absurd (ground (arith, acc, rejection))))),
                          )))
