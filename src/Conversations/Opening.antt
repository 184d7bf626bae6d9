-- ===== src/Conversations/Opening.antt =====
-- What `create_or_reopen` opens.
use realynk.Base.{
  ℕ, ◌≡◌, ◌≢◌, ◌<◌, refl, Bool, true, false, ◌&&◌, Option, none, some, arith, ◌==◌, ap, ◌∙◌, subst,
  leb, find, any, find-test, find-All, find-update_where, map_found, any_of_find-none, any_of_found,
}
use realynk.Models.{Db, Conversation, ConversationParticipant}
use realynk.Session.{Engine, Result, ok, err, is_ok, rejected}
use realynk.Session.Ends.{
  Ends, Ends-pure, Ends-raise_if, Ends-modify, Ends-commit_or, Ends-try_commit, Ends-gets,
  Ends-fetch, Ends-catch_fetch,
}
use realynk.Constraints.{Constraints, Enforces}
use realynk.Repositories.{get_participant, get_direct_by_pair}
use realynk.Conversations.{
  find_or_create, get_for_user, create_or_reopen, create, conclude, reopen, reopen_all, reopened,
  canonical_pair, new_conversation, new_participant, add_conversation, add_participants,
}
use realynk.Conversations.Pairs.{
  IsPaired, HasBoth, is_row, any-update_row, IsPaired-create, canonical_pair-lt,
}

-- A conversation is open to a user with a row that has not left it.
get_for_user_ok :
    (id user_id : ℕ) (d : Db) (p : ConversationParticipant)
    → any (λ c. c.id == id) d.conversations ≡ true
    → get_participant id user_id d ≡ some p
    → p.left_at ≡ none
    → Ends (λ r _. is_ok r ≡ true) (get_for_user id user_id) d
unfolding get_for_user
get_for_user_ok id user_id d p there found here =
    Ends-fetch _ _ _ d
      (λ e. absurd (ground (arith, any_of_find-none (λ c. c.id == id) d.conversations e)))
      λ c _.
        Ends-fetch _ _ _ d (λ e. absurd (ground arith))
          λ q f.
            Ends-raise_if _ _ _ d
              (λ stop.
                absurd (
                  ground (arith, here, found, f, find-test (is_row id user_id) d.participants q f)))
              (λ _. Ends-pure _ d refl)

-- The one conversation of the two users, with access for both.
pub record IsOpen (a b : ℕ) (c : Conversation) (d : Db) : Type 0 where
  pub paired : (c.participant_a_id, c.participant_b_id) ≡ canonical_pair a b
  pub to_requester : is_ok (get_for_user c.id a d).0 ≡ true
  pub to_target : is_ok (get_for_user c.id b d).0 ≡ true

-- What a call leaves, on every path.
pub record IsGood (d : Db) : Type 0 where
  pub constraints : Constraints d
  pub paired : IsPaired d

abbrev pub Opened : ℕ → ℕ → Result (Conversation × Bool) → Db → Type 0
Opened a b (ok (c, created)) d' = IsGood d' × IsOpen a b c d'
Opened a b (err e) d' = IsGood d'

IsOpen-pair :
    (a b : ℕ) (c : Conversation) (d : Db)
    → (c.participant_a_id, c.participant_b_id) ≡ canonical_pair a b
    → is_ok (get_for_user c.id c.participant_a_id d).0 ≡ true
    → is_ok (get_for_user c.id c.participant_b_id d).0 ≡ true
    → IsOpen a b c d
IsOpen-pair a b c d paired h k = go (leb a b) refl
  where
    at :
        (u v : ℕ)
        → u ≡ v
        → is_ok (get_for_user c.id u d).0 ≡ true
        → is_ok (get_for_user c.id v d).0 ≡ true
    at u v e = subst (λ i. is_ok (get_for_user c.id i d).0 ≡ true) e

    go : (t : Bool) → leb a b ≡ t → IsOpen a b c d
    go true e = record {
      paired = paired;
      to_requester = at c.participant_a_id a (ground (arith, ap (λ q. q.0) paired)) h;
      to_target = at c.participant_b_id b (ground (arith, ap (λ q. q.1) paired)) k;
    }
    go false e = record {
      paired = paired;
      to_requester = at c.participant_b_id a (ground (arith, ap (λ q. q.1) paired)) k;
      to_target = at c.participant_a_id b (ground (arith, ap (λ q. q.0) paired)) h;
    }

reopened_row :
    (c : Conversation) (user_id : ℕ) (d : Db)
    → any (is_row c.id user_id) d.participants ≡ true
    → any (λ x. x.id == c.id) d.conversations ≡ true
    → is_ok (get_for_user c.id user_id (reopen_all c d)).0 ≡ true
reopened_row c user_id d row there = go (find (is_row c.id user_id) d.participants) refl
  where
    go :
        (o : Option ConversationParticipant)
        → find (is_row c.id user_id) d.participants ≡ o
        → is_ok (get_for_user c.id user_id (reopen_all c d)).0 ≡ true
    go none e = absurd (ground (arith, any_of_find-none (is_row c.id user_id) d.participants e))
    go (some p) e =
        (get_for_user_ok c.id user_id (reopen_all c d) (reopened p) there
          (find-update_where (is_row c.id user_id) (λ x. x.conversation_id == c.id) reopened
              d.participants (λ x. refl) true (λ x h. ground arith)
            ∙ ap (map_found reopened) e)
          refl).at

-- the database with a new conversation of two users
abbrev with_new : ℕ → ℕ → ℕ → ℕ → ℕ → ℕ → Db → Db
with_new id pid qid now a b d =
    add_participants (new_participant pid now (new_conversation id now a b) a)
      (new_participant qid now (new_conversation id now a b) b)
      (add_conversation (new_conversation id now a b) d)

new_rows :
    (id pid qid now a b : ℕ) (d : Db)
    → a < b
    → (is_ok (get_for_user id a (with_new id pid qid now a b d)).0 ≡ true)
      × (is_ok (get_for_user id b (with_new id pid qid now a b d)).0 ≡ true)
new_rows id pid qid now a b d lt = (
  (get_for_user_ok id a (with_new id pid qid now a b d)
      (new_participant pid now (new_conversation id now a b) a) (ground arith) (ground arith)
      refl).at,
  (get_for_user_ok id b (with_new id pid qid now a b d)
      (new_participant qid now (new_conversation id now a b) b) (ground arith) (ground arith)
      refl).at,
)

module _ (engine : Engine) (enforces : Enforces engine)
    (rolls : (p d' : Db) → engine p ≡ rejected d' → IsGood d') (requester target : ℕ) where
  reopen-Opened :
      (c : Conversation) (d : Db)
      → IsGood d
      → get_direct_by_pair (canonical_pair requester target).0 (canonical_pair requester target).1 d
        ≡ some c
      → Ends (Opened requester target) (reopen engine c) d
  unfolding reopen
  reopen-Opened c d good found = Ends-modify _ _ d (
      Ends-commit_or engine _ _ _
        (λ acc. Ends-pure _ _ (
          record {
            constraints = enforces _ acc;
            paired =
                any-update_row reopened (λ p. p.conversation_id == c.id) d (λ p. (refl, refl))
                  good.paired;
          },
          IsOpen-pair requester target c _ pair
              (reopened_row c c.participant_a_id d both.first there)
              (reopened_row c c.participant_b_id d both.second there),
        ))
        (λ d' r. rolls _ d' r))
    where
      test : Conversation → Bool
      test x =
          (x.participant_a_id == (canonical_pair requester target).0)
          && (x.participant_b_id == (canonical_pair requester target).1)

      both : HasBoth d.participants c
      both = find-All (HasBoth d.participants) test d.conversations c good.paired found

      there : any (λ x. x.id == c.id) d.conversations ≡ true
      there = any_of_found test (λ x. x.id == c.id) d.conversations c found (ground arith)

      pair : (c.participant_a_id, c.participant_b_id) ≡ canonical_pair requester target
      pair = ground (arith, find-test test d.conversations c found)

  create-Opened :
      (id pid qid now : ℕ) (d : Db)
      → IsGood d
      → requester ≢ target
      → Ends
          (Opened requester target)
          (create engine id pid qid now
            (canonical_pair requester target).0
            (canonical_pair requester target).1)
          d
  unfolding create conclude
  create-Opened id pid qid now d good differ = Ends-modify _ _ d (
      Ends-commit_or engine _ _ _
        (λ _. Ends-modify _ _ _ (
          Ends-try_commit engine _ _
            (λ acc. Ends-pure _ _ (
              record {
                constraints = enforces _ acc;
                paired = IsPaired-create id pid qid now _ _ d lt good.paired;
              },
              IsOpen-pair requester target _ _ refl (new_rows id pid qid now _ _ d lt).0
                  (new_rows id pid qid now _ _ d lt).1,
            ))
            (λ d' r.
              Ends-fetch _ _ _ d' (λ _. rolls _ d' r)
                λ existing e. reopen-Opened existing d' (rolls _ d' r) e)))
        (λ d' r. rolls _ d' r))
    where
      lt : (canonical_pair requester target).0 < (canonical_pair requester target).1
      lt = canonical_pair-lt requester target differ

  -- Whether the two users had a conversation or not, and whether both had left it or one, after the
  -- call both have access to the one conversation of the two of them; and on every path, the
  -- errors and the race with another request included, the conversations stay well formed.
  pub create_or_reopen-Opened :
      (id pid qid now : ℕ) (d : Db)
      → IsGood d
      → Ends (Opened requester target) (create_or_reopen engine id pid qid now requester target) d
  unfolding create_or_reopen create conclude
  create_or_reopen-Opened id pid qid now d good =
      Ends-raise_if _ _ _ d (λ _. good)
        λ differ.
          Ends-catch_fetch _ _ _ _ d (λ _. good)
            λ user _.
              Ends-raise_if _ _ _ d (λ _. good)
                λ _. Ends-gets _ _ d (
                  go
                    (get_direct_by_pair (canonical_pair requester target).0
                      (canonical_pair requester target).1 d)
                    refl (ground arith))
    where
      go :
          (o : Option Conversation)
          → get_direct_by_pair
              (canonical_pair requester target).0
              (canonical_pair requester target).1
              d
            ≡ o
          → requester ≢ target
          → Ends
              (Opened requester target)
              (find_or_create engine id pid qid now
                (canonical_pair requester target).0
                (canonical_pair requester target).1
                o)
              d
      go (some c) e ne = reopen-Opened c d good e
      go none e ne = create-Opened id pid qid now d good ne
