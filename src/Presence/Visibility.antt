-- ===== src/Presence/Visibility.antt =====
-- app/repositories/presence_repository.py: who may see whose presence, and who is told of a change.
use realynk.Base.{
  ℕ, ◌≡◌, ◌≢◌, refl, sym, ap, ◌∙◌, Bool, true, false, not, ◌&&◌, ◌||◌, List, [], ◌∷◌, ◌++◌, map,
  arith, ◌==◌, is_some, any, filter, contains,
}
use realynk.Models.{Db, ChannelMembership, ConversationParticipant}

-- the conversations that the user is in, of the subquery in `WHERE conversation_id IN (…)`
abbrev is_in : ℕ → ConversationParticipant → Bool
is_in user_id p = (p.user_id == user_id) && not (is_some p.left_at)

abbrev conversations_of : ℕ → Db → List ℕ
conversations_of user_id d = map (λ p. p.conversation_id) (filter (is_in user_id) d.participants)

-- the join of the memberships' table with itself
abbrev joins : ℕ → Db → ChannelMembership → Bool
joins user_id d m =
    any (λ t. (t.channel_id == m.channel_id) && (t.user_id == user_id)) d.memberships

unfoldable pub can_view_presence : ℕ → ℕ → Db → Bool
can_view_presence viewer_id target_id d =
    viewer_id == target_id
    || any (λ m. (m.user_id == viewer_id) && joins target_id d m) d.memberships
    || any (λ p. is_in target_id p && contains p.conversation_id (conversations_of viewer_id d))
        d.participants

unfoldable pub visible_user_ids : ℕ → List ℕ → Db → List ℕ
unfolding can_view_presence
visible_user_ids viewer_id target_ids d =
    filter (λ target_id. can_view_presence viewer_id target_id d) target_ids

-- a set, as a list
unfoldable pub shared_observer_ids : ℕ → Db → List ℕ
shared_observer_ids target_id d =
    map (λ m. m.user_id) (filter (joins target_id d) d.memberships)
    ++ map (λ p. p.user_id)
        (filter
          (λ p.
            not (is_some p.left_at) && contains p.conversation_id (conversations_of target_id d))
          d.participants)

module _ {A : Type 0} where
  any-cong : (p q : A → Bool) (xs : List A) → ((x : A) → p x ≡ q x) → any p xs ≡ any q xs
  any-cong p q [] h = refl
  any-cong p q (x ∷ xs) h = ground (arith, h x, any-cong p q xs h)

  any-or : (p q : A → Bool) (xs : List A) → any (λ x. p x || q x) xs ≡ any p xs || any q xs
  any-or p q [] = refl
  any-or p q (x ∷ xs) = ground (arith, any-or p q xs)

  any-false : (xs : List A) → any (λ x. false) xs ≡ false
  any-false [] = refl
  any-false (x ∷ xs) = any-false xs

  any-and : (b : Bool) (p : A → Bool) (xs : List A) → any (λ x. b && p x) xs ≡ b && any p xs
  any-and true p xs = refl
  any-and false p xs = any-false xs

  contains-map :
      (f : A → ℕ) (p : A → Bool) (i : ℕ) (xs : List A)
      → contains i (map f (filter p xs)) ≡ any (λ x. p x && f x == i) xs
  contains-map f p i [] = refl
  contains-map f p i (x ∷ xs) = ground (arith, contains-map f p i xs)

any-swap :
    {A B : Type 0} (f : A → B → Bool) (xs : List A) (ys : List B)
    → any (λ x. any (f x) ys) xs ≡ any (λ y. any (λ x. f x y) xs) ys
any-swap f [] ys = sym (any-false ys)
any-swap f (x ∷ xs) ys =
    ap (λ b. any (f x) ys || b) (any-swap f xs ys)
    ∙ sym (any-or (f x) (λ y. any (λ x. f x y) xs) ys)

contains-append : (i : ℕ) (xs ys : List ℕ) → contains i (xs ++ ys) ≡ contains i xs || contains i ys
contains-append i [] ys = refl
contains-append i (x ∷ xs) ys = ground (arith, contains-append i xs ys)

module _ (viewer_id target_id : ℕ) (d : Db) where
  abbrev shares : ConversationParticipant → ConversationParticipant → Bool
  shares p q = is_in target_id p && (is_in viewer_id q && q.conversation_id == p.conversation_id)

  -- the viewer's side of the search
  from_viewer :
      any
        (λ p. is_in target_id p && contains p.conversation_id (conversations_of viewer_id d))
        d.participants
      ≡ any (λ p. any (shares p) d.participants) d.participants
  from_viewer =
      any-cong (λ p. is_in target_id p && contains p.conversation_id (conversations_of viewer_id d))
        (λ p. any (shares p) d.participants) d.participants
        λ p.
          ap (λ b. is_in target_id p && b)
            (contains-map (λ q. q.conversation_id) (is_in viewer_id) p.conversation_id
              d.participants)
          ∙ sym (
              any-and (is_in target_id p)
                (λ q. is_in viewer_id q && q.conversation_id == p.conversation_id) d.participants)

  -- the target's side of it
  from_target :
      contains viewer_id (
        map
          (λ q. q.user_id)
          (filter
            (λ q.
              not (is_some q.left_at) && contains q.conversation_id (conversations_of target_id d))
            d.participants))
      ≡ any (λ q. any (λ p. shares p q) d.participants) d.participants
  from_target =
      contains-map (λ q. q.user_id)
        (λ q. not (is_some q.left_at) && contains q.conversation_id (conversations_of target_id d))
        viewer_id d.participants
      ∙ any-cong
          (λ q.
            (not (is_some q.left_at) && contains q.conversation_id (conversations_of target_id d))
            && q.user_id == viewer_id)
          (λ q. any (λ p. shares p q) d.participants) d.participants side
    where
      turned :
          (q : ConversationParticipant)
          → any (λ p. shares p q) d.participants
            ≡ is_in viewer_id q
              && any
                  (λ p. is_in target_id p && p.conversation_id == q.conversation_id)
                  d.participants
      turned q =
          any-cong (λ p. shares p q)
            (λ p.
              is_in viewer_id q && (is_in target_id p && p.conversation_id == q.conversation_id))
            d.participants (λ p. ground arith)
          ∙ any-and (is_in viewer_id q)
              (λ p. is_in target_id p && p.conversation_id == q.conversation_id) d.participants

      side :
          (q : ConversationParticipant)
          → ((not (is_some q.left_at) && contains q.conversation_id (conversations_of target_id d))
              && q.user_id == viewer_id)
            ≡ any (λ p. shares p q) d.participants
      side q = ground (
        arith,
        turned q,
        contains-map (λ p. p.conversation_id) (is_in target_id) q.conversation_id d.participants,
      )

  -- The two queries agree: somebody else is told of a user's presence exactly if they may see it.
  pub can_view_presence-shared_observer_ids :
      viewer_id ≢ target_id
      → can_view_presence viewer_id target_id d
        ≡ contains viewer_id (shared_observer_ids target_id d)
  unfolding can_view_presence shared_observer_ids
  can_view_presence-shared_observer_ids ne = ground (
    arith,
    from_viewer,
    from_target,
    any-swap shares d.participants d.participants,
    channels,
    contains-append viewer_id (map (λ m. m.user_id) (filter (joins target_id d) d.memberships)) (
        map (λ q. q.user_id)
          (filter
            (λ q.
              not (is_some q.left_at) && contains q.conversation_id (conversations_of target_id d))
            d.participants)),
  )
    where
      channels :
          contains viewer_id (map (λ m. m.user_id) (filter (joins target_id d) d.memberships))
          ≡ any (λ m. (m.user_id == viewer_id) && joins target_id d m) d.memberships
      channels =
          contains-map (λ m. m.user_id) (joins target_id d) viewer_id d.memberships
          ∙ any-cong (λ m. joins target_id d m && m.user_id == viewer_id)
              (λ m. (m.user_id == viewer_id) && joins target_id d m) d.memberships
              (λ m. ground arith)
