-- ===== src/Notifications/Delivery/Recipients.antt =====
-- Who is to be told of a message.
use realynk.Base.{
  ℕ, ◌≡◌, refl, Bool, true, false, not, ◌&&◌, ◌||◌, Option, none, some, List, [], ◌∷◌, arith, ◌==◌,
  any, filter, map, contains, is_id, is_some, All, All-map, if◌then◌else◌, ==_refl,
}
use realynk.Models.{Db, Message}
use realynk.Session.{}
use realynk.Session.Ends.{}
use realynk.Notifications.Preferences.{}
use realynk.Notifications.{is_reachable}
use realynk.Notifications.Delivery.{recipient_ids, get_users, active_users}

module _ {A : Type 0} where
  All-filter :
      (P : A → Type 0) (p : A → Bool) (xs : List A)
      → All (λ x. p x ≡ true → P x) xs
      → All P (filter p xs)
  All-filter P p [] h = tt
  All-filter P p (x ∷ xs) h =
      let rest = All-filter P p xs h.1 in
      (elim (p x) as (λ b. (b ≡ true → P x) → All P (if b then x ∷ filter p xs else filter p xs)) [
        | true ↦ λ k. (k refl, rest)
        | false ↦ λ k. rest
      ])
        h.0

  -- each row is found among the rows
  All-any : (q : A → A → Bool) (xs : List A) → All (λ x. q x x ≡ true → any (q x) xs ≡ true) xs
  All-any q [] = tt
  All-any q (x ∷ xs) = (
    λ h. ground (arith, h),
    All-map (λ y. q y y ≡ true → any (q y) xs ≡ true)
        (λ y. q y y ≡ true → any (q y) (x ∷ xs) ≡ true) xs (λ y k h. ground (arith, k h))
        (All-any q xs),
  )

  contains-map :
      (f : A → ℕ) (p : A → Bool) (a : ℕ) (xs : List A)
      → contains a (map f (filter p xs)) ≡ true
      → any (λ x. p x && (f x == a)) xs ≡ true
  contains-map f p a [] h = h
  contains-map f p a (x ∷ xs) h =
      (elim (p x)
          as (λ b.
            contains a (map f (if b then x ∷ filter p xs else filter p xs)) ≡ true
            → (b && (f x == a)) || any (λ x. p x && (f x == a)) xs ≡ true) [
              | true ↦ λ k. go (f x == a) k (contains-map f p a xs)
              | false ↦ λ k. contains-map f p a xs k
            ])
        h
    where
      go :
          (b : Bool)
          → b || contains a (map f (filter p xs)) ≡ true
          → (contains a (map f (filter p xs)) ≡ true → any (λ x. p x && (f x == a)) xs ≡ true)
          → b || any (λ x. p x && (f x == a)) xs ≡ true
      go true k rest = refl
      go false k rest = rest k

  any-implies :
      (p q : A → Bool) (xs : List A)
      → ((x : A) → p x ≡ true → q x ≡ true)
      → any p xs ≡ true
      → any q xs ≡ true
  any-implies p q [] f h = h
  any-implies p q (x ∷ xs) f h =
      (elim (p x) as (λ b. p x ≡ b → b || any p xs ≡ true → q x || any q xs ≡ true) [
        | true ↦ λ e k. ground (arith, f x e)
        | false ↦ λ e k. ground (arith, any-implies p q xs f k)
      ])
        refl h

  -- what every row of a kind tells, where there is one
  any_tells :
      (p : A → Bool) (b : Bool) (xs : List A)
      → ((x : A) → p x ≡ true → b ≡ true)
      → any p xs ≡ true
      → b ≡ true
  any_tells p b [] f h = ground (arith, h)
  any_tells p b (x ∷ xs) f h =
      (elim (p x) as (λ c. p x ≡ c → c || any p xs ≡ true → b ≡ true) [
        | true ↦ λ e k. f x e
        | false ↦ λ e k. any_tells p b xs f k
      ])
        refl h

-- whether a user is in the channel of a message, or takes part in its conversation
abbrev pub takes_part : Message → Option ℕ → ℕ → Db → Bool
takes_part message (some c) user_id d =
    any (λ m. (m.channel_id == c) && (m.user_id == user_id)) d.memberships
takes_part message none user_id d =
    any
      (λ p.
        is_id message.conversation_id p.conversation_id
        && (p.user_id == user_id)
        && not (is_some p.left_at))
      d.participants

-- whether a user has an account that is active
abbrev pub has_account : ℕ → Db → Bool
has_account user_id d = any (λ u. (u.id == user_id) && is_reachable (some u)) d.users

-- what is known of the recipients before their preferences are asked
abbrev pub IsRecipient : Db → Message → ℕ → Type 0
IsRecipient d message id =
    ((id == message.sender_id) ≡ false)
    × (takes_part message message.channel_id id d ≡ true)
    × (has_account id d ≡ true)

recipient_ids_lem :
    (message : Message) (channel_id : Option ℕ) (id : ℕ) (d : Db)
    → contains id (recipient_ids message channel_id d) ≡ true
    → ((id == message.sender_id) ≡ false) × (takes_part message channel_id id d ≡ true)
recipient_ids_lem message (some c) id d h =
    let found =
      contains-map (λ m. m.user_id)
        (λ m. (m.channel_id == c) && not (m.user_id == message.sender_id)) id d.memberships h in
    (
      ground (
        arith,
        any_tells _ (not (id == message.sender_id)) d.memberships (λ m k. ground (arith, k)) found,
      ),
      any-implies _ _ d.memberships (λ m k. ground (arith, k)) found,
    )
recipient_ids_lem message none id d h =
    let found =
      contains-map (λ p. p.user_id)
        (λ p.
          is_id message.conversation_id p.conversation_id
          && not (p.user_id == message.sender_id)
          && not (is_some p.left_at))
        id d.participants h in
    (
      ground (
        arith,
        any_tells _ (not (id == message.sender_id)) d.participants (λ p k. ground (arith, k)) found,
      ),
      any-implies _ _ d.participants (λ p k. ground (arith, k)) found,
    )

pub active_users-IsRecipient :
    (message : Message) (d : Db)
    → All
        (λ u. IsRecipient d message u.id)
        (active_users (recipient_ids message message.channel_id d) d)
active_users-IsRecipient message d =
    All-filter (λ u. IsRecipient d message u.id) (λ u. is_reachable (some u))
      (get_users (recipient_ids message message.channel_id d) d)
      (All-filter (λ u. is_reachable (some u) ≡ true → IsRecipient d message u.id)
        (λ u. contains u.id (recipient_ids message message.channel_id d)) d.users
        (All-map (λ u. (u.id == u.id) && is_reachable (some u) ≡ true → has_account u.id d ≡ true)
          (λ u.
            contains u.id (recipient_ids message message.channel_id d) ≡ true
            → is_reachable (some u) ≡ true
            → IsRecipient d message u.id)
          d.users
          (λ u own c r.
            let known = recipient_ids_lem message message.channel_id u.id d c in
            (known.0, known.1, own (ground (arith, r, ==_refl u.id))))
          (All-any (λ u v. (v.id == u.id) && is_reachable (some v)) d.users)))
