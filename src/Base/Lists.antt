-- ===== src/Base/Lists.antt =====
-- Rows of a table as a list: search, selection, counting and update by a Boolean test.
use Prim.Native.Nat.{ℕ, suc, ◌+◌, ◌≤◌}
use mathlib.Core.Path.{◌≡◌, refl, ap, subst}
use mathlib.Core.Bool.{Bool, true, false, ◌||◌}
use mathlib.Core.Option.{Option, none, some}
use mathlib.Core.List.{List, [], ◌∷◌, ◌++◌}
use native.Mathlib.Omega.{arith}
use realynk.Base.Tests.{◌==◌, if◌then◌else◌}

module _ {ℓ} {A : Type ℓ} where
  abbrev pub length : List A → ℕ
  length [] = 0
  length (x ∷ xs) = suc (length xs)

  abbrev pub find : (A → Bool) → List A → Option A
  find p [] = none
  find p (x ∷ xs) = if p x then some x else find p xs

  -- `Option.map`, for the result of a query
  abbrev pub map_found : (A → A) → Option A → Option A
  map_found f none = none
  map_found f (some x) = some (f x)

  abbrev pub any : (A → Bool) → List A → Bool
  any p [] = false
  any p (x ∷ xs) = p x || any p xs

  abbrev pub filter : (A → Bool) → List A → List A
  filter p [] = []
  filter p (x ∷ xs) = let rest = filter p xs in if p x then x ∷ rest else rest

  abbrev pub count : (A → Bool) → List A → ℕ
  count p [] = 0
  count p (x ∷ xs) = (if p x then 1 else 0) + count p xs

  -- `UPDATE … SET … WHERE p`
  abbrev pub update_where : (A → Bool) → (A → A) → List A → List A
  update_where p f [] = []
  update_where p f (x ∷ xs) = (if p x then f x else x) ∷ update_where p f xs

  -- `DELETE … WHERE p`
  abbrev pub delete_where : (A → Bool) → List A → List A
  delete_where p [] = []
  delete_where p (x ∷ xs) = let rest = delete_where p xs in if p x then rest else x ∷ rest

  abbrev pub sum_by : (A → ℕ) → List A → ℕ
  sum_by f [] = 0
  sum_by f (x ∷ xs) = f x + sum_by f xs

  -- Every row has the property; by recursion, so that it computes to a tuple.
  abbrev pub All {κ} : (A → Type κ) → List A → Type κ
  All P [] = Unit
  All P (x ∷ xs) = P x × All P xs

-- No two rows are the same by `same`: a unique constraint, or a primary key.
abbrev pub Unique {ℓ} : {A : Type ℓ} → (A → A → Bool) → List A → Type 0
Unique same [] = Unit
Unique same (x ∷ xs) = (any (same x) xs ≡ false) × Unique same xs

-- Sets of opaque identifiers, as lists.
abbrev pub contains : ℕ → List ℕ → Bool
contains a xs = any (λ x. x == a) xs

abbrev pub discard : ℕ → List ℕ → List ℕ
discard a xs = delete_where (λ x. x == a) xs

-- `set.add`
abbrev pub insert : ℕ → List ℕ → List ℕ
insert a xs = if contains a xs then xs else a ∷ xs

module _ {ℓ} {A : Type ℓ} where
  pub length-append : (xs ys : List A) → length (xs ++ ys) ≡ length xs + length ys
  length-append [] ys = omega arith
  length-append (x ∷ xs) ys = omega (arith, length-append xs ys)

  some_inj : (x y : A) → some x ≡ some y → x ≡ y
  some_inj x y h = ground arith

  pub find-test : (p : A → Bool) (xs : List A) (x : A) → find p xs ≡ some x → p x ≡ true
  find-test p [] x h = ground arith
  find-test p (y ∷ ys) x h = ground (arith, find-test p ys x)

  pub any_of_find : (p : A → Bool) (xs : List A) (x : A) → find p xs ≡ some x → any p xs ≡ true
  any_of_find p [] x h = ground arith
  any_of_find p (y ∷ ys) x h = ground (arith, any_of_find p ys x)

  -- the found row passes another test
  pub any_of_found :
      (p q : A → Bool) (xs : List A) (x : A) → find p xs ≡ some x → q x ≡ true → any q xs ≡ true
  any_of_found p q [] x h t = ground arith
  any_of_found p q (y ∷ ys) x h t = go (p y) refl (any_of_found p q ys x)
    where
      go :
          (b : Bool)
          → p y ≡ b
          → (find p ys ≡ some x → q x ≡ true → any q ys ≡ true)
          → any q (y ∷ ys) ≡ true
      go true e ih = ground (arith, ap q (some_inj y x (ground arith)))
      go false e ih = ground (arith, ih (ground arith) t)

  pub any_of_find-none : (p : A → Bool) (xs : List A) → find p xs ≡ none → any p xs ≡ false
  any_of_find-none p [] h = refl
  any_of_find-none p (y ∷ ys) h = ground (arith, any_of_find-none p ys)

  pub find_of_any-false : (p : A → Bool) (xs : List A) → any p xs ≡ false → find p xs ≡ none
  find_of_any-false p [] h = refl
  find_of_any-false p (y ∷ ys) h = ground (arith, find_of_any-false p ys)

  pub count_of_any-false : (p : A → Bool) (xs : List A) → any p xs ≡ false → count p xs ≡ 0
  count_of_any-false p [] h = refl
  count_of_any-false p (y ∷ ys) h = ground (arith, count_of_any-false p ys)

  pub count_pos : (p : A → Bool) (xs : List A) → any p xs ≡ true → 1 ≤ count p xs
  count_pos p [] h = ground arith
  count_pos p (y ∷ ys) h = ground (arith, count_pos p ys)

  -- A row that is looked for is not deleted.
  pub any-delete_where :
      (p q : A → Bool) (xs : List A)
      → All (λ x. p x ≡ true → q x ≡ false) xs
      → any p (delete_where q xs) ≡ any p xs
  any-delete_where p q [] h = refl
  any-delete_where p q (y ∷ ys) h = ground (arith, h.0, any-delete_where p q ys h.1)

  pub any-delete_where_self : (p : A → Bool) (xs : List A) → any p (delete_where p xs) ≡ false
  any-delete_where_self p [] = refl
  any-delete_where_self p (y ∷ ys) = ground (arith, any-delete_where_self p ys)

  pub count-delete_where :
      (p q : A → Bool) (xs : List A)
      → All (λ x. p x ≡ true → q x ≡ false) xs
      → count p (delete_where q xs) ≡ count p xs
  count-delete_where p q [] h = refl
  count-delete_where p q (y ∷ ys) h = ground (arith, h.0, count-delete_where p q ys h.1)

  pub count-delete_where-le :
      (p q : A → Bool) (xs : List A) → count p (delete_where q xs) ≤ count p xs
  count-delete_where-le p q [] = omega arith
  count-delete_where-le p q (y ∷ ys) = ground (arith, count-delete_where-le p q ys)

  -- An update that does not change the test does not change the counts.
  pub count-update_where :
      (p q : A → Bool) (f : A → A) (xs : List A)
      → All (λ x. q x ≡ true → p (f x) ≡ p x) xs
      → count p (update_where q f xs) ≡ count p xs
  count-update_where p q f [] h = refl
  count-update_where p q f (y ∷ ys) h = ground (arith, h.0, count-update_where p q f ys h.1)

  pub any-update_where :
      (p q : A → Bool) (f : A → A) (xs : List A)
      → All (λ x. q x ≡ true → p (f x) ≡ p x) xs
      → any p (update_where q f xs) ≡ any p xs
  any-update_where p q f [] h = refl
  any-update_where p q f (y ∷ ys) h = ground (arith, h.0, any-update_where p q f ys h.1)

  module _ {κ} (P : A → Type κ) where
    pub find-All : (p : A → Bool) (xs : List A) (x : A) → All P xs → find p xs ≡ some x → P x
    find-All p [] x h e = absurd (ground arith)
    find-All p (y ∷ ys) x h e = go (p y) refl (find-All p ys x h.1)
      where
        go : (b : Bool) → p y ≡ b → (find p ys ≡ some x → P x) → P x
        go true q ih = subst P (ground arith) h.0
        go false q ih = ih (ground arith)

    pub All-delete_where : (q : A → Bool) (xs : List A) → All P xs → All P (delete_where q xs)
    All-delete_where q [] h = tt
    All-delete_where q (y ∷ ys) h = ground (arith, All-delete_where q ys h.1)

    pub All-update_where :
        (q : A → Bool) (f : A → A) (xs : List A)
        → ((x : A) → q x ≡ true → P x → P (f x))
        → All P xs
        → All P (update_where q f xs)
    All-update_where q f [] k h = tt
    All-update_where q f (y ∷ ys) k h =
        elim (q y) as (λ b. (q y ≡ b) → P (if b then f y else y) × All P (update_where q f ys)) [
          | true ↦ λ e. (k y e h.0, All-update_where q f ys k h.1)
          | false ↦ λ e. (h.0, All-update_where q f ys k h.1)
        ]
          refl
