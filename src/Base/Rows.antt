-- ===== src/Base/Rows.antt =====
-- Properties of all rows of a table, and rows that a unique key determines.
use mathlib.Core.Path.{◌≡◌, refl, ap}
use mathlib.Core.Bool.{Bool, true, false}
use mathlib.Core.Option.{Option, none, some}
use mathlib.Core.List.{List, [], ◌∷◌}
use native.Mathlib.Omega.{arith}
use realynk.Base.Tests.{if◌then◌else◌}
use realynk.Base.Lists.{delete_where, update_where, map_found, find, any, All, Unique, find-All}

module _ {ℓ} {A : Type ℓ} where
  pub All-of {κ} : (P : A → Type κ) (xs : List A) → ((x : A) → P x) → All P xs
  All-of P [] h = tt
  All-of P (x ∷ xs) h = (h x, All-of P xs h)

  pub All-map {κ ι} :
      (P : A → Type κ) (Q : A → Type ι) (xs : List A) → ((x : A) → P x → Q x) → All P xs → All Q xs
  All-map P Q [] f h = tt
  All-map P Q (x ∷ xs) f h = (f x h.0, All-map P Q xs f h.1)

  pub All-map₂ {κ ι ν} :
      (P : A → Type κ) (Q : A → Type ι) (R : A → Type ν) (xs : List A)
      → ((x : A) → P x → Q x → R x)
      → All P xs
      → All Q xs
      → All R xs
  All-map₂ P Q R [] f h k = tt
  All-map₂ P Q R (x ∷ xs) f h k = (f x h.0 k.0, All-map₂ P Q R xs f h.1 k.1)

  pub any_of_All-false : (p : A → Bool) (xs : List A) → All (λ x. p x ≡ false) xs → any p xs ≡ false
  any_of_All-false p [] h = refl
  any_of_All-false p (x ∷ xs) h = ground (arith, any_of_All-false p xs h.1)

  pub All-delete_where_ne {κ ι} :
      (P : A → Type κ) (Q : A → Type ι) (q : A → Bool) (xs : List A)
      → ((x : A) → q x ≡ false → P x → Q x)
      → All P xs
      → All Q (delete_where q xs)
  All-delete_where_ne P Q q [] f h = tt
  All-delete_where_ne P Q q (x ∷ xs) f h =
      let rest = All-delete_where_ne P Q q xs f h.1 in
      (elim (q x)
          as (λ b. q x ≡ b → All Q (if b then delete_where q xs else x ∷ delete_where q xs)) [
            | true ↦ λ e. rest
            | false ↦ λ e. (f x e h.0, rest)
          ])
        refl

  pub All-of_any-false : (p : A → Bool) (xs : List A) → any p xs ≡ false → All (λ x. p x ≡ false) xs
  All-of_any-false p [] h = tt
  All-of_any-false p (x ∷ xs) h = (ground arith, All-of_any-false p xs (ground arith))

  -- The row that a query finds is the only one with its key.
  pub Unique-find :
      (same : A → A → Bool) (p : A → Bool) (xs : List A) (t : A)
      → ((x y : A) → same x y ≡ same y x)
      → Unique same xs
      → find p xs ≡ some t
      → All (λ x. same x t ≡ true → x ≡ t) xs
  Unique-find same p [] t symm u e = tt
  Unique-find same p (y ∷ ys) t symm u e = go (p y) refl (λ f. Unique-find same p ys t symm u.1 f)
    where
      others : y ≡ t → All (λ x. same x t ≡ true → x ≡ t) ys
      others yt =
          All-map (λ x. same y x ≡ false) (λ x. same x t ≡ true → x ≡ t) ys
            (λ x n s. absurd (ground (arith, symm x t))) (All-of_any-false (same y) ys u.0)

      not_first : find p ys ≡ some t → same y t ≡ false
      not_first f = find-All (λ x. same y x ≡ false) p ys t (All-of_any-false (same y) ys u.0) f

      go :
          (b : Bool)
          → p y ≡ b
          → (find p ys ≡ some t → All (λ x. same x t ≡ true → x ≡ t) ys)
          → All (λ x. same x t ≡ true → x ≡ t) (y ∷ ys)
      go true q ih = (λ s. ground arith, others (ground arith))
      go false q ih =
          let f : find p ys ≡ some t = ground arith in
          (λ s. absurd (ground (arith, not_first f)), ih f)

-- the one query of an updated table, where the update does not change the query's test
pub find-update_where {ℓ} :
    {A : Type ℓ} (p q : A → Bool) (f : A → A) (xs : List A)
    → ((x : A) → p (f x) ≡ p x)
    → (b : Bool) → ((x : A) → p x ≡ true → q x ≡ b)
    → find p (update_where q f xs) ≡ map_found (λ x. if b then f x else x) (find p xs)
find-update_where p q f [] same b h = refl
find-update_where p q f (x ∷ xs) same b h =
    ground (arith, find-update_where p q f xs same b h, same x, h x)

pub map_found_same {ℓ} : {A : Type ℓ} (o : Option A) → map_found (λ x. x) o ≡ o
map_found_same none = refl
map_found_same (some x) = refl

some_row {ℓ} : {A : Type ℓ} (x y : A) → some x ≡ some y → x ≡ y
some_row x y h = ground arith

-- the row that a query finds, once it is updated
pub find-update_where_found {ℓ} :
    {A : Type ℓ} (p q : A → Bool) (f : A → A) (xs : List A) (t : A)
    → ((x : A) → p (f x) ≡ p x)
    → q t ≡ true
    → find p xs ≡ some t
    → find p (update_where q f xs) ≡ some (f t)
find-update_where_found p q f [] t same qt e = ground arith
find-update_where_found p q f (x ∷ xs) t same qt e =
    go (p x) refl (find-update_where_found p q f xs t same qt)
  where
    go :
        (b : Bool)
        → p x ≡ b
        → (find p xs ≡ some t → find p (update_where q f xs) ≡ some (f t))
        → find p (update_where q f (x ∷ xs)) ≡ some (f t)
    go true h ih =
        ground
          (arith, same x, ap q (some_row x t (ground arith)), ap f (some_row x t (ground arith)))
    go false h ih = ground (arith, same x, ih (ground arith))
