-- ===== src/Base/Pages.antt =====
-- `OFFSET` and `LIMIT`: the pages of a list of rows.
use Prim.Native.Nat.{ℕ, zero, suc, ◌+◌, ◌-◌, ◌*◌, ◌≤◌}
use mathlib.Core.Path.{◌≡◌, refl, sym, ap, ◌∙◌}
use mathlib.Core.List.{List, [], ◌∷◌, ◌++◌}
use native.Mathlib.Omega.{arith}
use realynk.Base.Lists.{length}

one_less : (n : ℕ) → suc n - 1 ≡ n
one_less n = omega arith

module _ {A : Type 0} where
  abbrev pub drop : ℕ → List A → List A
  drop zero xs = xs
  drop (suc n) [] = []
  drop (suc n) (x ∷ xs) = drop n xs

  abbrev pub take : ℕ → List A → List A
  take zero xs = []
  take (suc n) [] = []
  take (suc n) (x ∷ xs) = x ∷ take n xs

  -- page `page`, counted from 1, with `limit` rows
  abbrev pub page_of : ℕ → ℕ → List A → List A
  page_of page limit xs = take limit (drop ((page - 1) * limit) xs)

  -- the first `n` pages, in order
  unfoldable pub first_pages : ℕ → ℕ → List A → List A
  first_pages zero limit xs = []
  first_pages (suc n) limit xs = first_pages n limit xs ++ page_of (suc n) limit xs

  -- the number of rows may be written in another way
  take-same : (m n : ℕ) (xs : List A) → m ≡ n → take m xs ≡ take n xs
  take-same m n xs e = ap (λ k. take k xs) e

  take-nil : (n : ℕ) → take n [] ≡ []
  take-nil zero = refl
  take-nil (suc n) = refl

  take-add : (m n : ℕ) (xs : List A) → take m xs ++ take n (drop m xs) ≡ take (m + n) xs
  take-add zero n xs = take-same n (zero + n) xs (omega arith)
  take-add (suc m) n [] = take-nil n ∙ sym (take-nil (suc m + n))
  take-add (suc m) n (x ∷ xs) =
      ap (λ ys. x ∷ ys) (take-add m n xs)
      ∙ take-same (suc (m + n)) (suc m + n) (x ∷ xs) (omega arith)

  take_all : (n : ℕ) (xs : List A) → length xs ≤ n → take n xs ≡ xs
  take_all zero [] h = refl
  take_all zero (x ∷ xs) h = absurd (omega arith)
  take_all (suc n) [] h = refl
  take_all (suc n) (x ∷ xs) h = ap (λ ys. x ∷ ys) (take_all n xs (omega arith))

  first_pages-take : (n limit : ℕ) (xs : List A) → first_pages n limit xs ≡ take (n * limit) xs
  unfolding first_pages
  first_pages-take zero limit xs = take-same zero (zero * limit) xs (omega arith)
  first_pages-take (suc n) limit xs =
      ap (λ ys. ys ++ page_of (suc n) limit xs) (first_pages-take n limit xs)
      ∙ ap (λ k. take (n * limit) xs ++ take limit (drop (k * limit) xs)) (one_less n)
      ∙ take-add (n * limit) limit xs
      ∙ take-same (n * limit + limit) (suc n * limit) xs (omega arith)

  -- Enough pages are all rows, each of them once and in order.
  pub first_pages_all :
      (n limit : ℕ) (xs : List A) → length xs ≤ n * limit → first_pages n limit xs ≡ xs
  first_pages_all n limit xs h = first_pages-take n limit xs ∙ take_all (n * limit) xs h
