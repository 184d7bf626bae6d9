-- ===== src/Base/Dict.antt =====
-- A Python `dict` with keys that are only compared, and a Python `set` of such keys.
use mathlib.Core.Path.{◌≡◌, refl, subst}
use mathlib.Core.Logic.{inl, inr}
use mathlib.Core.Bool.{Bool, true, false, not, ◌&&◌, ◌||◌}
use mathlib.Core.Option.{Option, none, some}
use mathlib.Core.List.{List, [], ◌∷◌}
use native.Mathlib.Omega.{arith}
use Prim.Native.Nat.{ℕ}
use realynk.Base.Tests.{◌==◌, ==_eq, Bool-cases, if◌then◌else◌}
use realynk.Base.Lists.{contains, insert, discard}

abbrev pub Dict {ℓ} : Type ℓ → Type ℓ
Dict V = List (ℕ × V)

module _ {ℓ} {V : Type ℓ} where
  -- `d.get(k)`
  pub lookup : ℕ → Dict V → Option V
  lookup k [] = none
  lookup k ((j, v) ∷ d) = if j == k then some v else lookup k d

  -- `d.pop(k, None)`
  pub erase : ℕ → Dict V → Dict V
  erase k [] = []
  erase k ((j, v) ∷ d) = let rest = erase k d in if j == k then rest else (j, v) ∷ rest

  -- `d[k] = v`
  pub put : ℕ → V → Dict V → Dict V
  put k v d = (k, v) ∷ erase k d

  pub lookup-erase :
      (k j : ℕ) (d : Dict V) → lookup j (erase k d) ≡ (if k == j then none else lookup j d)
  unfolding lookup erase
  lookup-erase k j [] = ground arith
  lookup-erase k j ((i, v) ∷ d) = ground (arith, lookup-erase k j d)

  pub lookup-put :
      (k j : ℕ) (v : V) (d : Dict V)
      → lookup j (put k v d) ≡ (if k == j then some v else lookup j d)
  unfolding lookup put
  lookup-put k j v d = ground (arith, lookup-erase k j d)

pub lookup-nil {ℓ} : {V : Type ℓ} (k : ℕ) → lookup {V = V} k [] ≡ none
unfolding lookup
lookup-nil k = refl

-- A dict holds each key once.
abbrev pub KeysOnce {ℓ} : {V : Type ℓ} → Dict V → Type ℓ
KeysOnce [] = Unit
KeysOnce ((k, v) ∷ d) = (lookup k d ≡ none) × KeysOnce d

module _ {ℓ} {V : Type ℓ} where
  pub erase-KeysOnce : (k : ℕ) (d : Dict V) → KeysOnce d → KeysOnce (erase k d)
  unfolding erase
  erase-KeysOnce k [] h = tt
  erase-KeysOnce k ((j, v) ∷ d) h =
      let rest = erase-KeysOnce k d h.1 in
      elim (Bool-cases (j == k)) [
        | inl same ↦ rw same rest
        | inr other ↦ rw other (ground (arith, lookup-erase k j d, h.0), rest)
      ]

  pub put-KeysOnce : (k : ℕ) (v : V) (d : Dict V) → KeysOnce d → KeysOnce (put k v d)
  unfolding put
  put-KeysOnce k v d h = (ground (arith, lookup-erase k k d), erase-KeysOnce k d h)

  pub lookup-cons :
      (k j : ℕ) (v : V) (d : Dict V)
      → lookup j ((k, v) ∷ d) ≡ (if k == j then some v else lookup j d)
  unfolding lookup
  lookup-cons k j v d = refl

-- opens the representation, for tests
unfoldable pub dict_tests : Unit {0}
unfolding lookup erase put
dict_tests = tt

pub contains-insert :
    (a b : ℕ) (xs : List ℕ) → contains b (insert a xs) ≡ ((a == b) || contains b xs)
contains-insert a b xs = elim (Bool-cases (contains a xs)) [
  | inl old ↦ rw old (elim (Bool-cases (a == b)) [
    | inl same ↦ rw same (subst (λ c. contains c xs ≡ true) (==_eq a b same) old)
    | inr other ↦ rw other
  ])
  | inr new ↦ rw new
]

pub contains-discard :
    (a b : ℕ) (xs : List ℕ) → contains b (discard a xs) ≡ (not (a == b) && contains b xs)
contains-discard a b [] = ground arith
contains-discard a b (x ∷ xs) = ground (arith, contains-discard a b xs)

-- `bool(s)` of a set
abbrev pub is_nonempty : List ℕ → Bool
is_nonempty [] = false
is_nonempty (x ∷ xs) = true

pub contains-nil : (a : ℕ) (xs : List ℕ) → is_nonempty xs ≡ false → contains a xs ≡ false
contains-nil a [] h = refl
contains-nil a (x ∷ xs) h = ground arith

pub contains-nonempty : (a : ℕ) (xs : List ℕ) → contains a xs ≡ true → is_nonempty xs ≡ true
contains-nonempty a [] h = ground arith
contains-nonempty a (x ∷ xs) h = refl

pub insert-nonempty : (a : ℕ) (xs : List ℕ) → is_nonempty (insert a xs) ≡ true
insert-nonempty a xs = elim (Bool-cases (contains a xs)) [
  | inl old ↦ rw old (contains-nonempty a xs old)
  | inr new ↦ rw new
]

-- A set that is not empty has a member.
pub member_of : (xs : List ℕ) → is_nonempty xs ≡ true → (a : ℕ) × (contains a xs ≡ true)
member_of [] h = absurd (ground arith)
member_of (x ∷ xs) h = (x, ground arith)
