-- ===== src/Notifications/Paging/Sorting.antt =====
-- The order of the list of notifications, and the rows that a test splits off.
use mathlib.Core.List.{Perm, perm_middle}
use mathlib.Core.List.Perm
use realynk.Base.{
  suc, ◌≤◌, ◌<◌, ◌≡◌, ◌⊎◌, ◌∙◌, refl, ap, Bool, true, false, not, List, [], ◌∷◌, ◌++◌, arith, All,
  All-map, count, filter, length, if◌then◌else◌,
}
use realynk.Models.{Notification}
use realynk.Notifications.Paging.{is_newer, insert_newest, newest_first}

-- `y` is older than `x`, or as old and not of a greater id
abbrev pub IsOlder : Notification → Notification → Type 0
IsOlder x y = (y.created_at < x.created_at) ⊎ ((y.created_at ≡ x.created_at) × (y.id ≤ x.id))

abbrev pub IsNewestFirst : List Notification → Type 0
IsNewestFirst [] = Unit
IsNewestFirst (x ∷ xs) = All (IsOlder x) xs × IsNewestFirst xs

newer : (a b : Notification) → is_newer a b ≡ true → IsOlder a b
newer a b h = ground (arith, h)

not_newer : (a b : Notification) → is_newer a b ≡ false → IsOlder b a
not_newer a b h = ground (arith, h)

IsOlder-trans : (a b c : Notification) → IsOlder a b → IsOlder b c → IsOlder a c
IsOlder-trans a b c h k = ground (arith, h, k)

insert_newest-perm :
    (n : Notification) (xs : List Notification) → Perm (insert_newest n xs) (n ∷ xs)
unfolding insert_newest
insert_newest-perm n [] = Perm.refl (n ∷ [])
insert_newest-perm n (x ∷ xs) =
    go (is_newer x n) (Perm.trans (Perm.cons x (insert_newest-perm n xs)) (Perm.swap n x xs))
  where
    go :
        (b : Bool)
        → Perm (x ∷ insert_newest n xs) (n ∷ x ∷ xs)
        → Perm (if b then x ∷ insert_newest n xs else n ∷ x ∷ xs) (n ∷ x ∷ xs)
    go true p = p
    go false p = Perm.refl (n ∷ x ∷ xs)

pub newest_first-perm : (xs : List Notification) → Perm (newest_first xs) xs
unfolding newest_first
newest_first-perm [] = Perm.refl []
newest_first-perm (x ∷ xs) =
    Perm.trans (insert_newest-perm x (newest_first xs)) (Perm.cons x (newest_first-perm xs))

All-insert_newest :
    (P : Notification → Type 0) (n : Notification) (xs : List Notification)
    → P n
    → All P xs
    → All P (insert_newest n xs)
unfolding insert_newest
All-insert_newest P n [] h k = (h, tt)
All-insert_newest P n (x ∷ xs) h k = go (is_newer x n) (All-insert_newest P n xs h k.1)
  where
    go :
        (b : Bool)
        → All P (insert_newest n xs)
        → All P (if b then x ∷ insert_newest n xs else n ∷ x ∷ xs)
    go true p = (k.0, p)
    go false p = (h, k)

pub All-newest_first :
    (P : Notification → Type 0) (xs : List Notification) → All P xs → All P (newest_first xs)
unfolding newest_first
All-newest_first P [] h = tt
All-newest_first P (x ∷ xs) h =
    All-insert_newest P x (newest_first xs) h.0 (All-newest_first P xs h.1)

insert_newest-IsNewestFirst :
    (n : Notification) (xs : List Notification)
    → IsNewestFirst xs
    → IsNewestFirst (insert_newest n xs)
unfolding insert_newest
insert_newest-IsNewestFirst n [] h = (tt, tt)
insert_newest-IsNewestFirst n (x ∷ xs) h =
    go (is_newer x n) refl (insert_newest-IsNewestFirst n xs h.1)
  where
    go :
        (b : Bool)
        → is_newer x n ≡ b
        → IsNewestFirst (insert_newest n xs)
        → IsNewestFirst (if b then x ∷ insert_newest n xs else n ∷ x ∷ xs)
    go true e p = (All-insert_newest (IsOlder x) n xs (newer x n e) h.0, p)
    go false e p = (
      (
        not_newer x n e,
        All-map (IsOlder x) (IsOlder n) xs (λ y k. IsOlder-trans n x y (not_newer x n e) k) h.0,
      ),
      h,
    )

pub newest_first-IsNewestFirst : (xs : List Notification) → IsNewestFirst (newest_first xs)
unfolding newest_first
newest_first-IsNewestFirst [] = tt
newest_first-IsNewestFirst (x ∷ xs) =
    insert_newest-IsNewestFirst x (newest_first xs) (newest_first-IsNewestFirst xs)

module _ (p : Notification → Bool) where
  pub filter-parts : (xs : List Notification) → Perm (filter p xs ++ filter (λ x. not (p x)) xs) xs
  filter-parts [] = Perm.refl []
  filter-parts (x ∷ xs) = go (p x) (filter-parts xs)
    where
      go :
          (b : Bool)
          → Perm (filter p xs ++ filter (λ x. not (p x)) xs) xs
          → Perm
              ((if b then x ∷ filter p xs else filter p xs)
                ++ (if not b then x ∷ filter (λ x. not (p x)) xs else filter (λ x. not (p x)) xs))
              (x ∷ xs)
      go true h = Perm.cons x h
      go false h =
          Perm.trans (perm_middle (filter p xs) (filter (λ x. not (p x)) xs)) (Perm.cons x h)

  pub All-filter : (xs : List Notification) → All (λ x. p x ≡ true) (filter p xs)
  All-filter [] = tt
  All-filter (x ∷ xs) = ground (arith, All-filter xs)

length-insert_newest :
    (n : Notification) (xs : List Notification) → length (insert_newest n xs) ≡ suc (length xs)
unfolding insert_newest
length-insert_newest n [] = refl
length-insert_newest n (x ∷ xs) = ground (arith, length-insert_newest n xs)

pub length-newest_first : (xs : List Notification) → length (newest_first xs) ≡ length xs
unfolding newest_first
length-newest_first [] = refl
length-newest_first (x ∷ xs) =
    length-insert_newest x (newest_first xs) ∙ ap suc (length-newest_first xs)

pub length-filter :
    (p : Notification → Bool) (xs : List Notification) → length (filter p xs) ≡ count p xs
length-filter p [] = refl
length-filter p (x ∷ xs) = ground (arith, length-filter p xs)
