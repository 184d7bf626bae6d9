-- ===== src/Attachments/Filenames.antt =====
-- `sanitize_filename` of app/validators/attachment_validator.py, and `os.path.splitext`. Whether a
-- character is a letter, a digit or `_` (the `\w` of a regular expression) is the parameter `is_word`.
use mathlib.Core.List.{reverse, reverse_aux}
use realynk.Base.{
  ℕ, zero, suc, ◌≤◌, ◌≡◌, refl, Bool, true, false, not, ◌||◌, Option, none, some, [], ◌∷◌, map,
  Text, arith, ◌==◌, any, All, if◌then◌else◌, is_empty, length, filter,
}

-- `filename.replace("\\", "/")`
abbrev slash : ℕ → ℕ
slash c = if c == 92 then 47 else c

-- `.split("/")[-1]`
abbrev last_part : Text → Text
last_part [] = []
last_part (c ∷ s) =
    let rest = last_part s in if any (λ x. x == 47) s then rest else if c == 47 then s else c ∷ s

abbrev is_trimmed : ℕ → Bool
is_trimmed c = c == 32 || c == 46

trim_left : Text → Text
trim_left [] = []
trim_left (c ∷ s) = let rest = trim_left s in if is_trimmed c then rest else c ∷ s

-- `.strip(" .")`
trim : Text → Text
trim s = reverse (trim_left (reverse (trim_left s)))

-- `[:n]`
abbrev pub first : ℕ → Text → Text
first zero s = []
first (suc n) [] = []
first (suc n) (c ∷ s) = c ∷ first n s

-- the characters that the regular expression keeps: `\w`, `.`, `(`, `)`, `-` and the blank
abbrev pub is_kept : (ℕ → Bool) → ℕ → Bool
is_kept is_word c = is_word c || c == 46 || c == 40 || c == 41 || c == 45 || c == 32

abbrev masked : (ℕ → Bool) → ℕ → ℕ
masked is_word c = if is_kept is_word c then c else 95

-- The name, or none where nothing is left of it.
unfoldable pub sanitize_filename : (ℕ → Bool) → Text → Option Text
unfolding trim trim_left
sanitize_filename is_word filename =
    let name =
      trim (map (masked is_word) (filter (λ c. not (c == 0)) (last_part (map slash filename)))) in
    if is_empty name then none else some (first 255 name)

-- the part in front of the first dot, and what follows from the dot on
abbrev until_dot : Text → Text × Text
until_dot [] = ([], [])
until_dot (c ∷ s) =
    let (before, rest) = until_dot s in if c == 46 then ([], c ∷ s) else (c ∷ before, rest)

abbrev suffix : Text → Text → Text
suffix before [] = []
suffix before (dot ∷ rest) = if any (λ c. not (c == 46)) rest then 46 ∷ reverse before else []

-- `os.path.splitext(name)[1]`, for a name without a slash: the last dot with what follows it, where
-- something else than a dot stands before it
unfoldable pub extension_of : Text → Text
extension_of name = let (before, rest) = until_dot (reverse name) in suffix before rest

module _ (P : ℕ → Type 0) where
  All-reverse_aux : (s t : Text) → All P s → All P t → All P (reverse_aux s t)
  All-reverse_aux [] t h k = k
  All-reverse_aux (c ∷ s) t h k = All-reverse_aux s (c ∷ t) h.1 (h.0, k)

  All-trim_left : (s : Text) → All P s → All P (trim_left s)
  unfolding trim_left
  All-trim_left [] h = tt
  All-trim_left (c ∷ s) h = go (is_trimmed c) (All-trim_left s h.1)
    where
      go : (b : Bool) → All P (trim_left s) → All P (if b then trim_left s else c ∷ s)
      go true k = k
      go false k = h

  All-trim : (s : Text) → All P s → All P (trim s)
  unfolding trim
  All-trim s h =
      All-reverse_aux (trim_left (reverse (trim_left s))) []
        (All-trim_left (reverse (trim_left s))
          (All-reverse_aux (trim_left s) [] (All-trim_left s h) tt))
        tt

  All-first : (n : ℕ) (s : Text) → All P s → All P (first n s)
  All-first zero s h = tt
  All-first (suc n) [] h = tt
  All-first (suc n) (c ∷ s) h = (h.0, All-first n s h.1)

length-first : (n : ℕ) (s : Text) → length (first n s) ≤ n
length-first zero s = omega arith
length-first (suc n) [] = omega arith
length-first (suc n) (c ∷ s) = omega (arith, length-first n s)

-- a character that a sanitized name may have
abbrev pub is_safe : (ℕ → Bool) → ℕ → Bool
is_safe is_word c = is_kept is_word c || c == 95

All-masked :
    (is_word : ℕ → Bool) (s : Text) → All (λ c. is_safe is_word c ≡ true) (map (masked is_word) s)
All-masked is_word [] = tt
All-masked is_word (c ∷ s) = (safe (is_kept is_word c) refl, All-masked is_word s)
  where
    safe : (b : Bool) → is_kept is_word c ≡ b → is_safe is_word (masked is_word c) ≡ true
    safe true e = ground (arith, e)
    safe false e = ground (arith, e)

abbrev pub IsSafeName : (ℕ → Bool) → Option Text → Type 0
IsSafeName is_word none = Unit {0}
IsSafeName is_word (some name) =
    (is_empty name ≡ false) × (length name ≤ 255) × All (λ c. is_safe is_word c ≡ true) name

-- A sanitized name is not empty, has at most 255 characters, and each of them is one that the
-- regular expression keeps, or an underscore.
pub sanitize_filename-IsSafeName :
    (is_word : ℕ → Bool) (filename : Text) → IsSafeName is_word (sanitize_filename is_word filename)
unfolding sanitize_filename
sanitize_filename-IsSafeName is_word filename =
    go (trim (map (masked is_word) (filter (λ c. not (c == 0)) (last_part (map slash filename))))) (
      All-trim (λ c. is_safe is_word c ≡ true) _
        (All-masked is_word (filter (λ c. not (c == 0)) (last_part (map slash filename)))))
  where
    go :
        (s : Text)
        → All (λ c. is_safe is_word c ≡ true) s
        → IsSafeName is_word (if is_empty s then none else some (first 255 s))
    go [] h = tt
    go (c ∷ s) h =
        (refl, length-first 255 (c ∷ s), All-first (λ c. is_safe is_word c ≡ true) 255 (c ∷ s) h)

extension_runs : extension_of (46 ∷ 97 ∷ 46 ∷ 98 ∷ 46 ∷ 99 ∷ []) ≡ 46 ∷ 99 ∷ []
unfolding extension_of
extension_runs = refl
