-- ===== src/Config/Parsing.antt =====
-- What Python's `int` and `str.split` do with the text of a setting, and the parsers of
-- app/config.py. `int` is modelled on ASCII digits.
use realynk.Base.{
  ℕ, zero, suc, ◌+◌, ◌*◌, ◌-◌, ◌≤◌, ◌≡◌, refl, Bool, true, false, not, ◌&&◌, ◌||◌, Option, none,
  some, List, [], ◌∷◌, Text, codes, arith, ◌==◌, any, filter, map, is_empty, leb, ltb, strip,
  text_eq, if◌then◌else◌,
}

-- the result of reading a setting: a value, or a `ConfigurationError` with the setting's name
pub data Loaded {ℓ} (A : Type ℓ) : Type ℓ where
  loaded : A → Loaded A
  configuration_error : Text → Loaded A

module _ {A B : Type 0} where
  infixl 5 ◌>>=◌
  unfoldable pub ◌>>=◌ : Loaded A → (A → Loaded B) → Loaded B
  loaded a >>= f = f a
  configuration_error name >>= f = configuration_error name

abbrev Holds : {A : Type 0} → (A → Type 0) → Loaded A → Type 0
Holds P (loaded a) = P a
Holds P (configuration_error name) = Unit {0}

-- A value that is read has the property.
pub record Loads {A : Type 0} (P : A → Type 0) (m : Loaded A) : Type 0 where
  pub at : Holds P m

pub Loads-loaded : {A : Type 0} {P : A → Type 0} (a : A) → P a → Loads P (loaded a)
Loads-loaded a h = record { at = h }

pub Loads-error : {A : Type 0} {P : A → Type 0} (name : Text) → Loads P (configuration_error name)
Loads-error name = record { at = tt }

pub Loads-bind :
    {A B : Type 0} {P : A → Type 0} {Q : B → Type 0} (m : Loaded A) (f : A → Loaded B)
    → Loads P m
    → ((a : A) → P a → Loads Q (f a))
    → Loads Q (m >>= f)
unfolding ◌>>=◌
Loads-bind (loaded a) f h k = k a h.at
Loads-bind (configuration_error name) f h k = record { at = tt }

-- a value of which nothing is needed
pub Loads-any :
    {A B : Type 0} {Q : B → Type 0} (m : Loaded A) (f : A → Loaded B)
    → ((a : A) → Loads Q (f a))
    → Loads Q (m >>= f)
unfolding ◌>>=◌
Loads-any (loaded a) f k = k a
Loads-any (configuration_error name) f k = record { at = tt }

-- `if c: raise ConfigurationError(…)`
unfoldable pub reject_if : Bool → Text → Loaded (Unit {0})
reject_if true name = configuration_error name
reject_if false name = loaded tt

pub Loads-reject_if :
    {B : Type 0} {Q : B → Type 0} (c : Bool) (name : Text) (m : Loaded B)
    → (c ≡ false → Loads Q m)
    → Loads Q (reject_if c name >>= λ _. m)
unfolding ◌>>=◌ reject_if
Loads-reject_if true name m k = record { at = tt }
Loads-reject_if false name m k = k refl

-- the integers
pub data ℤ : Type 0 where
  pos negsuc : ℕ → ℤ

abbrev is_digit : ℕ → Bool
is_digit c = leb 48 c && leb c 57

-- Digits with single underscores between them; `after` tells whether a digit came before.
abbrev digits : Text → Bool → ℕ → Option ℕ
digits [] after n = if after then some n else none
digits (c ∷ s) after n =
    let number = digits s true (n * 10 + (c - 48)) in
    let gap = digits s false n in
    if is_digit c then number else if (c == 95) && after then gap else none

abbrev negated : ℕ → ℤ
negated zero = pos zero
negated (suc n) = negsuc n

abbrev with_sign : (ℕ → ℤ) → Option ℕ → Option ℤ
with_sign f none = none
with_sign f (some n) = some (f n)

abbrev signed : Text → Option ℤ
signed [] = none
signed (c ∷ s) =
    if c == 45
    then with_sign negated (digits s false 0)
    else if c == 43
    then with_sign pos (digits s false 0)
    else with_sign pos (digits (c ∷ s) false 0)

-- `int(value)`
unfoldable pub int_of : Text → Option ℤ
unfolding strip
int_of value = signed (strip value)

int_runs : int_of (codes " -1_000 ") ≡ some (negsuc 999)
unfolding int_of
int_runs = refl

abbrev or_configuration_error : {A : Type 0} → Text → Option A → Loaded A
or_configuration_error name none = configuration_error name
or_configuration_error name (some a) = loaded a

unfoldable pub as_int : Text → Text → Loaded ℤ
as_int value name = or_configuration_error name (int_of value)

-- `maximum is not None and value > maximum`
abbrev pub is_above : Option ℕ → ℕ → Bool
is_above none n = false
is_above (some maximum) n = ltb maximum n

unfoldable pub positive : ℤ → Text → Option ℕ → Loaded ℕ
positive (negsuc n) name maximum = configuration_error name
positive (pos n) name maximum =
    if (n == 0) || is_above maximum n then configuration_error name else loaded n

-- `if value < 0 or value > maximum`
unfoldable pub at_most : ℕ → ℤ → Text → Loaded ℕ
at_most maximum (negsuc n) name = configuration_error name
at_most maximum (pos n) name = if ltb maximum n then configuration_error name else loaded n

abbrev pub is_one_of : List Text → Text → Bool
is_one_of texts s = any (λ t. text_eq s t) texts

-- `str.split` on a character
pub split_on : ℕ → Text → List Text
split_on sep [] = [] ∷ []
split_on sep (c ∷ s) =
    let rest = split_on sep s in if c == sep then [] ∷ rest else begin_with c rest
  where
    begin_with : ℕ → List Text → List Text
    begin_with c [] = (c ∷ []) ∷ []
    begin_with c (t ∷ ts) = (c ∷ t) ∷ ts

-- `a or b` on strings
abbrev pub or_default : Text → Text → Text
or_default [] default = default
or_default (c ∷ s) default = c ∷ s

-- `[part.strip() for part in value.split(",") if part.strip()]`
unfoldable pub parts_of : Text → List Text
unfolding split_on
parts_of value = filter (λ part. not (is_empty part)) (map (λ part. strip part) (split_on 44 value))

module _ (lower : Text → Text) where
  unfoldable pub as_bool : Text → Text → Loaded Bool
  as_bool value name =
      if is_one_of (codes "1" ∷ codes "true" ∷ codes "yes" ∷ []) (lower (strip value))
      then loaded true
      else if is_one_of (codes "0" ∷ codes "false" ∷ codes "no" ∷ []) (lower (strip value))
      then loaded false
      else configuration_error name

-- The postconditions of the parsers.
pub positive-Loads :
    (value : ℤ) (name : Text) (maximum : ℕ)
    → Loads (λ n. (1 ≤ n) × (n ≤ maximum)) (positive value name (some maximum))
unfolding positive
positive-Loads (negsuc n) name maximum = Loads-error name
positive-Loads (pos n) name maximum =
    (elim ((n == 0) || ltb maximum n)
        as (λ b.
          ((n == 0) || ltb maximum n) ≡ b
          → Loads (λ n. (1 ≤ n) × (n ≤ maximum))
              (if b then configuration_error name else loaded n)) [
                | true ↦ λ e. Loads-error name
                | false ↦ λ e. Loads-loaded n (ground (arith, e), ground (arith, e))
              ])
      refl

pub positive_any-Loads : (value : ℤ) (name : Text) → Loads (λ n. 1 ≤ n) (positive value name none)
unfolding positive
positive_any-Loads (negsuc n) name = Loads-error name
positive_any-Loads (pos n) name =
    (elim ((n == 0) || false)
        as (λ b.
          ((n == 0) || false) ≡ b
          → Loads (λ n. 1 ≤ n) (if b then configuration_error name else loaded n)) [
            | true ↦ λ e. Loads-error name
            | false ↦ λ e. Loads-loaded n (ground (arith, e))
          ])
      refl

pub at_most-Loads :
    (maximum : ℕ) (value : ℤ) (name : Text) → Loads (λ n. n ≤ maximum) (at_most maximum value name)
unfolding at_most
at_most-Loads maximum (negsuc n) name = Loads-error name
at_most-Loads maximum (pos n) name =
    (elim (ltb maximum n)
        as (λ b.
          ltb maximum n ≡ b
          → Loads (λ n. n ≤ maximum) (if b then configuration_error name else loaded n)) [
            | true ↦ λ e. Loads-error name
            | false ↦ λ e. Loads-loaded n (ground (arith, e))
          ])
      refl
