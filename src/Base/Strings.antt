-- ===== src/Base/Strings.antt =====
-- Python's `str` as a list of code points, and the methods of it that the program calls.
use Prim.Native.Nat.{ℕ}
use Prim.Native.Char.{code}
use Prim.Native.String.{String}
use mathlib.Core.Path.{◌≡◌, refl}
use mathlib.Core.Bool.{Bool, true, false, ◌&&◌, ◌||◌}
use mathlib.Core.List.{List, [], ◌∷◌, reverse}
use native.Mathlib.Omega.{arith}
use realynk.Base.Tests.{◌==◌, leb, if◌then◌else◌}

abbrev pub Text : Type 0
Text = List ℕ

abbrev pub codes : String → Text
codes String.[] = []
codes (String.◌∷◌ c s) = code c ∷ codes s

abbrev between : ℕ → ℕ → ℕ → Bool
between lo hi c = leb lo c && leb c hi

-- `str.isspace` on one character: the code points that `str.strip` removes.
unfoldable pub is_space : ℕ → Bool
is_space c =
    between 9 13 c
    || between 28 32 c
    || c == 0x85
    || c == 0xa0
    || c == 0x1680
    || between 0x2000 0x200a c
    || between 0x2028 0x2029 c
    || c == 0x202f
    || c == 0x205f
    || c == 0x3000

pub strip_left : Text → Text
strip_left [] = []
strip_left (c ∷ s) = let rest = strip_left s in if is_space c then rest else c ∷ s

-- `str.strip`
unfoldable pub strip : Text → Text
unfolding strip_left is_space
strip s = reverse (strip_left (reverse (strip_left s)))

abbrev pub is_empty : Text → Bool
is_empty [] = true
is_empty (c ∷ s) = false

-- `==` on strings
abbrev pub text_eq : Text → Text → Bool
text_eq [] [] = true
text_eq [] (d ∷ t) = false
text_eq (c ∷ s) [] = false
text_eq (c ∷ s) (d ∷ t) = (c == d) && text_eq s t

pub text_eq_refl : (s : Text) → text_eq s s ≡ true
text_eq_refl [] = refl
text_eq_refl (c ∷ s) = ground (arith, text_eq_refl s)

pub text_eq_eq : (s t : Text) → text_eq s t ≡ true → s ≡ t
text_eq_eq [] [] h = refl
text_eq_eq [] (d ∷ t) h = ground arith
text_eq_eq (c ∷ s) [] h = ground arith
text_eq_eq (c ∷ s) (d ∷ t) h = ground (arith, text_eq_eq s t)

-- `str.partition(" ")`, without the separator
abbrev pub partition_space : Text → Text × Text
partition_space [] = ([], [])
partition_space (c ∷ s) =
    let (before, after) = partition_space s in if c == 32 then ([], s) else (c ∷ before, after)

-- `str.startswith`
abbrev pub starts_with : Text → Text → Bool
starts_with [] s = true
starts_with (c ∷ p) [] = false
starts_with (c ∷ p) (d ∷ s) = (c == d) && starts_with p s

-- what is left of a text behind the length of another
abbrev pub drop_like : Text → Text → Text
drop_like [] s = s
drop_like (c ∷ p) [] = []
drop_like (c ∷ p) (d ∷ s) = drop_like p s

-- `str.removeprefix`
abbrev pub remove_prefix : Text → Text → Text
remove_prefix p s = if starts_with p s then drop_like p s else s

strip_example : strip (codes "  a b ") ≡ codes "a b"
unfolding strip
strip_example = refl
