-- ===== src/Common/Text.antt =====
-- The functions of Go's package strings that the services call, on a text's code points.
-- `trim_space` is strings.TrimSpace, with unicode.IsSpace; `equal_fold` is strings.EqualFold against
-- a text of ASCII letters, none of which is k or s: for those, simple folding is that of ASCII.
use Prim.Native.Nat.{ℕ, ◌+◌}
use Prim.Native.Char.{code}
use Prim.Native.String.{String}
use mathlib.Core.Path.{◌≡◌, refl}
use native.Mathlib.Omega.{arith}
use text.Mathlib.Text.{◌==◌ as str_eq}
use text.Mathlib.TextEquality.{eq_iff}
use mathlib.Core.Bool.{Bool, true, false, ◌&&◌, ◌||◌}
use mathlib.Core.List.{List, [], ◌∷◌, ◌++◌, reverse}
use reliability_lab.Common.Tests.{leb, ◌==◌, if◌then◌else◌}

-- The code points of a text.
abbrev pub codes : String → List ℕ
codes String.[] = []
codes (String.◌∷◌ letter rest) = code letter ∷ codes rest

-- unicode.IsSpace.
unfoldable pub is_space : ℕ → Bool
is_space c =
    (leb 9 c && leb c 13)
    || c == 32
    || c == 0x85
    || c == 0xa0
    || c == 0x1680
    || (leb 0x2000 c && leb c 0x200a)
    || c == 0x2028
    || c == 0x2029
    || c == 0x202f
    || c == 0x205f
    || c == 0x3000

unfoldable pub trim_left : List ℕ → List ℕ
trim_left [] = []
trim_left (c ∷ s) = if is_space c then trim_left s else c ∷ s

unfoldable pub trim_space : List ℕ → List ℕ
unfolding is_space trim_left
trim_space s = reverse (trim_left (reverse (trim_left s)))

abbrev pub fold_case : ℕ → ℕ
fold_case c = if leb 65 c && leb c 90 then c + 32 else c

unfoldable pub equal_fold : List ℕ → List ℕ → Bool
equal_fold [] [] = true
equal_fold (c ∷ s) (d ∷ t) = fold_case c == fold_case d && equal_fold s t
equal_fold _ _ = false

unfoldable pub eq_codes : List ℕ → List ℕ → Bool
eq_codes [] [] = true
eq_codes [] (d ∷ t) = false
eq_codes (c ∷ s) [] = false
eq_codes (c ∷ s) (d ∷ t) = c == d && eq_codes s t

pub eq_codes-prefix : (p s t : List ℕ) → eq_codes (p ++ s) (p ++ t) ≡ eq_codes s t
unfolding eq_codes
eq_codes-prefix [] s t = refl
eq_codes-prefix (c ∷ p) s t = ground (arith, eq_codes-prefix p s t)

-- A text equals at most one of two that differ.
pub str_eq_apart : (p q s : String) → str_eq p q ≡ false → str_eq p s ≡ true → str_eq q s ≡ false
str_eq_apart p q s h e = ground (arith, eq_iff p q, eq_iff p s, eq_iff q s)
