-- ===== src/Common/Text.antt =====
-- JavaScript strings as lists of UTF-16 code units, with the methods that the program calls.
use Prim.Native.Nat.{ℕ, zero, suc, ◌≤◌, ◌<◌}
use Prim.Native.Char.{code}
use Prim.Native.String.{String}
use mathlib.Core.Bool.{Bool, ◌||◌, ◌&&◌}
use mathlib.Core.List.{List, [], ◌∷◌, reverse}
use native.Mathlib.Omega.{arith}
use moshu.Common.Tests.{leb, if◌then◌else◌}
use moshu.Common.Lists.{length, contains}

abbrev pub Text : Type 0
Text = List ℕ

-- The code units of a literal of the program (all are below 2 ^ 16).
abbrev pub units : String → Text
units String.[] = []
units (String.◌∷◌ c s) = code c ∷ units s

-- What `trim` removes: the white space and the line terminators of ECMAScript.
unfoldable pub is_space : ℕ → Bool
is_space c =
    leb 9 c && leb c 13
    || contains c (0x20 ∷ 0xa0 ∷ 0x1680 ∷ 0x2028 ∷ 0x2029 ∷ 0x202f ∷ 0x205f ∷ 0x3000 ∷ 0xfeff ∷ [])
    || leb 0x2000 c && leb c 0x200a

unfoldable pub trim_start : Text → Text
trim_start [] = []
trim_start (c ∷ s) = let rest = trim_start s in if is_space c then rest else c ∷ s

unfoldable pub trim : Text → Text
unfolding trim_start is_space
trim s = reverse (trim_start (reverse (trim_start s)))

-- `s.slice(0, n)`
unfoldable pub slice : ℕ → Text → Text
slice zero s = []
slice (suc n) [] = []
slice (suc n) (c ∷ s) = c ∷ slice n s

pub length-slice-le : (n : ℕ) (s : Text) → length (slice n s) ≤ n
unfolding slice
length-slice-le zero s = omega arith
length-slice-le (suc n) [] = omega arith
length-slice-le (suc n) (c ∷ s) = omega (arith, length-slice-le n s)

pub slice_pos : (n : ℕ) (s : Text) → 0 < n → 0 < length s → 0 < length (slice n s)
unfolding slice
slice_pos zero s h k = absurd (omega arith)
slice_pos (suc n) [] h k = absurd (omega arith)
slice_pos (suc n) (c ∷ s) h k = omega arith
