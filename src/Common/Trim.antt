-- ===== src/Common/Trim.antt =====
-- `str::trim` on UTF-8 bytes. White space is the 25 characters that Unicode calls so, of one, two
-- or three bytes each.
use Prim.Native.Nat.{ℕ, zero, suc}
use mathlib.Core.Bool.{Bool, ◌&&◌, ◌||◌}
use mathlib.Core.List.{[], ◌∷◌, reverse}
use localsecrets.Common.Tests.{◌==◌, leb, if◌then◌else◌}
use localsecrets.Common.Texts.{Text}

white1 : ℕ → Bool
white1 a = leb 9 a && leb a 13 || a == 32

-- U+0085 and U+00A0.
white2 : ℕ → ℕ → Bool
white2 a b = a == 0xc2 && (b == 0x85 || b == 0xa0)

-- U+1680, U+2000 to U+200A, U+2028, U+2029, U+202F, U+205F and U+3000.
white3 : ℕ → ℕ → ℕ → Bool
white3 a b c =
    a == 0xe1 && b == 0x9a && c == 0x80
    || a == 0xe2
      && (b == 0x80 && (leb 0x80 c && leb c 0x8a || c == 0xa8 || c == 0xa9 || c == 0xaf)
          || b == 0x81 && c == 0x9f)
    || a == 0xe3 && b == 0x80 && c == 0x80

-- The bytes of the white space that a text begins with, and that a reversed one ends with.
front_width : Text → ℕ
front_width [] = 0
front_width (a ∷ []) = if white1 a then 1 else 0
front_width (a ∷ b ∷ []) = if white1 a then 1 else if white2 a b then 2 else 0
front_width (a ∷ b ∷ c ∷ rest) =
    if white1 a then 1 else if white2 a b then 2 else if white3 a b c then 3 else 0

back_width : Text → ℕ
back_width [] = 0
back_width (c ∷ []) = if white1 c then 1 else 0
back_width (c ∷ b ∷ []) = if white1 c then 1 else if white2 b c then 2 else 0
back_width (c ∷ b ∷ a ∷ rest) =
    if white1 c then 1 else if white2 b c then 2 else if white3 a b c then 3 else 0

-- Drops white space as long as `width` finds some; the number counts the bytes still to drop.
drop_white : (Text → ℕ) → ℕ → Text → Text
drop_white width k [] = []
drop_white width (suc k) (a ∷ rest) = drop_white width k rest
drop_white width zero (a ∷ rest) = elim (width (a ∷ rest)) [
  | zero ↦ a ∷ rest
  | suc k ↦ drop_white width k rest
]

unfoldable pub trim : Text → Text
unfolding drop_white front_width back_width white1 white2 white3
trim t = reverse (drop_white back_width 0 (reverse (drop_white front_width 0 t)))
