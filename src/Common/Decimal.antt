-- ===== src/Common/Decimal.antt =====
-- `usize::to_string`: the decimal digits, with no leading zero.
use Prim.Native.Nat.{ℕ, zero, suc, ◌+◌, ◌-◌, ◌*◌, ◌/◌, ◌%◌, ◌≤◌, ◌<◌}
use mathlib.Core.Path.{◌≡◌, refl, sym, ap, ◌∙◌}
use mathlib.Core.Logic.{inl, inr}
use mathlib.Core.List.{[], ◌∷◌, ◌++◌}
use native.Mathlib.Omega.{arith}
use localsecrets.Common.Tests.{Bool-cases, ltb, if◌then◌else◌}
use localsecrets.Common.Texts.{Text}
use localsecrets.Common.Lists.{length, length-append}

-- The fuel is at least the number, and a quotient by ten is smaller.
unfoldable pub decimal_fuel : ℕ → ℕ → Text
decimal_fuel zero n = (n + 48) ∷ []
decimal_fuel (suc fuel) n =
    let high = decimal_fuel fuel (n / 10) in
    if ltb n 10 then (n + 48) ∷ [] else high ++ (n % 10 + 48) ∷ []

unfoldable pub decimal : ℕ → Text
unfolding decimal_fuel
decimal n = decimal_fuel n n

-- The number that a run of digits writes, behind the digits of `acc`.
unfoldable pub read_from : ℕ → Text → ℕ
read_from acc [] = acc
read_from acc (c ∷ cs) = read_from (acc * 10 + (c - 48)) cs

read_from-append : (acc : ℕ) (s t : Text) → read_from acc (s ++ t) ≡ read_from (read_from acc s) t
unfolding read_from
read_from-append acc [] t = refl
read_from-append acc (c ∷ cs) t = read_from-append (acc * 10 + (c - 48)) cs t

read_from-decimal_fuel : (fuel n : ℕ) → n ≤ fuel → read_from 0 (decimal_fuel fuel n) ≡ n
unfolding decimal_fuel
read_from-decimal_fuel zero n h = unfold read_from in omega arith
read_from-decimal_fuel (suc fuel) n h = elim (Bool-cases (ltb n 10)) [
  | inl small ↦ rw small (unfold read_from in omega arith)
  | inr large ↦
      rw
        (
          large,
          read_from-append 0 (decimal_fuel fuel (n / 10)) ((n % 10 + 48) ∷ []),
          read_from-decimal_fuel fuel (n / 10) (ground arith),
        )
        (unfold read_from in omega arith)
]

pub read_from-decimal : (n : ℕ) → read_from 0 (decimal n) ≡ n
unfolding decimal
read_from-decimal n = read_from-decimal_fuel n n (omega arith)

-- Two numbers that print alike are one.
pub decimal_injective : (n m : ℕ) → decimal n ≡ decimal m → n ≡ m
decimal_injective n m e = sym (read_from-decimal n) ∙ ap (read_from 0) e ∙ read_from-decimal m

length-decimal_fuel : (fuel n : ℕ) → length (decimal_fuel fuel n) ≤ fuel + 1
unfolding decimal_fuel
length-decimal_fuel zero n = omega arith
length-decimal_fuel (suc fuel) n = ground (
  arith,
  length-decimal_fuel fuel (n / 10),
  length-append (decimal_fuel fuel (n / 10)) ((n % 10 + 48) ∷ []),
)

pub length-decimal : (n : ℕ) → length (decimal n) ≤ n + 1
unfolding decimal
length-decimal n = length-decimal_fuel n n

-- The digits of a number, the first of them not a zero unless the number is zero.
abbrev pub AllDigits : Text → Type 0
AllDigits [] = Unit
AllDigits (c ∷ cs) = (48 ≤ c) × (c ≤ 57) × AllDigits cs

AllDigits-append : (s t : Text) → AllDigits s → AllDigits t → AllDigits (s ++ t)
AllDigits-append [] t hs ht = ht
AllDigits-append (c ∷ cs) t hs ht = (hs.0, hs.1, AllDigits-append cs t hs.2 ht)

AllDigits-decimal_fuel : (fuel n : ℕ) → n ≤ fuel → AllDigits (decimal_fuel fuel n)
unfolding decimal_fuel
AllDigits-decimal_fuel zero n h = omega arith
AllDigits-decimal_fuel (suc fuel) n h = elim (Bool-cases (ltb n 10)) [
  | inl small ↦ rw small (ground arith)
  | inr large ↦ rw large (
      AllDigits-append (decimal_fuel fuel (n / 10)) _
        (AllDigits-decimal_fuel fuel (n / 10) (ground arith)) (omega arith))
]

pub AllDigits-decimal : (n : ℕ) → AllDigits (decimal n)
unfolding decimal
AllDigits-decimal n = AllDigits-decimal_fuel n n (omega arith)

abbrev pub StartsAbove : ℕ → Text → Type 0
StartsAbove k [] = ⊥
StartsAbove k (c ∷ cs) = k < c

StartsAbove-append : (k : ℕ) (s t : Text) → StartsAbove k s → StartsAbove k (s ++ t)
StartsAbove-append k [] t h = absurd h
StartsAbove-append k (c ∷ cs) t h = h

StartsAbove-decimal_fuel : (fuel n : ℕ) → n ≤ fuel → 0 < n → StartsAbove 48 (decimal_fuel fuel n)
unfolding decimal_fuel
StartsAbove-decimal_fuel zero n h pos = omega arith
StartsAbove-decimal_fuel (suc fuel) n h pos = elim (Bool-cases (ltb n 10)) [
  | inl small ↦ rw small (omega arith)
  | inr large ↦ rw large (
      StartsAbove-append 48 (decimal_fuel fuel (n / 10)) _
        (StartsAbove-decimal_fuel fuel (n / 10) (ground arith) (ground arith)))
]

pub StartsAbove-decimal : (n : ℕ) → 0 < n → StartsAbove 48 (decimal n)
unfolding decimal
StartsAbove-decimal n h = StartsAbove-decimal_fuel n n (omega arith) h

pub decimal_zero : decimal 0 ≡ 48 ∷ []
unfolding decimal
decimal_zero = refl
