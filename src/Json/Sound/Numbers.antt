-- ===== src/Json/Sound/Numbers.antt =====
-- Numbers of crates/ls-json/src/parser.rs: they take a byte at least, at one depth, and a whole
-- number that is kept as one is an `i64`.
use localsecrets.Common.{
  ℕ, zero, suc, ◌-◌, ◌^◌, ◌≤◌, ◌<◌, ◌≡◌, refl, ◌∙◌, Bool, true, false, ◌||◌, Option, none, some, [],
  ◌∷◌, Bytes, Text, arith, length, drop, take, ltb, if◌then◌else◌, ◌==◌, read_from,
}
use localsecrets.Common.Results.{ok, Result}
use localsecrets.Common.Int.{ℤ, pos, negsuc}
use localsecrets.Json.Value.{Value, int, float, unexpected}
use localsecrets.Json.Printer.{FloatText}
use localsecrets.Json.Parser.{Parser, position, pure, looking_at, move_to, and_then}
use localsecrets.Json.Parser.Scalars.{
  after_digits, digit_ahead, is_sign, is_exponent, digits, optional, skip_optional, integer_part,
  fraction, exponent, signed, parse_i64, number_value, unsigned_number, number, read_float,
}
use localsecrets.Json.RoundTrip.Numbers.{IsI64}
use localsecrets.Json.Sound.{
  Ensures, holds, refused, Ensures-then, Ensures-if, Ensures-ok_or, Keeps, Takes, Keeps-then,
  Takes-Keeps, Keeps-pure, Shorter, NotLonger, Keeps-after, JsonError, Ensures-weaken,
}

length-after_digits : (s : Bytes) → length (after_digits s) ≤ length s
unfolding after_digits
length-after_digits [] = omega arith
length-after_digits (c ∷ cs) = ground (arith, length-after_digits cs)

after_digits_less : (s : Bytes) → digit_ahead s ≡ true → length (after_digits s) < length s
unfolding digit_ahead after_digits
after_digits_less [] h = cc
after_digits_less (c ∷ cs) h = ground (arith, length-after_digits cs)

digits-Takes : (p : Parser) → Takes p (digits p)
unfolding digits
digits-Takes p =
    Ensures-if (digit_ahead p.rest) (λ h. holds (refl, after_digits_less p.rest h))
      (λ _. refused (λ e. cc))

looking_at-drop : (c : ℕ) (s : Bytes) → looking_at c s ≡ true → length (drop 1 s) < length s
unfolding looking_at
looking_at-drop c [] h = cc
looking_at-drop c (b ∷ bs) h = omega arith

integer_part-Takes : (p : Parser) → Takes p (integer_part p)
unfolding integer_part
integer_part-Takes p =
    Ensures-if (looking_at b'0' p.rest) (λ h. holds (refl, looking_at-drop b'0' p.rest h))
      (λ _. digits-Takes p)

optional_less : (test : ℕ → Bool) (s r : Bytes) → optional test s ≡ some r → length r < length s
unfolding optional
optional_less test [] r h = cc
optional_less test (b ∷ bs) r h = ground arith

skip_optional_case :
    (o : Option Bytes) (p : Parser)
    → ((r : Bytes) → o ≡ some r → length r < length p.rest)
    → NotLonger p (let q : Parser = elim o [ none ↦ p | some bs ↦ move_to p bs ] in q)
skip_optional_case none p h = (refl, omega arith)
skip_optional_case (some r) p h = (refl, omega (arith, h r refl))

skip_optional-NotLonger : (test : ℕ → Bool) (p : Parser) → NotLonger p (skip_optional test p)
unfolding skip_optional
skip_optional-NotLonger test p =
    skip_optional_case (optional test p.rest) p (optional_less test p.rest)

-- Digits that make the number a float, behind what `start` skipped.
more_digits :
    (p start : Parser) → NotLonger p start → Keeps p (and_then (digits start) (λ _. pure true))
more_digits p start h =
    Keeps-after p start _ h
      (Keeps-then start (Takes-Keeps start (digits-Takes start)) λ _ q. Keeps-pure true q)

fraction_case :
    (o : Option Bytes) (p : Parser)
    → ((r : Bytes) → o ≡ some r → length r < length p.rest)
    → Keeps p (
        let m : Result (Bool × Parser) JsonError = elim o [
          | none ↦ ok (false, p)
          | some bs ↦ and_then (digits (move_to p bs)) (λ _. pure true)
        ] in
        m)
fraction_case none p h = Keeps-pure false p
fraction_case (some r) p h = more_digits p (move_to p r) (refl, omega (arith, h r refl))

fraction-Keeps : (p : Parser) → Keeps p (fraction p)
unfolding fraction
fraction-Keeps p =
    fraction_case (optional (λ b. b == b'.') p.rest) p (optional_less (λ b. b == b'.') p.rest)

exponent_case :
    (o : Option Bytes) (p : Parser)
    → ((r : Bytes) → o ≡ some r → length r < length p.rest)
    → Keeps p (
        let m : Result (Bool × Parser) JsonError = elim o [
          | none ↦ ok (false, p)
          | some bs ↦ and_then (digits (skip_optional is_sign (move_to p bs))) (λ _. pure true)
        ] in
        m)
exponent_case none p h = Keeps-pure false p
exponent_case (some r) p h =
    let start = skip_optional is_sign (move_to p r) in
    more_digits p start (
      (skip_optional-NotLonger is_sign (move_to p r)).0,
      omega (arith, h r refl, (skip_optional-NotLonger is_sign (move_to p r)).1),
    )

exponent-Keeps : (p : Parser) → Keeps p (exponent p)
unfolding exponent
exponent-Keeps p = exponent_case (optional is_exponent p.rest) p (optional_less is_exponent p.rest)

-- What a number is read as: a whole number within an `i64`, or a float.
abbrev pub IsNumber : Value → Type 0
IsNumber (int i) = IsI64 i
IsNumber (float x) = Unit
IsNumber _ = ⊥

signed-IsI64 : (n : ℕ) (i : ℤ) → signed n ≡ some i → IsI64 i
unfolding signed
signed-IsI64 zero (pos n) h = ground arith
signed-IsI64 zero (negsuc n) h = cc
signed-IsI64 (suc n) (pos m) h = ground arith
signed-IsI64 (suc n) (negsuc m) h = ground arith

unsigned-IsI64 :
    (n : ℕ) (i : ℤ) → (if ltb n (2 ^ 63) then some (pos n) else none) ≡ some i → IsI64 i
unsigned-IsI64 n (pos m) h = ground arith
unsigned-IsI64 n (negsuc m) h = ground arith

choice_IsI64 :
    (b : Bool) (x y : Option ℤ) (i : ℤ)
    → (x ≡ some i → IsI64 i)
    → (y ≡ some i → IsI64 i)
    → (if b then x else y) ≡ some i
    → IsI64 i
choice_IsI64 true x y i hx hy e = hx e
choice_IsI64 false x y i hx hy e = hy e

parse_i64-IsI64 : (t : Text) (i : ℤ) → parse_i64 t ≡ some i → IsI64 i
unfolding parse_i64
parse_i64-IsI64 [] i h = cc
parse_i64-IsI64 (c ∷ cs) i h =
    choice_IsI64 (c == b'-') _ _ i (signed-IsI64 (read_from 0 cs) i)
      (unsigned-IsI64 (read_from 0 (c ∷ cs)) i) h

module _ (F : FloatText) where
  abbrev Numbers : Parser → Value → Parser → Type 0
  Numbers p v q = IsNumber v × NotLonger p q

  read_float-Ensures :
      (t : Text) (start : ℕ) (p : Parser) → Ensures (Numbers p) (read_float F t start p)
  unfolding read_float
  read_float-Ensures t start p =
      Ensures-then
        (Ensures-ok_or {P = λ _ q. NotLonger p q} (unexpected start) (F.read t) p (λ e. cc)
          (λ _ _. (refl, omega arith)))
        λ x q h. holds (tt, h)

  number_case :
      (o : Option ℤ) (t : Text) (start : ℕ) (p : Parser)
      → ((i : ℤ) → o ≡ some i → IsI64 i)
      → Ensures (Numbers p) (
          let m : Result (Value × Parser) JsonError = elim o [
            | some i ↦ ok (int i, p)
            | none ↦ read_float F t start p
          ] in
          m)
  number_case none t start p h = read_float-Ensures t start p
  number_case (some i) t start p h = holds (h i refl, (refl, omega arith))

  number_value-Ensures :
      (t : Text) (is_float : Bool) (start : ℕ) (p : Parser)
      → Ensures (Numbers p) (number_value F t is_float start p)
  unfolding number_value
  number_value-Ensures t true start p = read_float-Ensures t start p
  number_value-Ensures t false start p = number_case (parse_i64 t) t start p (parse_i64-IsI64 t)

  -- A number takes a byte at least.
  pub number-Ensures : (p : Parser) → Ensures (λ v q. IsNumber v × Shorter p q) (number F p)
  unfolding number unsigned_number
  number-Ensures p =
      let sign = skip_optional-NotLonger (λ b. b == b'-') p in
      Ensures-then (integer_part-Takes (skip_optional (λ b. b == b'-') p)) λ _ q h.
        Ensures-then (fraction-Keeps q) λ has_fraction q' h'.
          Ensures-then (exponent-Keeps q') λ has_exponent q'' h''.
            Ensures-weaken
              (number_value-Ensures (take (length p.rest - length q''.rest) p.rest)
                (has_fraction || has_exponent) (position p) q'')
              λ v r k. (k.0, (k.1.0 ∙ h''.0 ∙ h'.0 ∙ h.0 ∙ sign.0, omega arith))
