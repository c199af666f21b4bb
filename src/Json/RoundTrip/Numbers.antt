-- ===== src/Json/RoundTrip/Numbers.antt =====
-- A printed integer, read by `number` of crates/ls-json/src/parser.rs.
use localsecrets.Common.{
  ℕ, zero, suc, ◌+◌, ◌-◌, ◌^◌, ◌≤◌, ◌<◌, ◌≡◌, ◌≢◌, subst, refl, ap, ◌∙◌, Bool, true, false, not,
  ◌||◌, none, some, [], ◌∷◌, ◌++◌, append_assoc, inl, inr, Bytes, Text, arith, length,
  length-append, take, take-append_left, lt→ltb, ◌==◌, decimal, decimal_zero, read_from,
  read_from-decimal, AllDigits, AllDigits-decimal, StartsAbove, StartsAbove-decimal, ◌⊎◌,
}
use localsecrets.Common.Int.{ℤ, pos, negsuc}
use localsecrets.Common.Results.{ok}
use localsecrets.Json.Value.{int}
use localsecrets.Json.Printer.{FloatText, show_int}
use localsecrets.Json.Parser.{at, is_digit, looking_at, Parser}
use localsecrets.Json.Parser.Scalars.{
  after_digits, digit_ahead, digits, optional, is_exponent, integer_part, fraction, exponent,
  signed, parse_i64, number_value, number, unsigned_number, skip_optional,
}

-- No more of a number follows.
unfoldable pub ends : Bytes → Bool
unfolding is_digit
ends [] = true
ends (b ∷ bs) = not (is_digit b || b == b'.' || is_exponent b)

-- What an `i64` holds.
abbrev pub IsI64 : ℤ → Type 0
IsI64 (pos n) = n < 2 ^ 63
IsI64 (negsuc n) = n < 2 ^ 63

ends-digit_ahead : (r : Bytes) → ends r ≡ true → digit_ahead r ≡ false
unfolding ends digit_ahead is_digit
ends-digit_ahead [] h = refl
ends-digit_ahead (b ∷ bs) h = ground arith

ends-point : (r : Bytes) → ends r ≡ true → optional (λ b. b == b'.') r ≡ none
unfolding ends optional is_digit
ends-point [] h = refl
ends-point (b ∷ bs) h = ground arith

ends-exponent : (r : Bytes) → ends r ≡ true → optional is_exponent r ≡ none
unfolding ends optional is_digit
ends-exponent [] h = refl
ends-exponent (b ∷ bs) h = ground arith

after_digits_stop : (r : Bytes) → digit_ahead r ≡ false → after_digits r ≡ r
unfolding after_digits digit_ahead
after_digits_stop [] h = refl
after_digits_stop (b ∷ bs) h = ground arith

after_digits-append :
    (s r : Bytes) → AllDigits s → digit_ahead r ≡ false → after_digits (s ++ r) ≡ r
unfolding after_digits is_digit
after_digits-append [] r hs hr = after_digits_stop r hr
after_digits-append (c ∷ cs) r hs hr = ground (arith, after_digits-append cs r hs.2 hr)

module _ (bytes : Bytes) (depth : ℕ) where
  digits-append :
      (s r : Bytes)
      → StartsAbove 48 s
      → AllDigits s
      → digit_ahead r ≡ false
      → digits (at bytes depth (s ++ r)) ≡ ok (tt, at bytes depth r)
  unfolding digits digit_ahead is_digit
  digits-append [] r first hs hr = absurd first
  digits-append (c ∷ cs) r first hs hr = ground (arith, after_digits-append (c ∷ cs) r hs hr)

  not_zero : (s r : Bytes) → StartsAbove 48 s → looking_at b'0' (s ++ r) ≡ false
  unfolding looking_at
  not_zero [] r h = absurd h
  not_zero (c ∷ cs) r h = ground arith

  integer_part-decimal :
      (n : ℕ) (r : Bytes)
      → ends r ≡ true
      → integer_part (at bytes depth (decimal n ++ r)) ≡ ok (tt, at bytes depth r)
  unfolding integer_part
  integer_part-decimal zero r h = rw decimal_zero (unfold looking_at in refl)
  integer_part-decimal (suc n) r h =
      rw (not_zero (decimal (suc n)) r (StartsAbove-decimal (suc n) (omega arith))) (
        digits-append (decimal (suc n)) r (StartsAbove-decimal (suc n) (omega arith))
          (AllDigits-decimal (suc n)) (ends-digit_ahead r h))

  fraction-ends :
      (r : Bytes) → ends r ≡ true → fraction (at bytes depth r) ≡ ok (false, at bytes depth r)
  unfolding fraction
  fraction-ends r h = rw (ends-point r h)

  exponent-ends :
      (r : Bytes) → ends r ≡ true → exponent (at bytes depth r) ≡ ok (false, at bytes depth r)
  unfolding exponent
  exponent-ends r h = rw (ends-exponent r h)

take_front : (s r : Bytes) → take (length (s ++ r) - length r) (s ++ r) ≡ s
take_front s r =
    ap (λ (k : ℕ). take k (s ++ r)) (omega (arith, length-append s r)) ∙ take-append_left s r

parse_i64_digits :
    (s : Text) (n : ℕ)
    → AllDigits s
    → s ≢ []
    → read_from 0 s ≡ n
    → n < 2 ^ 63
    → parse_i64 s ≡ some (pos n)
unfolding parse_i64
parse_i64_digits [] n hs ne e small = absurd (ne refl)
parse_i64_digits (c ∷ cs) n hs ne e small = rw (e, lt→ltb n (2 ^ 63) small) (ground arith)

decimal_some : (n : ℕ) → decimal n ≢ []
decimal_some zero = rw decimal_zero (λ h. cc)
decimal_some (suc n) = λ h. subst (StartsAbove 48) h (StartsAbove-decimal (suc n) (omega arith))

parse_i64-show_int : (i : ℤ) → IsI64 i → parse_i64 (show_int i) ≡ some i
unfolding show_int
parse_i64-show_int (pos n) h =
    parse_i64_digits (decimal n) n (AllDigits-decimal n) (decimal_some n) (read_from-decimal n) h
parse_i64-show_int (negsuc n) h =
    let one_more : n + 1 ≡ suc n = omega arith in
    unfold parse_i64 signed in rw (read_from-decimal (n + 1), one_more, lt→ltb n (2 ^ 63) h)

no_sign :
    (bytes : Bytes) (depth : ℕ) (s r : Bytes)
    → AllDigits s
    → s ≢ []
    → skip_optional (λ b. b == b'-') (at bytes depth (s ++ r)) ≡ at bytes depth (s ++ r)
unfolding skip_optional optional
no_sign bytes depth [] r hs ne = absurd (ne refl)
no_sign bytes depth (c ∷ cs) r hs ne = ground arith

-- What a printed integer begins with.
abbrev pub NumberHead : Text → Type 0
NumberHead [] = ⊥
NumberHead (c ∷ cs) = (c ≡ b'-') ⊎ ((48 ≤ c) × (c ≤ 57))

digits_head : (s : Text) → AllDigits s → s ≢ [] → NumberHead s
digits_head [] h ne = ne refl
digits_head (c ∷ cs) h ne = inr (h.0, h.1)

pub show_int_head : (i : ℤ) → NumberHead (show_int i)
unfolding show_int
show_int_head (pos n) = digits_head (decimal n) (AllDigits-decimal n) (decimal_some n)
show_int_head (negsuc n) = inl refl

-- A printed integer with no more of a number behind it is read back.
module _ (F : FloatText) (bytes : Bytes) (depth : ℕ) where
  number_value-int :
      (text : Text) (i : ℤ) (start : ℕ) (p : Parser)
      → parse_i64 text ≡ some i
      → number_value F text false start p ≡ ok (int i, p)
  unfolding number_value
  number_value-int text i start p e = ground arith

  unsigned_number-decimal :
      (sign : Text) (i : ℤ) (n : ℕ) (r : Bytes)
      → show_int i ≡ sign ++ decimal n
      → IsI64 i
      → ends r ≡ true
      → unsigned_number F
          (at bytes depth (sign ++ (decimal n ++ r)))
          (at bytes depth (decimal n ++ r))
        ≡ ok (int i, at bytes depth r)
  unfolding unsigned_number
  unsigned_number-decimal sign i n r shown h e =
      rw
        (
          integer_part-decimal bytes depth n r e,
          fraction-ends bytes depth r e,
          exponent-ends bytes depth r e,
          ← append_assoc sign (decimal n) r,
          take_front (sign ++ decimal n) r,
          ← shown,
        )
        (number_value-int (show_int i) i _ (at bytes depth r) (parse_i64-show_int i h))

  pub number-show_int :
      (i : ℤ) (r : Bytes)
      → IsI64 i
      → ends r ≡ true
      → number F (at bytes depth (show_int i ++ r)) ≡ ok (int i, at bytes depth r)
  unfolding number show_int
  number-show_int (pos n) r h e =
      rw (no_sign bytes depth (decimal n) r (AllDigits-decimal n) (decimal_some n))
        (unsigned_number-decimal [] (pos n) n r refl h e)
  number-show_int (negsuc n) r h e =
      unfold skip_optional optional in
      unsigned_number-decimal (b'-' ∷ []) (negsuc n) (n + 1) r refl h e
