-- ===== src/Json/Parser/Scalars.antt =====
-- crates/ls-json/src/parser.rs: `string`, `escape`, `unicode_escape`, `hex4` and `number`. The loop
-- over a string runs on fuel, one more than the bytes that are left; a round takes one at least.
use localsecrets.Common.{
  ℕ, zero, suc, ◌+◌, ◌-◌, ◌*◌, ◌^◌, Bool, true, false, ◌&&◌, ◌||◌, Option, none, some, [], ◌∷◌,
  ◌++◌, Bytes, Text, length, take, drop, read_from, ◌==◌, leb, ltb, if◌then◌else◌,
}
use localsecrets.Common.Utf8.{
  is_utf8, char_from, encode_char, is_continuation, continuation_bytes, after_continuation,
}
use localsecrets.Common.Int.{ℤ, pos, negsuc}
use localsecrets.Common.Results.{ok, err}
use localsecrets.Json.Value.{Value, int, float, unexpected, out_of_fuel}
use localsecrets.Json.Printer.{FloatText}
use localsecrets.Json.Parser.{
  Parser, Reader, ◌>>=◌, ◌>>◌, pure, run, fail_with, ok_or, position, move_to, unexpected_at,
  looking_at, bump, expect, is_digit,
}

-- The digit that a byte is, in the `match` of `hex4`.
unfoldable pub hex_value : ℕ → Option ℕ
hex_value b =
    if leb b'0' b && leb b b'9'
    then some (b - b'0')
    else if leb b'a' b && leb b b'f'
    then some (b - b'a' + 10)
    else if leb b'A' b && leb b b'F'
    then some (b - b'A' + 10)
    else none

-- The rounds of `for _ in 0..4` that are left. `value` has at most 16 bits, so `(value << 4) | digit`
-- is a sum.
unfoldable pub hex_digits : ℕ → ℕ → ℕ → Reader ℕ
unfolding hex_value bump
hex_digits start zero value = pure value
hex_digits start (suc n) value = do
  byte ← bump
  digit ← ok_or (unexpected start) (hex_value byte)
  hex_digits start n (value * 2 ^ 4 + digit)

unfoldable pub hex4 : Reader ℕ
unfolding hex_digits
hex4 p = hex_digits (position p) 4 0 p

abbrev pub to_char : ℕ → ℕ → Reader ℕ
to_char c at = ok_or (unexpected at) (char_from c)

-- `self.bump() != Some(byte)`, which moves on where there is a byte, and returns an error at `start`.
unfoldable pub require_byte : ℕ → ℕ → Reader (Unit {0})
require_byte byte start p = elim p.rest [
  | [] ↦ err (unexpected start)
  | b ∷ bs ↦ if b == byte then ok (tt, move_to p bs) else err (unexpected start)
]

-- What follows a high surrogate: an escaped low one.
unfoldable pub low_surrogate : ℕ → Reader ℕ
unfolding hex4 require_byte char_from
low_surrogate first p = run p do
  require_byte b'\\' (position p)
  require_byte b'u' (position p)
  second ← hex4
  if leb 0xdc00 second && leb second 0xdfff
      then to_char (0x10000 + (first - 0xd800) * 2 ^ 10 + (second - 0xdc00)) (position p)
      else fail_with (unexpected_at p)

unfoldable pub unicode_escape : Reader ℕ
unfolding low_surrogate hex4 char_from
unicode_escape = do
  first ← hex4
  λ p.
      if leb 0xdc00 first && leb first 0xdfff
      then err (unexpected_at p)
      else if leb 0xd800 first && leb first 0xdbff
      then low_surrogate first p
      else to_char first (position p) p

-- The arms of the `match` in `escape`, but for `u`.
unfoldable pub escape_value : ℕ → Option ℕ
escape_value b =
    if b == b'"' || b == b'\\' || b == b'/'
    then some b
    else if b == b'b'
    then some 0x8
    else if b == b'f'
    then some 0xc
    else if b == b'n'
    then some 0xa
    else if b == b'r'
    then some 0xd
    else if b == b't'
    then some 0x9
    else none

unfoldable pub escape : Reader ℕ
unfolding bump escape_value unicode_escape
escape p =
    run p
      do b ← bump; if b == b'u' then unicode_escape else ok_or (unexpected_at p) (escape_value b)

-- The rest of a character of several bytes, whose first is `b`.
unfoldable pub wide_char : ℕ → ℕ → Reader Text
unfolding is_utf8 continuation_bytes after_continuation is_continuation
wide_char start b p =
    let text = b ∷ continuation_bytes p.rest in
    if is_utf8 text
    then ok (text, move_to p (after_continuation p.rest))
    else err (unexpected start)

-- One round of the loop in `string`: the text that it pushes, or `none` at the closing quote.
unfoldable pub string_round : Reader (Option Text)
unfolding bump escape encode_char wide_char
string_round p = run p do
  b ← bump
  if b == b'"'
      then pure none
      else if b == b'\\'
      then (do c ← escape; pure (some (encode_char c)))
      else if ltb b 0x20
      then fail_with (unexpected_at p)
      else if ltb b 0x80
      then pure (some (b ∷ []))
      else (do text ← wide_char (position p) b; pure (some text))

unfoldable pub string_loop : ℕ → Text → Reader Text
unfolding string_round
string_loop zero out p = err out_of_fuel
string_loop (suc fuel) out p = run p do
  pushed ← string_round
  elim pushed [ none ↦ pure out | some text ↦ string_loop fuel (out ++ text) ]

unfoldable pub read_string : Reader Text
read_string = do expect b'"'; λ p. string_loop (suc (length p.rest)) [] p

unfoldable pub after_digits : Bytes → Bytes
unfolding is_digit
after_digits [] = []
after_digits (b ∷ bs) = let rest = after_digits bs in if is_digit b then rest else b ∷ bs

unfoldable pub digit_ahead : Bytes → Bool
unfolding is_digit
digit_ahead [] = false
digit_ahead (b ∷ bs) = is_digit b

-- Digits, one at least.
unfoldable pub digits : Reader (Unit {0})
unfolding digit_ahead after_digits
digits p =
    if digit_ahead p.rest then ok (tt, move_to p (after_digits p.rest)) else err (unexpected_at p)

-- A byte that may be there.
unfoldable pub optional : (ℕ → Bool) → Bytes → Option Bytes
optional test [] = none
optional test (b ∷ bs) = if test b then some bs else none

abbrev pub is_exponent : ℕ → Bool
is_exponent b = b == b'e' || b == b'E'

abbrev pub is_sign : ℕ → Bool
is_sign b = b == b'+' || b == b'-'

unfoldable pub skip_optional : (ℕ → Bool) → Parser → Parser
unfolding optional
skip_optional test p = elim (optional test p.rest) [ none ↦ p | some bs ↦ move_to p bs ]

unfoldable pub integer_part : Reader (Unit {0})
unfolding looking_at digits
integer_part p = if looking_at b'0' p.rest then ok (tt, move_to p (drop 1 p.rest)) else digits p

-- `true` if there is a fraction.
unfoldable pub fraction : Reader Bool
unfolding optional digits
fraction p = elim (optional (λ b. b == b'.') p.rest) [
  | none ↦ ok (false, p)
  | some bs ↦ run (move_to p bs) do digits; pure true
]

unfoldable pub exponent : Reader Bool
unfolding optional skip_optional digits
exponent p = elim (optional is_exponent p.rest) [
  | none ↦ ok (false, p)
  | some bs ↦ run (skip_optional is_sign (move_to p bs)) do digits; pure true
]

-- `str::parse::<i64>` on digits with an optional minus: a number out of range is refused.
unfoldable pub signed : ℕ → Option ℤ
signed zero = some (pos 0)
signed (suc n) = if ltb n (2 ^ 63) then some (negsuc n) else none

unfoldable pub parse_i64 : Text → Option ℤ
unfolding read_from signed
parse_i64 [] = none
parse_i64 (c ∷ cs) =
    if c == b'-'
    then signed (read_from 0 cs)
    else if ltb (read_from 0 (c ∷ cs)) (2 ^ 63)
    then some (pos (read_from 0 (c ∷ cs)))
    else none

module _ (F : FloatText) where
  unfoldable pub read_float : Text → ℕ → Reader Value
  read_float text start = do x ← ok_or (unexpected start) (F.read text); pure (float x)

  -- A whole number out of range is kept as a float.
  unfoldable pub number_value : Text → Bool → ℕ → Reader Value
  unfolding parse_i64 read_float
  number_value text true start p = read_float text start p
  number_value text false start p = elim (parse_i64 text) [
    | some i ↦ ok (int i, p)
    | none ↦ read_float text start p
  ]

  -- `number` behind its sign; `p` is the parser at its start.
  unfoldable pub unsigned_number : Parser → Reader Value
  unfolding integer_part fraction exponent number_value
  unsigned_number p = do
    integer_part
    has_fraction ← fraction
    has_exponent ← exponent
    λ q.
        number_value (take (length p.rest - length q.rest) p.rest) (has_fraction || has_exponent)
          (position p) q

  unfoldable pub number : Reader Value
  unfolding unsigned_number skip_optional
  number p = unsigned_number p (skip_optional (λ b. b == b'-') p)
