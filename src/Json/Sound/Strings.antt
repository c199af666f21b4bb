-- ===== src/Json/Sound/Strings.antt =====
-- Strings of crates/ls-json/src/parser.rs: they take a byte at least, at one depth.
use localsecrets.Common.{
  ℕ, zero, suc, ◌+◌, ◌-◌, ◌*◌, ◌^◌, ◌≤◌, ◌<◌, refl, ◌&&◌, Option, none, some, [], ◌∷◌, ◌++◌, Bytes,
  Text, arith, length, ltb, leb, ◌==◌,
}
use localsecrets.Common.Utf8.{
  is_utf8, char_from, continuation_bytes, after_continuation, encode_char,
}
use localsecrets.Json.Value.{unexpected}
use localsecrets.Json.Parser.{Parser, at, position, Reader, pure}
use localsecrets.Json.Parser.Scalars.{
  to_char, hex_value, hex_digits, hex4, require_byte, low_surrogate, unicode_escape, escape_value,
  escape, wide_char, string_round, string_loop, read_string, to_char,
}
use localsecrets.Json.Sound.{
  holds, refused, Ensures-then, Ensures-if, Ensures-choice, Keeps, Takes, Keeps-then, Takes-then,
  Takes-Keeps, Keeps-pure, Keeps-ok_or, bump-Ensures, expect-Ensures, Takes-after,
}

hex_digits-Keeps : (start n v : ℕ) (p : Parser) → Keeps p (hex_digits start n v p)
unfolding hex_digits
hex_digits-Keeps start zero v p = Keeps-pure v p
hex_digits-Keeps start (suc n) v p = Keeps-then p (Takes-Keeps p (bump-Ensures p)) λ b q.
    Keeps-then q (Keeps-ok_or (unexpected start) (hex_value b) q (λ e. cc))
      λ digit q'. hex_digits-Keeps start n (v * 2 ^ 4 + digit) q'

hex4-Keeps : (p : Parser) → Keeps p (hex4 p)
unfolding hex4
hex4-Keeps p = hex_digits-Keeps (position p) 4 0 p

require_byte-at :
    (byte start : ℕ) (bytes : Bytes) (d : ℕ) (s : Bytes)
    → Keeps (at bytes d s) (require_byte byte start (at bytes d s))
unfolding require_byte
require_byte-at byte start bytes d [] = refused (λ e. cc)
require_byte-at byte start bytes d (b ∷ bs) =
    Ensures-if (b == byte) (λ _. holds (refl, omega arith)) (λ _. refused (λ e. cc))

require_byte-Keeps : (byte start : ℕ) (p : Parser) → Keeps p (require_byte byte start p)
require_byte-Keeps byte start p = require_byte-at byte start p.bytes p.depth p.rest

to_char-Keeps : (c at : ℕ) (p : Parser) → Keeps p (to_char c at p)
to_char-Keeps c at p = Keeps-ok_or (unexpected at) (char_from c) p (λ e. cc)

low_surrogate-Keeps : (first : ℕ) (p : Parser) → Keeps p (low_surrogate first p)
unfolding low_surrogate
low_surrogate-Keeps first p = Keeps-then p (require_byte-Keeps b'\\' (position p) p) λ _ q.
    Keeps-then q (require_byte-Keeps b'u' (position p) q) λ _ q'.
      Keeps-then q' (hex4-Keeps q') λ second q''.
        Ensures-choice (leb 0xdc00 second && leb second 0xdfff) _ _ q''
          (to_char-Keeps (0x10000 + (first - 0xd800) * 2 ^ 10 + (second - 0xdc00)) (position p) q'')
          (refused (λ e. cc))

unicode_escape-Keeps : (p : Parser) → Keeps p (unicode_escape p)
unfolding unicode_escape
unicode_escape-Keeps p = Keeps-then p (hex4-Keeps p) λ first q.
    Ensures-if (leb 0xdc00 first && leb first 0xdfff) (λ _. refused (λ e. cc))
      λ _.
        Ensures-if (leb 0xd800 first && leb first 0xdbff) (λ _. low_surrogate-Keeps first q)
          λ _. to_char-Keeps first (position q) q

escape-Keeps : (p : Parser) → Keeps p (escape p)
unfolding escape
escape-Keeps p = Keeps-then p (Takes-Keeps p (bump-Ensures p)) λ b q.
    Ensures-choice (b == b'u') _ _ q (unicode_escape-Keeps q)
      (Keeps-ok_or (unexpected (position p)) (escape_value b) q (λ e. cc))

length-after_continuation : (s : Bytes) → length (after_continuation s) ≤ length s
unfolding after_continuation
length-after_continuation [] = omega arith
length-after_continuation (c ∷ cs) = ground (arith, length-after_continuation cs)

wide_char-Keeps : (start b : ℕ) (p : Parser) → Keeps p (wide_char start b p)
unfolding wide_char
wide_char-Keeps start b p =
    Ensures-if (is_utf8 (b ∷ continuation_bytes p.rest))
      (λ _. holds (refl, length-after_continuation p.rest)) (λ _. refused (λ e. cc))

string_round-Takes : (p : Parser) → Takes p (string_round p)
unfolding string_round
string_round-Takes p = Takes-then p (bump-Ensures p) λ b q.
    Ensures-choice (b == b'"') _ _ q (Keeps-pure none q) (
      Ensures-choice (b == b'\\') _ _ q
        (Keeps-then q (escape-Keeps q) λ c q'. Keeps-pure (some (encode_char c)) q')
        (Ensures-choice (ltb b 0x20) _ _ q (refused (λ e. cc)) (
          Ensures-choice (ltb b 0x80) _ _ q (Keeps-pure (some (b ∷ [])) q)
            (Keeps-then q (wide_char-Keeps (position p) b q) λ t q'. Keeps-pure (some t) q'))))

loop_case :
    (out : Text) (pushed : Option Text) (f : Text → Reader Text) (q : Parser)
    → ((t : Text) → Keeps q (f (out ++ t) q))
    → Keeps q
        (let m : Reader Text = elim pushed [ none ↦ pure out | some text ↦ f (out ++ text) ] in m q)
loop_case out none f q h = Keeps-pure out q
loop_case out (some text) f q h = h text

-- Each round takes a byte, so as many rounds as there are bytes are enough.
string_loop-Keeps :
    (fuel : ℕ) (out : Text) (p : Parser) → length p.rest < fuel → Keeps p (string_loop fuel out p)
unfolding string_loop
string_loop-Keeps zero out p h = absurd (omega arith)
string_loop-Keeps (suc fuel) out p h = Takes-Keeps p (
    Ensures-then (string_round-Takes p) λ pushed q step. Takes-after p q _ step (
      loop_case out pushed (string_loop fuel) q
        (λ t. string_loop-Keeps fuel (out ++ t) q (omega arith))))

pub read_string-Takes : (p : Parser) → Takes p (read_string p)
unfolding read_string
read_string-Takes p =
    Takes-then p (expect-Ensures b'"' p)
      λ _ q. string_loop-Keeps (suc (length q.rest)) [] q (omega arith)
