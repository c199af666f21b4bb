-- ===== src/Core/Encoding/Hex/Laws.antt =====
-- `hex::encode` and `hex::decode` of crates/ls-core/src/encoding.rs are inverse, up to case.
use localsecrets.Common.{
  ℕ, ◌+◌, ◌*◌, ◌/◌, ◌%◌, ◌<◌, ◌≡◌, refl, Bool, true, none, some, [], ◌∷◌, arith, Bytes, Text,
  IsBytes, length, get_or, ◌==◌, ltb, leb, ◌&&◌, holds_below, holds_below_at, ltb→lt, lower,
  to_ascii_lowercase, Bool-cases, >>=-eq-some, inl, inr,
}
use localsecrets.Core.Encoding.Hex.{digits, encode, nibble, decode_pairs, decode}

digit_read : ℕ → Bool
digit_read n = elim (nibble (get_or digits n 0)) [ none ↦ leb 1 0 | some m ↦ m == n ]

digit_table : holds_below digit_read 16 ≡ true
unfolding holds_below digit_read nibble
digit_table = refl

-- Each digit that `encode` writes is read back as the nibble it stands for.
nibble-digit : (n : ℕ) → n < 16 → nibble (get_or digits n 0) ≡ some n
unfolding digit_read
nibble-digit n h = ground (arith, holds_below_at digit_read 16 n h digit_table)

digit_written : ℕ → Bool
digit_written c = elim (nibble c) [
  | none ↦ leb 0 0
  | some n ↦ (get_or digits n 0 == lower c) && ltb n 16
]

written_table : holds_below digit_written 103 ≡ true
unfolding holds_below digit_written nibble lower
written_table = refl

nibble-none : (c : ℕ) → 102 < c → nibble c ≡ none
unfolding nibble
nibble-none c h = ground arith

digit-nibble : (c n : ℕ) → nibble c ≡ some n → (get_or digits n 0 ≡ lower c) × (n < 16)
unfolding digit_written
digit-nibble c n h = elim (Bool-cases (ltb c 103)) [
  | inl low ↦ ground (arith, holds_below_at digit_written 103 c (ltb→lt c 103 low) written_table)
  | inr high ↦ ground (arith, nibble-none c)
]

decode_pairs-encode : (bs : Bytes) → IsBytes bs → decode_pairs (encode bs) ≡ some bs
unfolding decode_pairs encode
decode_pairs-encode [] h = refl
decode_pairs-encode (b ∷ bs) h =
    ground (arith, nibble-digit (b / 16), nibble-digit (b % 16), decode_pairs-encode bs h.1)

length-encode : (bs : Bytes) → length (encode bs) ≡ 2 * length bs
unfolding encode
length-encode [] = refl
length-encode (b ∷ bs) = omega (arith, length-encode bs)

-- Decoding what `encode` printed gives the bytes back.
pub hex_decode-encode : (bs : Bytes) → IsBytes bs → decode (encode bs) ≡ some bs
hex_decode-encode bs h = unfold decode in ground (arith, length-encode bs, decode_pairs-encode bs h)

encode-decode_pairs :
    (t : Text) (bs : Bytes)
    → decode_pairs t ≡ some bs
    → (encode bs ≡ to_ascii_lowercase t) × IsBytes bs
unfolding decode_pairs encode
encode-decode_pairs [] [] h = (refl, tt)
encode-decode_pairs [] (y ∷ ys) h = cc
encode-decode_pairs (a ∷ []) bs h = cc
encode-decode_pairs (a ∷ b ∷ rest) bs h =
    let (high, at_a, h') = >>=-eq-some (nibble a) _ h in
    let (low, at_b, h'') = >>=-eq-some (nibble b) _ h' in
    let (tail, at_rest, end) = >>=-eq-some (decode_pairs rest) _ h'' in
    let found : bs ≡ (high * 16 + low) ∷ tail = cc in
    rw found (
      ground (
        arith,
        digit-nibble a high at_a,
        digit-nibble b low at_b,
        encode-decode_pairs rest tail at_rest,
      ))

-- A text that `decode` accepts is what `encode` prints for the result, up to the case of its
-- letters, and the result is a sequence of bytes.
pub hex_encode-decode :
    (t : Text) (bs : Bytes) → decode t ≡ some bs → (encode bs ≡ to_ascii_lowercase t) × IsBytes bs
unfolding decode
hex_encode-decode t bs h = encode-decode_pairs t bs (ground arith)
