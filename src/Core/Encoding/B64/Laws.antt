-- ===== src/Core/Encoding/B64/Laws.antt =====
-- `b64::encode` and `b64::decode` of crates/ls-core/src/encoding.rs are inverse: a value has one
-- spelling.
use localsecrets.Common.{
  ℕ, ◌+◌, ◌-◌, ◌*◌, ◌/◌, ◌%◌, ◌^◌, ◌<◌, ◌≡◌, refl, Bool, true, false, sym, ap, none, some, [], ◌∷◌,
  arith, Bytes, Text, IsBytes, length, get_or, ◌==◌, ltb, leb, ◌&&◌, holds_below, holds_below_at,
  ltb→lt, Bool-cases, >>=_elim, inl, inr,
}
use mathlib.Core.Option.{some-injective}
use localsecrets.Core.Encoding.B64.{
  alphabet, byte, symbol, encode, value_of, two_chars, three_chars, decode_chunks, decode,
}

symbol_read : ℕ → Bool
symbol_read n = elim (value_of (get_or alphabet n 0)) [ none ↦ leb 1 0 | some m ↦ m == n ]

read_table : holds_below symbol_read 64 ≡ true
unfolding holds_below symbol_read value_of
read_table = refl

value_of-alphabet : (n : ℕ) → n < 64 → value_of (get_or alphabet n 0) ≡ some n
unfolding symbol_read
value_of-alphabet n h = ground (arith, holds_below_at symbol_read 64 n h read_table)

symbol_written : ℕ → Bool
symbol_written c = elim (value_of c) [
  | none ↦ leb 0 0
  | some n ↦ (get_or alphabet n 0 == c) && ltb n 64
]

written_table : holds_below symbol_written 123 ≡ true
unfolding holds_below symbol_written value_of
written_table = refl

value_of-none : (c : ℕ) → 122 < c → value_of c ≡ none
unfolding value_of
value_of-none c h = ground arith

alphabet-value_of : (c n : ℕ) → value_of c ≡ some n → (get_or alphabet n 0 ≡ c) × (n < 64)
unfolding symbol_written
alphabet-value_of c n h = elim (Bool-cases (ltb c 123)) [
  | inl low ↦ ground (arith, holds_below_at symbol_written 123 c (ltb→lt c 123 low) written_table)
  | inr high ↦ ground (arith, value_of-none c)
]

value_of-symbol : (bits i : ℕ) → value_of (symbol bits i) ≡ some (bits / 2 ^ (18 - 6 * i) % 64)
unfolding symbol
value_of-symbol bits i = value_of-alphabet (bits / 2 ^ (18 - 6 * i) % 64) (omega arith)

-- The four fields of 24 bits, put together again.
repack :
    (bits : ℕ)
    → bits < 2 ^ 24
    → bits / 2 ^ 18 % 64 * 2 ^ 18
        + bits / 2 ^ 12 % 64 * 2 ^ 12
        + bits / 2 ^ 6 % 64 * 2 ^ 6
        + bits % 64
      ≡ bits
repack bits h = omega arith

decode_chunks-encode : (bs : Bytes) → IsBytes bs → decode_chunks (encode bs) ≡ some bs
unfolding decode_chunks encode
decode_chunks-encode [] h = refl
decode_chunks-encode (a ∷ []) h = simp value_of-symbol (unfold two_chars in ground arith)
decode_chunks-encode (a ∷ b ∷ []) h = simp value_of-symbol (unfold three_chars in ground arith)
decode_chunks-encode (a ∷ b ∷ c ∷ rest) h =
    simp (value_of-symbol, decode_chunks-encode rest h.1.1.1) (ground arith)

length-encode-mod : (bs : Bytes) → ((length (encode bs) % 4 == 1) ≡ false)
unfolding encode
length-encode-mod [] = refl
length-encode-mod (a ∷ []) = refl
length-encode-mod (a ∷ b ∷ []) = refl
length-encode-mod (a ∷ b ∷ c ∷ rest) = ground (arith, length-encode-mod rest)

-- Decoding what `encode` printed gives the bytes back.
pub b64_decode-encode : (bs : Bytes) → IsBytes bs → decode (encode bs) ≡ some bs
b64_decode-encode bs h = unfold decode in rw (length-encode-mod bs) (decode_chunks-encode bs h)

-- The character at place `i`, once its six bits are known.
symbol-eq : (bits i v : ℕ) → bits / 2 ^ (18 - 6 * i) % 64 ≡ v → symbol bits i ≡ get_or alphabet v 0
unfolding symbol
symbol-eq bits i v e = ap (λ t. get_or alphabet t 0) e

-- What a chunk is accepted for is what `encode` prints that many characters for.
symbols_two :
    (v0 v1 : ℕ) (bs : Bytes)
    → v0 < 64
    → v1 < 64
    → two_chars (v0 * 2 ^ 18 + v1 * 2 ^ 12) ≡ some bs
    → (encode bs ≡ get_or alphabet v0 0 ∷ get_or alphabet v1 0 ∷ []) × IsBytes bs
unfolding encode two_chars
symbols_two v0 v1 [] p q h = ground arith
symbols_two v0 v1 (a ∷ []) p q h =
    let bits = a * 2 ^ 16 + 0 * 2 ^ 8 + 0 in
    let facts : (a ≡ (v0 * 2 ^ 18 + v1 * 2 ^ 12) / 2 ^ 16 % 256) × (v1 % 16 ≡ 0) = ground arith in
    (cc (symbol-eq bits 0 v0 (omega arith), symbol-eq bits 1 v1 (omega arith)), omega arith)
symbols_two v0 v1 (a ∷ b ∷ bs) p q h = ground arith

symbols_three :
    (v0 v1 v2 : ℕ) (bs : Bytes)
    → v0 < 64
    → v1 < 64
    → v2 < 64
    → three_chars (v0 * 2 ^ 18 + v1 * 2 ^ 12 + v2 * 2 ^ 6) ≡ some bs
    → (encode bs ≡ get_or alphabet v0 0 ∷ get_or alphabet v1 0 ∷ get_or alphabet v2 0 ∷ [])
      × IsBytes bs
unfolding encode three_chars
symbols_three v0 v1 v2 [] p q r h = ground arith
symbols_three v0 v1 v2 (a ∷ []) p q r h = ground arith
symbols_three v0 v1 v2 (a ∷ b ∷ []) p q r h =
    let whole = v0 * 2 ^ 18 + v1 * 2 ^ 12 + v2 * 2 ^ 6 in
    let bits = a * 2 ^ 16 + b * 2 ^ 8 + 0 in
    let facts : (a ≡ whole / 2 ^ 16 % 256) × (b ≡ whole / 2 ^ 8 % 256) × (v2 % 4 ≡ 0) =
      ground arith in
    (
      cc (
        symbol-eq bits 0 v0 (omega arith),
        symbol-eq bits 1 v1 (omega arith),
        symbol-eq bits 2 v2 (omega arith),
      ),
      omega arith,
    )
symbols_three v0 v1 v2 (a ∷ b ∷ c ∷ bs) p q r h = ground arith

-- A full chunk, at the three bytes that it decodes to.
symbols_four :
    (v0 v1 v2 v3 : ℕ)
    → v0 < 64
    → v1 < 64
    → v2 < 64
    → v3 < 64
    → let whole = v0 * 2 ^ 18 + v1 * 2 ^ 12 + v2 * 2 ^ 6 + v3 in
      let bits =
        whole / 2 ^ 16 % 256 * 2 ^ 16 + whole / 2 ^ 8 % 256 * 2 ^ 8 + whole / 2 ^ 0 % 256 in
      (symbol bits 0 ≡ get_or alphabet v0 0)
      × (symbol bits 1 ≡ get_or alphabet v1 0)
      × (symbol bits 2 ≡ get_or alphabet v2 0)
      × (symbol bits 3 ≡ get_or alphabet v3 0)
symbols_four v0 v1 v2 v3 p q r s =
    let whole = v0 * 2 ^ 18 + v1 * 2 ^ 12 + v2 * 2 ^ 6 + v3 in
    let bits = whole / 2 ^ 16 % 256 * 2 ^ 16 + whole / 2 ^ 8 % 256 * 2 ^ 8 + whole / 2 ^ 0 % 256 in
    let same : bits ≡ whole = omega arith in
    (
      symbol-eq bits 0 v0 (omega arith),
      symbol-eq bits 1 v1 (omega arith),
      symbol-eq bits 2 v2 (omega arith),
      symbol-eq bits 3 v3 (omega arith),
    )

full_chunk :
    (c0 c1 c2 c3 v0 v1 v2 v3 : ℕ) (tail : Bytes) (rest : Text)
    → value_of c0 ≡ some v0
    → value_of c1 ≡ some v1
    → value_of c2 ≡ some v2
    → value_of c3 ≡ some v3
    → (encode tail ≡ rest) × IsBytes tail
    → let whole = v0 * 2 ^ 18 + v1 * 2 ^ 12 + v2 * 2 ^ 6 + v3 in
      let bs : Bytes = byte whole 0 ∷ byte whole 1 ∷ byte whole 2 ∷ tail in
      (encode bs ≡ c0 ∷ c1 ∷ c2 ∷ c3 ∷ rest) × IsBytes bs
unfolding encode
full_chunk c0 c1 c2 c3 v0 v1 v2 v3 tail rest at0 at1 at2 at3 ih =
    let (l0, b0) = alphabet-value_of c0 v0 at0 in
    let (l1, b1) = alphabet-value_of c1 v1 at1 in
    let (l2, b2) = alphabet-value_of c2 v2 at2 in
    let (l3, b3) = alphabet-value_of c3 v3 at3 in
    let (s0, s1, s2, s3) = symbols_four v0 v1 v2 v3 b0 b1 b2 b3 in
    let (same, bytes) = ih in (cc, (omega arith, (omega arith, (omega arith, bytes))))

encode-decode_chunks :
    (t : Text) (bs : Bytes)
    → decode_chunks t ≡ some bs
    → ((length t % 4 == 1) ≡ false)
    → (encode bs ≡ t) × IsBytes bs
unfolding decode_chunks
encode-decode_chunks [] bs h odd =
    let found : bs ≡ [] = cc in rw found (unfold encode in (refl, tt))
encode-decode_chunks (c0 ∷ []) bs h odd = cc
encode-decode_chunks (c0 ∷ c1 ∷ []) bs h odd = >>=_elim (value_of c0) _ h λ v0 at0 h0.
    >>=_elim (value_of c1) _ h0 λ v1 at1 h1.
      ground (arith, alphabet-value_of c0 v0 at0, alphabet-value_of c1 v1 at1, symbols_two v0 v1 bs)
encode-decode_chunks (c0 ∷ c1 ∷ c2 ∷ []) bs h odd = >>=_elim (value_of c0) _ h λ v0 at0 h0.
    >>=_elim (value_of c1) _ h0 λ v1 at1 h1. >>=_elim (value_of c2) _ h1 λ v2 at2 h2. ground (
      arith,
      alphabet-value_of c0 v0 at0,
      alphabet-value_of c1 v1 at1,
      alphabet-value_of c2 v2 at2,
      symbols_three v0 v1 v2 bs,
    )
encode-decode_chunks (c0 ∷ c1 ∷ c2 ∷ c3 ∷ rest) bs h odd = >>=_elim (value_of c0) _ h λ v0 at0 h0.
    >>=_elim (value_of c1) _ h0 λ v1 at1 h1. >>=_elim (value_of c2) _ h1 λ v2 at2 h2.
      >>=_elim (value_of c3) _ h2 λ v3 at3 h3.
        >>=_elim (decode_chunks rest) _ h3 λ tail at_rest end. rw (sym (some-injective _ _ end)) (
          full_chunk c0 c1 c2 c3 v0 v1 v2 v3 tail rest at0 at1 at2 at3
            (encode-decode_chunks rest tail at_rest (ground arith)))

-- The one spelling of a value: a text that `decode` accepts is what `encode` prints for the result.
pub b64_encode-decode : (t : Text) (bs : Bytes) → decode t ≡ some bs → (encode bs ≡ t) × IsBytes bs
unfolding decode
b64_encode-decode t bs h = ground (arith, encode-decode_chunks t bs)
