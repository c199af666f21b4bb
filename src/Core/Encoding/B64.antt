-- ===== src/Core/Encoding/B64.antt =====
-- crates/ls-core/src/encoding.rs, module `b64`. The `u32` accumulator holds at most 24 bits, so
-- its shifts are products and quotients by powers of two, `|` of disjoint fields is a sum, and
-- `& 0x3F` is a remainder.
pub mod Laws
use localsecrets.Common.{
  ℕ, zero, suc, ◌+◌, ◌-◌, ◌*◌, ◌/◌, ◌%◌, ◌^◌, Bool, ◌&&◌, Option, none, some, List, [], ◌∷◌, ◌++◌,
  Bytes, Text, codes, length, get_or, leb, ◌==◌, if◌then◌else◌, ◌>>=◌,
}

abbrev pub alphabet : Bytes
alphabet = codes "ABCDEFGHIJKLMNOPQRSTUVWXYZabcdefghijklmnopqrstuvwxyz0123456789-_"

-- Character `i` of a chunk, from the top of its 24 bits.
unfoldable pub symbol : ℕ → ℕ → ℕ
symbol bits i = get_or alphabet (bits / 2 ^ (18 - 6 * i) % 64) 0

abbrev pub bits_of : ℕ → ℕ → ℕ → ℕ
bits_of b0 b1 b2 = b0 * 2 ^ 16 + b1 * 2 ^ 8 + b2

-- The loop over `input.chunks(3)`: a chunk of n bytes yields n + 1 characters, and the bytes that
-- a short chunk lacks read as 0.
unfoldable pub encode : Bytes → Text
encode [] = []
encode (b0 ∷ []) = let bits = bits_of b0 0 0 in symbol bits 0 ∷ symbol bits 1 ∷ []
encode (b0 ∷ b1 ∷ []) =
    let bits = bits_of b0 b1 0 in symbol bits 0 ∷ symbol bits 1 ∷ symbol bits 2 ∷ []
encode (b0 ∷ b1 ∷ b2 ∷ rest) =
    let bits = bits_of b0 b1 b2 in
    symbol bits 0 ∷ symbol bits 1 ∷ symbol bits 2 ∷ symbol bits 3 ∷ encode rest

unfoldable pub value_of : ℕ → Option ℕ
value_of c =
    if leb b'A' c && leb c b'Z'
    then some (c - b'A')
    else if leb b'a' c && leb c b'z'
    then some (c - b'a' + 26)
    else if leb b'0' c && leb c b'9'
    then some (c - b'0' + 52)
    else if c == b'-'
    then some 62
    else if c == b'_'
    then some 63
    else none

abbrev pub byte : ℕ → ℕ → ℕ
byte bits i = bits / 2 ^ (16 - 8 * i) % 256

-- What a chunk of characters decodes to, its bits in hand: the last chunk may be short, and then
-- the bits that encode nothing must be zero.
unfoldable pub two_chars : ℕ → Option Bytes
two_chars bits = if bits / 2 ^ 12 % 16 == 0 then some (byte bits 0 ∷ []) else none

unfoldable pub three_chars : ℕ → Option Bytes
three_chars bits = if bits / 2 ^ 6 % 4 == 0 then some (byte bits 0 ∷ byte bits 1 ∷ []) else none

-- The loop over `bytes.chunks(4)`.
unfoldable pub decode_chunks : Text → Option Bytes
decode_chunks [] = some []
decode_chunks (c0 ∷ []) = do v0 ← value_of c0; some []
decode_chunks (c0 ∷ c1 ∷ []) = do
  v0 ← value_of c0
  v1 ← value_of c1
  two_chars (v0 * 2 ^ 18 + v1 * 2 ^ 12)
decode_chunks (c0 ∷ c1 ∷ c2 ∷ []) = do
  v0 ← value_of c0
  v1 ← value_of c1
  v2 ← value_of c2
  three_chars (v0 * 2 ^ 18 + v1 * 2 ^ 12 + v2 * 2 ^ 6)
decode_chunks (c0 ∷ c1 ∷ c2 ∷ c3 ∷ rest) = do
  v0 ← value_of c0
  v1 ← value_of c1
  v2 ← value_of c2
  v3 ← value_of c3
  let bits = v0 * 2 ^ 18 + v1 * 2 ^ 12 + v2 * 2 ^ 6 + v3
  bytes ← decode_chunks rest
  some (byte bits 0 ∷ byte bits 1 ∷ byte bits 2 ∷ bytes)

unfoldable pub decode : Text → Option Bytes
unfolding decode_chunks value_of two_chars three_chars
decode text = if length text % 4 == 1 then none else decode_chunks text
