-- ===== src/Core/Encoding/Hex.antt =====
-- crates/ls-core/src/encoding.rs, module `hex`. A byte is a number below 256; `byte >> 4` and
-- `byte & 0x0F` are `byte / 16` and `byte % 16`, and `(high << 4) | low` of two nibbles is a sum.
pub mod Laws
use localsecrets.Common.{
  ℕ, ◌+◌, ◌-◌, ◌*◌, ◌/◌, ◌%◌, Bool, ◌&&◌, Option, none, some, List, [], ◌∷◌, Bytes, Text, codes,
  length, get_or, leb, ◌==◌, if◌then◌else◌, ◌>>=◌,
}

abbrev pub digits : Bytes
digits = codes "0123456789abcdef"

unfoldable pub encode : Bytes → Text
encode [] = []
encode (byte ∷ rest) = get_or digits (byte / 16) 0 ∷ get_or digits (byte % 16) 0 ∷ encode rest

abbrev between : ℕ → ℕ → ℕ → Bool
between low high c = leb low c && leb c high

unfoldable pub nibble : ℕ → Option ℕ
nibble c =
    if between b'0' b'9' c
    then some (c - b'0')
    else if between b'a' b'f' c
    then some (c - b'a' + 10)
    else if between b'A' b'F' c
    then some (c - b'A' + 10)
    else none

-- The loop over `bytes.chunks(2)`; `decode` has refused an odd length.
unfoldable pub decode_pairs : Text → Option Bytes
decode_pairs [] = some []
decode_pairs (a ∷ []) = none
decode_pairs (a ∷ b ∷ rest) = do
  high ← nibble a
  low ← nibble b
  bytes ← decode_pairs rest
  some ((high * 16 + low) ∷ bytes)

unfoldable pub decode : Text → Option Bytes
unfolding decode_pairs nibble
decode text = if length text % 2 == 0 then decode_pairs text else none
