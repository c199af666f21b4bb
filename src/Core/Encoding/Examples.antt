-- ===== src/Core/Encoding/Examples.antt =====
-- The encodings of crates/ls-core/src/encoding.rs at inputs.
use localsecrets.Common.{
  ◌≡◌, refl, none, some, [], ◌∷◌, arith, Bytes, IsBytes, codes, to_ascii_lowercase,
}
use localsecrets.Core.Encoding.Hex
use localsecrets.Core.Encoding.Hex.Laws.{hex_decode-encode, hex_encode-decode}
use localsecrets.Core.Encoding.B64
use localsecrets.Core.Encoding.B64.Laws.{b64_decode-encode, b64_encode-decode}

abbrev sample : Bytes
sample = 102 ∷ 111 ∷ 0 ∷ 255 ∷ []

hex_sample : Hex.encode sample ≡ codes "666f00ff"
unfolding Hex.encode
hex_sample = refl

hex_upper : Hex.decode (codes "FF0a") ≡ some (255 ∷ 10 ∷ [])
unfolding Hex.decode
hex_upper = refl

hex_odd : Hex.decode (codes "abc") ≡ none
unfolding Hex.decode
hex_odd = refl

b64_sample : B64.encode sample ≡ codes "Zm8A_w"
unfolding B64.encode B64.symbol
b64_sample = refl

b64_one : B64.decode (codes "Zg") ≡ some (102 ∷ [])
unfolding B64.decode
b64_one = refl

-- A second spelling of the same byte is refused.
b64_second_spelling : B64.decode (codes "Zh") ≡ none
unfolding B64.decode
b64_second_spelling = refl

hex_decode-encode_example : Hex.decode (Hex.encode sample) ≡ some sample
hex_decode-encode_example = hex_decode-encode sample (omega arith)

hex_encode-decode_example :
    (Hex.encode (255 ∷ 10 ∷ []) ≡ to_ascii_lowercase (codes "FF0a")) × IsBytes (255 ∷ 10 ∷ [])
hex_encode-decode_example = hex_encode-decode (codes "FF0a") (255 ∷ 10 ∷ []) hex_upper

b64_decode-encode_example : B64.decode (B64.encode sample) ≡ some sample
b64_decode-encode_example = b64_decode-encode sample (omega arith)

b64_encode-decode_example : (B64.encode (102 ∷ []) ≡ codes "Zg") × IsBytes (102 ∷ [])
b64_encode-decode_example = b64_encode-decode (codes "Zg") (102 ∷ []) b64_one
