-- ===== src/Core/Token.antt =====
-- crates/ls-core/src/crypto/token.rs. SHA-256 is of another crate: it is a parameter.
use localsecrets.Common.{ℕ, Option, none, some, ◌++◌, Bytes, Text, codes}
use localsecrets.Core.Encoding.B64

abbrev pub token_prefix : Text
token_prefix = codes "lsec_"

abbrev pub token_bytes : ℕ
token_bytes = 32

pub record IssuedToken : Type 0 where
  pub secret : Text
  pub hash : Bytes

module _ (sha256 : Bytes → Bytes) where
  unfoldable pub hash : Text → Bytes
  hash secret = sha256 secret

  -- `generate`; the entropy read is an argument, `none` if it fails.
  unfoldable pub generate : Option Bytes → Option IssuedToken
  generate none = none
  generate (some random) =
      let secret = token_prefix ++ B64.encode random in
      some (record { secret = secret; hash = hash secret })
