-- ===== src/Core/Aead.antt =====
-- crates/ls-core/src/crypto/aead.rs. AES-256-GCM is of another crate: a cipher is a parameter.
pub mod Context
mod Examples
use localsecrets.Common.{
  ℕ, ◌+◌, ◌*◌, ◌/◌, ◌%◌, ◌^◌, ◌≡◌, Bool, Option, none, some, List, [], ◌∷◌, ◌++◌, Bytes, Text,
  String, codes, length, ltb, ◌==◌, if◌then◌else◌,
}
use localsecrets.Common.Results.{Result, ok, err, ◌>>=◌, ◌>>◌, Result-cases, >>=-ok, >>=_assoc}

abbrev pub key_len : ℕ
key_len = 32

abbrev pub nonce_len : ℕ
nonce_len = 12

abbrev pub max_plaintext_len : ℕ
max_plaintext_len = 64 * 1024

pub data AeadError : Type 0 where
  decrypt : AeadError
  plaintext_too_large : (len limit : ℕ) → AeadError
  encrypt entropy : AeadError

-- `aes_gcm::Aes256Gcm`: key, nonce, associated data, message. `none` is a refusal. What was
-- encrypted decrypts under the same key, nonce and associated data.
pub record Cipher : Type 0 where
  pub encrypt : Bytes → Bytes → Bytes → Bytes → Option Bytes
  pub decrypt : Bytes → Bytes → Bytes → Bytes → Option Bytes
  pub decrypt-encrypt :
      (key nonce aad message ciphertext : Bytes)
      → encrypt key nonce aad message ≡ some ciphertext
      → decrypt key nonce aad ciphertext ≡ some message

-- `u64::to_be_bytes`.
unfoldable pub be64 : ℕ → Bytes
be64 n =
    n / 2 ^ 56 % 256
    ∷ n / 2 ^ 48 % 256
    ∷ n / 2 ^ 40 % 256
    ∷ n / 2 ^ 32 % 256
    ∷ n / 2 ^ 24 % 256
    ∷ n / 2 ^ 16 % 256
    ∷ n / 2 ^ 8 % 256
    ∷ n % 256
    ∷ []

unfoldable pub push_field : Bytes → Bytes → Bytes
push_field buf field = buf ++ (be64 (length field) ++ field)

unfoldable pub push_fields : Bytes → List Text → Bytes
push_fields buf [] = buf
push_fields buf (field ∷ fields) = push_fields (push_field buf field) fields

-- `Aad::new`.
unfoldable pub aad : Text → List Text → Bytes
unfolding push_field push_fields
aad domain fields = push_fields (push_field [] domain ++ be64 (length fields)) fields

unfoldable pub secret_slot : Text → Text → Text → Bytes
secret_slot project_id environment_id key =
    aad (codes "localsecrets.secret.v1") (project_id ∷ environment_id ∷ key ∷ [])

unfoldable pub key_wrap : Text → Text → Bytes
key_wrap purpose owner_id = aad (codes "localsecrets.keywrap.v1") (purpose ∷ owner_id ∷ [])

pub record Envelope : Type 0 where
  pub nonce : Bytes
  pub ciphertext : Bytes

-- A `DataKey` is its bytes; `from_bytes` wants exactly `key_len` of them.
unfoldable pub from_bytes : Bytes → Option Bytes
from_bytes bytes = if length bytes == key_len then some bytes else none

module _ (c : Cipher) where
  -- `seal`; the entropy read is an argument, `none` if it fails.
  unfoldable pub seal : Bytes → Option Bytes → Bytes → Bytes → Result Envelope AeadError
  seal key random plaintext context =
      if ltb max_plaintext_len (length plaintext)
      then err (plaintext_too_large (length plaintext) max_plaintext_len)
      else elim random [
        | none ↦ err entropy
        | some nonce ↦ elim (c.encrypt key nonce context plaintext) [
          | none ↦ err encrypt
          | some ciphertext ↦ ok (record { nonce = nonce; ciphertext = ciphertext })
        ]
      ]

  -- `open`; a nonce of another length is refused.
  unfoldable pub open_envelope : Bytes → Envelope → Bytes → Result Bytes AeadError
  open_envelope key envelope context =
      if length envelope.nonce == nonce_len
      then elim (c.decrypt key envelope.nonce context envelope.ciphertext) [
        | none ↦ err decrypt
        | some plaintext ↦ ok plaintext
      ]
      else err decrypt

  unfoldable pub wrap : Bytes → Option Bytes → Bytes → Bytes → Result Envelope AeadError
  unfolding seal
  wrap key random wrapped context = seal key random wrapped context

  unfoldable pub unwrap_key : Bytes → Envelope → Bytes → Result Bytes AeadError
  unfolding open_envelope from_bytes
  unwrap_key key envelope context = elim (open_envelope key envelope context) [
    | err e ↦ err e
    | ok material ↦ elim (from_bytes material) [ none ↦ err decrypt | some k ↦ ok k ]
  ]
