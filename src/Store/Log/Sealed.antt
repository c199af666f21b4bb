-- ===== src/Store/Log/Sealed.antt =====
-- The sealed records of crates/ls-store/src/log.rs: `seal`, `open`, `append`, `read_records`.
pub mod ReadBack
pub mod Position
pub mod Outcomes
use localsecrets.Common.{
  ℕ, Bool, true, false, Option, none, some, List, [], ◌∷◌, ◌++◌, Bytes, Text, codes, decimal,
  length, take, drop, ltb, ◌==◌, if◌then◌else◌, map,
}
use localsecrets.Common.Results.{Result, ok, err, ◌>>=◌, ◌>>◌, Result-cases, >>=-ok, >>=_assoc}
use localsecrets.Core.Aead
use localsecrets.Core.Aead.{Cipher, aad, nonce_len}
use localsecrets.Store.Log.{
  StoreError, Log, Disk, unreadable, record_too_large, crypto, max_record_len, kind_plain,
  kind_sealed, write_record, for_each_record,
}

-- `record_context`.
unfoldable pub record_context : ℕ → Bytes
record_context sequence = aad (codes "localsecrets.log.v1") (decimal sequence ∷ [])

-- `Record`.
pub record Record : Type 0 where
  pub sealed : Bool
  pub payload : Bytes

module _ (c : Cipher) where
  -- `seal`: the nonce and then the ciphertext; the entropy read is an argument.
  unfoldable pub seal : Bytes → Option Bytes → ℕ → Bytes → Result Bytes StoreError
  seal key random sequence payload =
      elim (Aead.seal c key random payload (record_context sequence)) [
        | err e ↦ err crypto
        | ok envelope ↦ ok (envelope.nonce ++ envelope.ciphertext)
      ]

  -- `open`.
  unfoldable pub open_record : Bytes → ℕ → Bytes → Result Bytes StoreError
  open_record key sequence payload =
      if ltb (length payload) nonce_len
      then err (unreadable sequence)
      else elim (Aead.open_envelope c key
          (record { nonce = take nonce_len payload; ciphertext = drop nonce_len payload })
          (record_context sequence)) [
            | err e ↦ err (unreadable sequence)
            | ok plaintext ↦ ok plaintext
          ]

  -- `append`: the size is checked before anything is sealed, and the seal names the position.
  unfoldable pub append :
      Bytes → Option Bytes → Disk → Bytes → Log → Result (Unit {0}) StoreError × Log
  append key random disk payload log =
      if ltb max_record_len (length payload)
      then (err (record_too_large (length payload) max_record_len), log)
      else elim (seal key random log.count payload) [
        | err e ↦ (err e, log)
        | ok sealed ↦ write_record disk kind_sealed sealed log
      ]

  -- The visitor of `read_records`.
  unfoldable pub push_record : Bytes → ℕ → ℕ → Bytes → List Record → Result (List Record) StoreError
  push_record key sequence kind payload out =
      if kind == kind_plain
      then ok (out ++ record { sealed = false; payload = payload } ∷ [])
      else do
        plain ← open_record key sequence payload
        ok (out ++ record { sealed = true; payload = plain } ∷ [])

  unfoldable pub read_records : Bytes → Log → Result (List Record) StoreError
  read_records key log = for_each_record (push_record key) log.file []

  unfoldable pub read_all : Bytes → Log → Result (List Bytes) StoreError
  read_all key log = do records ← read_records key log; ok (map (λ r. r.payload) records)

-- `append_plain`.
unfoldable pub append_plain : Disk → Bytes → Log → Result (Unit {0}) StoreError × Log
append_plain disk payload log = write_record disk kind_plain payload log
