-- ===== src/Store/Log/Sealed/Position.antt =====
-- A sealed record of crates/ls-store/src/log.rs belongs to its place, and `append` refuses what the
-- cipher's limit excludes.
use localsecrets.Common.{
  ℕ, ◌+◌, ◌^◌, ◌≤◌, ◌<◌, ◌≡◌, ◌≢◌, refl, Option, none, some, [], ◌∷◌, arith, Bytes, codes, decimal,
  decimal_injective, length-decimal, length,
}
use localsecrets.Common.Results.{ok, err}
use localsecrets.Core.Aead
use localsecrets.Core.Aead.{Cipher, nonce_len, max_plaintext_len}
use localsecrets.Core.Aead.Context.{aad_injective}
use localsecrets.Store.Log.{Log, Disk, unreadable, crypto, max_record_len}
use localsecrets.Store.Log.Sealed.{record_context, seal, open_record, append}
use localsecrets.Store.Log.Sealed.ReadBack.{seal-ok, open_record-split}

-- The contexts of two positions differ.
record_context_injective :
    (n m : ℕ)
    → length (decimal n) < 2 ^ 64
    → length (decimal m) < 2 ^ 64
    → record_context n ≡ record_context m
    → n ≡ m
unfolding record_context
record_context_injective n m hn hm e =
    let (domain, fields) =
      aad_injective (codes "localsecrets.log.v1") (codes "localsecrets.log.v1") (decimal n ∷ [])
        (decimal m ∷ []) (omega arith, (hn, tt)) (omega arith, (hm, tt)) (omega arith) (omega arith)
        e in
    decimal_injective n m (cc)

module _ (c : Cipher) (key nonce : Bytes) (random : length nonce ≡ nonce_len)
    (authentic : (context other message ciphertext : Bytes)
      → c.encrypt key nonce context message ≡ some ciphertext
      → context ≢ other
      → c.decrypt key nonce other ciphertext ≡ none) where
  -- Where the cipher refuses a context that it did not seal with, a record sealed for one position
  -- is unreadable at every other, so a record moved or repeated in the file is never accepted.
  pub open_record_moved :
      (n m : ℕ) (payload sealed : Bytes)
      → n + 1 < 2 ^ 64
      → m + 1 < 2 ^ 64
      → seal c key (some nonce) n payload ≡ ok sealed
      → n ≢ m
      → open_record c key m sealed ≡ err (unreadable m)
  open_record_moved n m payload sealed hn hm made other =
      let (ciphertext, encrypted, shape) = seal-ok c key nonce random n payload sealed made in
      let apart : record_context n ≢ record_context m = λ e. other (
        record_context_injective n m (omega (arith, length-decimal n))
          (omega (arith, length-decimal m)) e) in
      rw
        (
          shape,
          open_record-split c key nonce random m ciphertext,
          authentic (record_context n) (record_context m) payload ciphertext encrypted apart,
        )
        refl

-- A payload above the cipher's limit of 64 KiB is refused as a cryptographic failure, though
-- `append` means to take records of up to 1 MiB; the log is left as it was.
pub append_above_plaintext_limit :
    (c : Cipher) (key : Bytes) (random : Option Bytes) (disk : Disk) (payload : Bytes) (log : Log)
    → max_plaintext_len < length payload
    → length payload ≤ max_record_len
    → append c key random disk payload log ≡ (err crypto, log)
unfolding append seal Aead.seal
append_above_plaintext_limit c key random disk payload log above within = ground arith
