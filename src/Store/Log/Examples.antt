-- ===== src/Store/Log/Examples.antt =====
-- The log of crates/ls-store/src/log.rs at inputs.
use localsecrets.Common.{
  ℕ, zero, suc, ◌≡◌, ◌≢◌, refl, sym, ap, true, false, ◌&&◌, Option, none, some, List, [], ◌∷◌, ◌++◌,
  arith, Bytes, length, take, drop, bytes_eq, bytes_eq_iff, bytes_eq_refl, take-append_left,
  drop-append_left, ◌==◌, if◌then◌else◌, decimal,
}
use localsecrets.Common.Results.{ok, err}
use mathlib.Core.Path.{subst}
use mathlib.Core.Option.{some-injective}
use localsecrets.Core.Aead
use localsecrets.Core.Aead.{Cipher, aad, be64}
use localsecrets.Store.Log.{
  Log, written, failed, io, unreadable, crypto, broken_log, header, write_record, next_frame,
  for_each_record, each_record,
}
use localsecrets.Store.Log.Frames.{image}
use localsecrets.Store.Log.Scan.{Verdict, open_log-Verdict}
use localsecrets.Store.Log.Recovery.{
  Holds, Happening, write, crash, live_all, kept_all, live_all-Holds, failed_write_blocks,
}
use localsecrets.Store.Log.Sealed.{record_context, seal, open_record, append, read_records}
use localsecrets.Store.Log.Sealed.ReadBack.{read_records-append}
use localsecrets.Store.Log.Sealed.Position.{open_record_moved, append_above_plaintext_limit}

abbrev pub fresh : Log
fresh = record { file = header; count = 0; broken = false; repaired = false }

abbrev happenings : List Happening
happenings = write 1 (7 ∷ 8 ∷ []) ∷ crash 5 1 (9 ∷ []) ∷ write 0 (6 ∷ []) ∷ []

pub fresh-Holds : Holds fresh []
fresh-Holds = record { file = unfold image in refl; count = refl; unbroken = refl; fit = tt }

live_all-Holds_example : Holds (live_all fresh happenings) (kept_all [] happenings)
live_all-Holds_example = live_all-Holds fresh [] happenings fresh-Holds

failed_once : (write_record (failed 5) 1 (9 ∷ []) fresh).0 ≡ err io
unfolding write_record
failed_once = refl

failed_write_blocks_example :
    write_record written 1 (8 ∷ []) (write_record (failed 5) 1 (9 ∷ []) fresh).1
    ≡ (err broken_log, (write_record (failed 5) 1 (9 ∷ []) fresh).1)
failed_write_blocks_example = failed_write_blocks fresh 5 1 1 (9 ∷ []) (8 ∷ []) written failed_once

-- One record, and three bytes of the next length.
abbrev torn_tail : Bytes
torn_tail = 0 ∷ 0 ∷ 0 ∷ 2 ∷ 1 ∷ 9 ∷ 0 ∷ 0 ∷ 1 ∷ []

open_log-Verdict_example : Verdict torn_tail
open_log-Verdict_example = open_log-Verdict torn_tail (omega arith)

-- A cipher that hides nothing, but that opens a message only in the context that it was sealed in.
unfoldable pub plain_decrypt : Bytes → Bytes → Bytes → Bytes → Option Bytes
plain_decrypt key nonce context [] = none
plain_decrypt key nonce context (n ∷ rest) =
    if n == length context && bytes_eq (take n rest) context then some (drop n rest) else none

pub plain_opens :
    (key nonce context message : Bytes)
    → plain_decrypt key nonce context (length context ∷ (context ++ message)) ≡ some message
unfolding plain_decrypt
plain_opens key nonce context message = ground (
  arith,
  take-append_left context message,
  drop-append_left context message,
  bytes_eq_refl context,
)

abbrev pub plain_cipher : Cipher
plain_cipher = record {
  encrypt = λ key nonce context message. some (length context ∷ (context ++ message));
  decrypt = plain_decrypt;
  decrypt-encrypt = λ key nonce context message ciphertext h.
      subst (λ t. plain_decrypt key nonce context t ≡ some message) (some-injective _ _ h)
        (plain_opens key nonce context message);
}

plain_refuses :
    (key nonce context other message ciphertext : Bytes)
    → some (length context ∷ (context ++ message)) ≡ some ciphertext
    → context ≢ other
    → plain_decrypt key nonce other ciphertext ≡ none
unfolding plain_decrypt
plain_refuses key nonce context other message ciphertext h apart =
    rw (sym (some-injective _ _ h))
      (ground (arith, take-append_left context message, bytes_eq_iff context other, apart))

abbrev nonce : Bytes
nonce = 1 ∷ 2 ∷ 3 ∷ 4 ∷ 5 ∷ 6 ∷ 7 ∷ 8 ∷ 9 ∷ 10 ∷ 11 ∷ 12 ∷ []

abbrev key : Bytes
key = 3 ∷ []

-- The record `7 8` as sealed for position 0.
abbrev sealed_first : Bytes
sealed_first = nonce ++ length (record_context 0) ∷ (record_context 0 ++ 7 ∷ 8 ∷ [])

sealed_at_first : seal plain_cipher key (some nonce) 0 (7 ∷ 8 ∷ []) ≡ ok sealed_first
unfolding seal Aead.seal
sealed_at_first = refl

open_record_moved_example : open_record plain_cipher key 1 sealed_first ≡ err (unreadable 1)
open_record_moved_example =
    open_record_moved plain_cipher key nonce refl (plain_refuses key nonce) 0 1 (7 ∷ 8 ∷ [])
      sealed_first (omega arith) (omega arith) sealed_at_first (omega arith)

abbrev one_record : Log
one_record = (append plain_cipher key (some nonce) written (7 ∷ 8 ∷ []) fresh).1

appended_first :
    append plain_cipher key (some nonce) written (7 ∷ 8 ∷ []) fresh ≡ (ok tt, one_record)
unfolding append seal Aead.seal write_record record_context aad be64 decimal
appended_first = refl

read_fresh : read_records plain_cipher key fresh ≡ ok []
unfolding read_records for_each_record each_record next_frame
read_fresh = refl

read_records-append_example :
    read_records plain_cipher key one_record
    ≡ ok (record { sealed = true; payload = 7 ∷ 8 ∷ [] } ∷ [])
read_records-append_example =
    read_records-append plain_cipher key nonce refl (7 ∷ 8 ∷ []) fresh one_record [] [] fresh-Holds
      read_fresh appended_first

replicate : ℕ → Bytes
replicate zero = []
replicate (suc n) = 0 ∷ replicate n

length-replicate : (n : ℕ) → length (replicate n) ≡ n
unfolding replicate
length-replicate zero = refl
length-replicate (suc n) = ap suc (length-replicate n)

append_above_plaintext_limit_example :
    append plain_cipher key (some nonce) written (replicate 70000) fresh ≡ (err crypto, fresh)
append_above_plaintext_limit_example =
    append_above_plaintext_limit plain_cipher key (some nonce) written (replicate 70000) fresh
      (omega (arith, length-replicate 70000)) (omega (arith, length-replicate 70000))
