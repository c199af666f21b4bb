-- ===== src/Store/Log/Sealed/Outcomes.antt =====
-- What may become of an `append` of crates/ls-store/src/log.rs, and what is read afterwards.
use localsecrets.Common.{
  ℕ, ◌+◌, ◌≤◌, ◌<◌, ◌≡◌, refl, sym, ap, ◌∙◌, ◌⊎◌, inl, inr, true, false, Option, none, some, List,
  [], ◌++◌, arith, Bytes, length, take, take_all, length-append, ltb, Bool-cases,
}
use localsecrets.Common.Results.{Result, ok, err, Result-cases}
use localsecrets.Core.Aead
use localsecrets.Core.Aead.{Cipher, nonce_len}
use localsecrets.Store.Log.{
  Log, Disk, written, failed, StoreError, write_record, max_record_len, kind_sealed, framed,
  broken_log, for_each_record, next_frame, header, header_len, torn, record_too_large,
}
use localsecrets.Store.Log.Frames.{
  Stored, Fit, image, fold_visits, each_record-image, next_frame-take,
}
use localsecrets.Store.Log.Recovery.{Holds, length-image, write-failed, write-written}
use localsecrets.Store.Log.Sealed.{append, seal, push_record, read_records}
use localsecrets.Store.Log.Sealed.ReadBack.{for_each-Holds}

pub seal-random :
    (c : Cipher) (key : Bytes) (random : Option Bytes) (n : ℕ) (payload sealed : Bytes)
    → seal c key random n payload ≡ ok sealed
    → (nonce : Bytes) × (random ≡ some nonce)
unfolding seal Aead.seal
seal-random c key none n payload sealed h = ground arith
seal-random c key (some nonce) n payload sealed h = (nonce, refl)

write-made :
    (disk : Disk) (kind : ℕ) (payload : Bytes) (log log' : Log)
    → write_record disk kind payload log ≡ (ok tt, log')
    → disk ≡ written
unfolding write_record
write-made written kind payload log log' h = refl
write-made (failed n) kind payload log log' h = ground arith

write-broken :
    (disk : Disk) (kind : ℕ) (payload : Bytes) (log : Log)
    → log.broken ≡ true
    → write_record disk kind payload log ≡ (err broken_log, log)
unfolding write_record
write-broken disk kind payload log broken = ground arith

write-lost :
    (disk : Disk) (kind : ℕ) (payload : Bytes) (log log' : Log) (y : StoreError)
    → log.broken ≡ false
    → write_record disk kind payload log ≡ (err y, log')
    → (log' ≡ log)
      ⊎ ((n : ℕ) × (disk ≡ failed n)
          × (length payload + 1 ≤ max_record_len)
          × (log' ≡ (write_record (failed n) kind payload log).1))
unfolding write_record
write-lost written kind payload log log' y unbroken h =
    elim (Bool-cases (ltb max_record_len (length payload + 1))) [
      | inl large ↦ inl (ground arith)
      | inr small ↦ ground arith
    ]
write-lost (failed n) kind payload log log' y unbroken h =
    elim (Bool-cases (ltb max_record_len (length payload + 1))) [
      | inl large ↦ inl (ground arith)
      | inr small ↦ inr (n, refl, ground arith, sym (ap (λ p. p.1) h))
    ]

module _ (c : Cipher) (key : Bytes) (random : Option Bytes) (disk : Disk) (payload : Bytes)
    (log : Log) where
  -- A broken log refuses, and is left alone.
  pub append-broken :
      log.broken ≡ true → (e : StoreError) × (append c key random disk payload log ≡ (err e, log))
  unfolding append
  append-broken h = elim (Bool-cases (ltb max_record_len (length payload))) [
    | inl large ↦ (record_too_large (length payload) max_record_len, ground arith)
    | inr small ↦ elim (Result-cases (seal c key random log.count payload)) [
      | inl (sealed, done) ↦
          (broken_log, ground (arith, done, write-broken disk kind_sealed sealed log h))
      | inr (e, refused) ↦ (e, ground (arith, refused))
    ]
  ]

  pub append-made :
      (log' : Log)
      → append c key random disk payload log ≡ (ok tt, log')
      → (nonce : Bytes) × (random ≡ some nonce) × (disk ≡ written)
  unfolding append
  append-made log' h = elim (Result-cases (seal c key random log.count payload)) [
    | inl (sealed, done) ↦
        let (nonce, drawn) = seal-random c key random log.count payload sealed done in
        (nonce, drawn, write-made disk kind_sealed sealed log log' (ground arith))
    | inr (e, refused) ↦ ground arith
  ]

  pub append-lost :
      (log' : Log) (y : StoreError)
      → log.broken ≡ false
      → append c key random disk payload log ≡ (err y, log')
      → (log' ≡ log)
        ⊎ ((n : ℕ) × (sealed : Bytes) × (disk ≡ failed n)
            × (seal c key random log.count payload ≡ ok sealed)
            × (length sealed + 1 ≤ max_record_len)
            × (log' ≡ (write_record (failed n) kind_sealed sealed log).1)
            × (append c key random written payload log
                ≡ (ok tt, (write_record written kind_sealed sealed log).1)))
  unfolding append
  append-lost log' y unbroken h = elim (Bool-cases (ltb max_record_len (length payload))) [
    | inl large ↦ inl (ground arith)
    | inr small ↦ elim (Result-cases (seal c key random log.count payload)) [
      | inl (sealed, done) ↦
          elim (write-lost disk kind_sealed sealed log log' y unbroken (ground (arith, done))) [
            | inl same ↦ inl same
            | inr (n, gave_up, fits, left) ↦ inr (
              n,
              sealed,
              gave_up,
              done,
              fits,
              left,
              ground (arith, done, write-written log kind_sealed sealed unbroken fits),
            )
          ]
      | inr (e, refused) ↦ inl (ground (arith, refused))
    ]
  ]

-- Whole records are visited in order, with a torn tail behind them too.
for_each-torn {ℓ} :
    {S : Type ℓ} (visit : ℕ → ℕ → Bytes → S → Result S StoreError) (rs : List Stored) (tail : Bytes)
    (s : S)
    → Fit rs
    → next_frame tail ≡ torn
    → for_each_record visit (header ++ (image rs ++ tail)) s ≡ fold_visits visit 0 rs s
unfolding for_each_record
for_each-torn visit rs tail s fits end = ground (
  arith,
  each_record-image visit (length (header ++ (image rs ++ tail))) 0 header_len rs tail s fits end
      (omega (arith, length-image rs, length-append (image rs) tail)),
)

module _ (c : Cipher) (key : Bytes) {log : Log} {rs : List Stored} (h : Holds log rs)
    (payload : Bytes) (fits : length payload + 1 ≤ max_record_len) where
  -- What was partly written is not read.
  pub read_records-torn :
      (n : ℕ)
      → n < length (framed kind_sealed payload)
      → read_records c key (write_record (failed n) kind_sealed payload log).1
        ≡ read_records c key log
  unfolding read_records
  read_records-torn n short = rw (write-failed log kind_sealed payload h.unbroken fits n) (
      ap (λ f. for_each_record (push_record c key) (f ++ take n (framed kind_sealed payload)) [])
        h.file
      ∙ for_each-torn (push_record c key) rs (take n (framed kind_sealed payload)) [] h.fit
          (next_frame-take n kind_sealed payload fits short)
      ∙ sym (for_each-Holds (push_record c key) [] h))

  -- What was written to the end is read, though the write was said to fail.
  pub read_records-whole :
      (n : ℕ)
      → length (framed kind_sealed payload) ≤ n
      → read_records c key (write_record (failed n) kind_sealed payload log).1
        ≡ read_records c key (write_record written kind_sealed payload log).1
  unfolding read_records
  read_records-whole n whole =
      rw
        (
          write-failed log kind_sealed payload h.unbroken fits n,
          write-written log kind_sealed payload h.unbroken fits,
          take_all n (framed kind_sealed payload) whole,
        )
        refl
