-- ===== src/Store/Log/Sealed/ReadBack.antt =====
-- What is appended to a log of crates/ls-store/src/log.rs is read back.
use localsecrets.Common.{
  ℕ, suc, ◌+◌, ◌≤◌, ◌≡◌, refl, sym, ap, ◌∙◌, true, false, none, some, List, [], ◌∷◌, ◌++◌, arith,
  Bytes, length, take, drop, length-append, take-append_left, drop-append_left, append-nil, inl,
  inr, Option-cases,
}
use localsecrets.Common.Results.{Result, ok, err, ◌>>=◌, Result-cases, >>=-ok, >>=_assoc}
use mathlib.Core.Path.{fun_ext}
use localsecrets.Core.Aead
use localsecrets.Core.Aead.{Cipher, nonce_len, max_plaintext_len}
use localsecrets.Store.Log.{
  Log, written, StoreError, unreadable, header, header_len, max_record_len, kind_sealed, next_frame,
  write_record, for_each_record, each_record,
}
use localsecrets.Store.Log.Frames.{Stored, image, fold_visits, each_record-image}
use localsecrets.Store.Log.Recovery.{Holds, length-image, write-Holds}
use localsecrets.Store.Log.Sealed.{
  Record, record_context, seal, open_record, append, push_record, read_records,
}

-- A walk over one record more.
fold_visits-append {ℓ} :
    {S : Type ℓ} (visit : ℕ → ℕ → Bytes → S → Result S StoreError) (n : ℕ) (rs : List Stored)
    (r : Stored) (s : S)
    → fold_visits visit n (rs ++ r ∷ []) s
      ≡ (fold_visits visit n rs s >>= visit (n + length rs) r.kind r.payload)
unfolding fold_visits
fold_visits-append visit n [] r s =
    >>=-ok (visit n r.kind r.payload s) ∙ ap (λ k. visit k r.kind r.payload s) (omega arith)
fold_visits-append visit n (x ∷ rs) r s =
    ap (λ k. visit n x.kind x.payload s >>= k)
      (fun_ext λ s'.
        fold_visits-append visit (n + 1) rs r s'
        ∙ ap (λ k. fold_visits visit (n + 1) rs s' >>= visit k r.kind r.payload) (omega arith))
    ∙ sym (
        >>=_assoc (visit n x.kind x.payload s) (λ s'. fold_visits visit (n + 1) rs s')
          (visit (n + suc (length rs)) r.kind r.payload))

-- Reading a log that holds some records visits them in order.
pub for_each-Holds {ℓ} :
    {S : Type ℓ} (visit : ℕ → ℕ → Bytes → S → Result S StoreError) {log : Log} {rs : List Stored}
    (s : S)
    → Holds log rs
    → for_each_record visit log.file s ≡ fold_visits visit 0 rs s
unfolding for_each_record
for_each-Holds visit {log} {rs} s h = rw h.file (
    ground (
      arith,
      ap (λ t. each_record visit (length (header ++ image rs)) 0 header_len t s)
            (sym (append-nil (image rs)))
          ∙ each_record-image visit (length (header ++ image rs)) 0 header_len rs [] s h.fit
              (unfold next_frame in refl) (omega (arith, length-image rs)),
    ))

write_record-fits :
    (payload : Bytes) (log log' : Log)
    → log.broken ≡ false
    → write_record written kind_sealed payload log ≡ (ok tt, log')
    → length payload + 1 ≤ max_record_len
unfolding write_record
write_record-fits payload log log' unbroken h = ground arith

module _ (c : Cipher) (key nonce : Bytes) (random : length nonce ≡ nonce_len) where
  -- A successful seal is the nonce and the ciphertext of the payload in its context.
  pub seal-ok :
      (n : ℕ) (payload sealed : Bytes)
      → seal c key (some nonce) n payload ≡ ok sealed
      → (ciphertext : Bytes) × (c.encrypt key nonce (record_context n) payload ≡ some ciphertext)
        × (sealed ≡ nonce ++ ciphertext)
  unfolding seal Aead.seal
  seal-ok n payload sealed h =
      elim (Option-cases (c.encrypt key nonce (record_context n) payload)) [
        | inl refused ↦ ground arith
        | inr (ciphertext, made) ↦ (ciphertext, made, ground arith)
      ]

  -- What `open` makes of a nonce and a ciphertext.
  pub open_record-split :
      (n : ℕ) (ciphertext : Bytes)
      → open_record c key n (nonce ++ ciphertext)
        ≡ elim (c.decrypt key nonce (record_context n) ciphertext) [
          | none ↦ err (unreadable n)
          | some plaintext ↦ ok plaintext
        ]
  unfolding open_record Aead.open_envelope
  open_record-split n ciphertext =
      let front : take nonce_len (nonce ++ ciphertext) ≡ nonce =
        ap (λ k. take k (nonce ++ ciphertext)) (sym random) ∙ take-append_left nonce ciphertext in
      let back : drop nonce_len (nonce ++ ciphertext) ≡ ciphertext =
        ap (λ k. drop k (nonce ++ ciphertext)) (sym random) ∙ drop-append_left nonce ciphertext in
      ground (arith, front, back, length-append nonce ciphertext)

  open-seal :
      (n : ℕ) (payload sealed : Bytes)
      → seal c key (some nonce) n payload ≡ ok sealed
      → open_record c key n sealed ≡ ok payload
  open-seal n payload sealed h =
      let (ciphertext, made, shape) = seal-ok n payload sealed h in
      rw
        (
          shape,
          open_record-split n ciphertext,
          c.decrypt-encrypt key nonce (record_context n) payload ciphertext made,
        )
        refl

  -- `append` writes a sealed record of a size that is accepted.
  pub append-ok :
      (payload : Bytes) (log log' : Log)
      → log.broken ≡ false
      → append c key (some nonce) written payload log ≡ (ok tt, log')
      → (sealed : Bytes) × (seal c key (some nonce) log.count payload ≡ ok sealed)
        × (length sealed + 1 ≤ max_record_len)
        × (log' ≡ (write_record written kind_sealed sealed log).1)
  unfolding append
  append-ok payload log log' unbroken h =
      elim (Result-cases (seal c key (some nonce) log.count payload)) [
        | inl (sealed, made) ↦ (
          sealed,
          made,
          write_record-fits sealed log log' unbroken (ground arith),
          ground (arith, made),
        )
        | inr (e, failed) ↦ ground (arith, failed)
      ]

  -- What one `append` adds is what `read_records` reads after the rest: a record appended under a
  -- key is read back under that key, behind the records that were read before.
  pub read_records-append :
      (payload : Bytes) (log log' : Log) (rs : List Stored) (out : List Record)
      → Holds log rs
      → read_records c key log ≡ ok out
      → append c key (some nonce) written payload log ≡ (ok tt, log')
      → read_records c key log' ≡ ok (out ++ record { sealed = true; payload = payload } ∷ [])
  unfolding read_records
  read_records-append payload log log' rs out h before appended =
      let (sealed, made, fits, same) = append-ok payload log log' h.unbroken appended in
      let r : Stored = record { kind = kind_sealed; payload = sealed } in
      let walked : fold_visits (push_record c key) 0 rs [] ≡ ok out =
        sym (for_each-Holds (push_record c key) [] h) ∙ before in
      let here : 0 + length rs ≡ log.count = omega (arith, h.count) in
      rw same (
        for_each-Holds (push_record c key) [] (write-Holds kind_sealed sealed h fits)
        ∙ fold_visits-append (push_record c key) 0 rs r []
        ∙ rw walked (unfold push_record in rw (here, open-seal log.count payload sealed made) refl))
