-- ===== src/Store/Log/Frames.antt =====
-- The frames of crates/ls-store/src/log.rs: what `write_record` lays out is what the loops read.
use localsecrets.Common.{
  ℕ, zero, suc, ◌+◌, ◌*◌, ◌/◌, ◌%◌, ◌^◌, ◌≤◌, ◌<◌, ◌≡◌, refl, ap, ap₂, ◌∙◌, List, [], ◌∷◌, ◌++◌,
  arith, Bytes, length, take, length-append, length-take, append_assoc, take-append_left,
  drop-append_left,
}
use localsecrets.Common.Results.{Result, ok, ◌>>=◌}
use mathlib.Core.Path.{fun_ext}
use localsecrets.Store.Log.{
  StoreError, torn, frame, max_record_len, be32, framed, next_frame, scan, each_record,
}

-- A record as stored.
pub record Stored : Type 0 where
  pub kind : ℕ
  pub payload : Bytes

-- The bytes of some records.
unfoldable pub image : List Stored → Bytes
image [] = []
image (r ∷ rs) = framed r.kind r.payload ++ image rs

-- Each is small enough for `write_record`.
abbrev pub Fit : List Stored → Type 0
Fit [] = Unit
Fit (r ∷ rs) = (length r.payload + 1 ≤ max_record_len) × Fit rs

pub next_frame-framed :
    (kind : ℕ) (payload rest : Bytes)
    → length payload + 1 ≤ max_record_len
    → next_frame (framed kind payload ++ rest) ≡ frame (kind ∷ payload) rest
unfolding next_frame framed be32
next_frame-framed kind payload rest fits =
    let size = (length payload + 1) % 2 ^ 32 in
    let same : size / 2 ^ 24 % 256 * 2 ^ 24
          + size / 2 ^ 16 % 256 * 2 ^ 16
          + size / 2 ^ 8 % 256 * 2 ^ 8
          + size % 256
        ≡ suc (length payload) =
      omega arith in
    rw same (
      ground (
        arith,
        take-append_left payload rest,
        drop-append_left payload rest,
        length-append payload rest,
      ))

-- A proper prefix of a frame is a torn tail.
pub next_frame-take :
    (n kind : ℕ) (payload : Bytes)
    → length payload + 1 ≤ max_record_len
    → n < length (framed kind payload)
    → next_frame (take n (framed kind payload)) ≡ torn
unfolding next_frame framed be32
next_frame-take zero kind payload fits short = refl
next_frame-take (suc zero) kind payload fits short = refl
next_frame-take (suc (suc zero)) kind payload fits short = refl
next_frame-take (suc (suc (suc zero))) kind payload fits short = refl
next_frame-take (suc (suc (suc (suc n)))) kind payload fits short =
    let size = (length payload + 1) % 2 ^ 32 in
    let same : size / 2 ^ 24 % 256 * 2 ^ 24
          + size / 2 ^ 16 % 256 * 2 ^ 16
          + size / 2 ^ 8 % 256 * 2 ^ 8
          + size % 256
        ≡ suc (length payload) =
      omega arith in
    rw same (ground (arith, length-take n (kind ∷ payload)))

pub length-framed : (kind : ℕ) (payload : Bytes) → length (framed kind payload) ≡ length payload + 5
unfolding framed be32
length-framed kind payload = omega arith

ok_pair :
    {a b c d : ℕ} → a ≡ c → b ≡ d → ◌≡◌ {A = Result (ℕ × ℕ) StoreError} (ok (a, b)) (ok (c, d))
ok_pair p q = ap₂ (λ x y. ok (x, y)) p q

-- The walk of `scan` over whole records and a torn tail.
pub scan-image :
    (fuel count good : ℕ) (rs : List Stored) (tail : Bytes)
    → Fit rs
    → next_frame tail ≡ torn
    → length rs < fuel
    → scan fuel count good (image rs ++ tail) ≡ ok (count + length rs, good + length (image rs))
unfolding scan image
scan-image zero count good rs tail fits end enough = absurd (omega arith)
scan-image (suc fuel) count good [] tail fits end enough =
    rw (end, scan) (ok_pair (omega arith) (omega arith))
scan-image (suc fuel) count good (r ∷ rs) tail fits end enough =
    rw (append_assoc, next_frame-framed r.kind r.payload (image rs ++ tail) fits.0, scan)
      (scan-image fuel (count + 1) (good + (4 + length (r.kind ∷ r.payload))) rs tail fits.1 end
          (omega arith)
        ∙ ok_pair (omega arith) (
            omega (
              arith,
              length-append (framed r.kind r.payload) (image rs),
              length-framed r.kind r.payload,
            )))

-- The walk of `for_each_record` over the same: a left fold of its visitor.
unfoldable pub fold_visits {ℓ} :
    {S : Type ℓ} (visit : ℕ → ℕ → Bytes → S → Result S StoreError)
    → ℕ
    → List Stored
    → S
    → Result S StoreError
fold_visits visit sequence [] s = ok s
fold_visits visit sequence (r ∷ rs) s = do
  s' ← visit sequence r.kind r.payload s
  fold_visits visit (sequence + 1) rs s'

pub each_record-image {ℓ} :
    {S : Type ℓ} (visit : ℕ → ℕ → Bytes → S → Result S StoreError) (fuel sequence offset : ℕ)
    (rs : List Stored) (tail : Bytes) (s : S)
    → Fit rs
    → next_frame tail ≡ torn
    → length rs < fuel
    → each_record visit fuel sequence offset (image rs ++ tail) s ≡ fold_visits visit sequence rs s
unfolding each_record image fold_visits
each_record-image visit zero sequence offset rs tail s fits end enough = absurd (omega arith)
each_record-image visit (suc fuel) sequence offset [] tail s fits end enough = rw (end, each_record)
each_record-image visit (suc fuel) sequence offset (r ∷ rs) tail s fits end enough =
    rw (append_assoc, next_frame-framed r.kind r.payload (image rs ++ tail) fits.0, each_record)
      (ap (λ k. visit sequence r.kind r.payload s >>= k)
        (fun_ext λ s'.
          each_record-image visit fuel (sequence + 1) (offset + (4 + length (r.kind ∷ r.payload)))
            rs tail s' fits.1 end (omega arith)))
