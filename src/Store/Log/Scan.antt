-- ===== src/Store/Log/Scan.antt =====
-- What `scan` of crates/ls-store/src/log.rs finds in any file.
use localsecrets.Common.{
  ℕ, zero, suc, ◌+◌, ◌*◌, ◌/◌, ◌%◌, ◌^◌, ◌≤◌, ◌<◌, ◌≡◌, refl, sym, ap, ap₂, ◌∙◌, ◌⊎◌, inl, inr,
  List, [], ◌∷◌, ◌++◌, append_assoc, arith, Bytes, IsBytes, length, take, drop, take-drop,
  length-take, length-append, ◌==◌, ltb, false, not, Bool-cases,
}
use localsecrets.Common.Results.{ok, err}
use localsecrets.Store.Log.{
  corrupt, max_record_len, torn, impossible, frame, be32, framed, next_frame, scan, header,
  header_len, open_log,
}
use localsecrets.Store.Log.Frames.{Stored, image, Fit, length-framed}
use localsecrets.Store.Log.Recovery.{check_header-header, take-file}

-- The length that the first four bytes announce.
abbrev pub announced : Bytes → ℕ
announced (a ∷ b ∷ c ∷ d ∷ rest) = a * 2 ^ 24 + b * 2 ^ 16 + c * 2 ^ 8 + d
announced _ = 0

-- The end of a file that a write left behind when it was interrupted.
abbrev pub IsTail : Bytes → Type 0
IsTail bytes =
    (length bytes < 4)
    ⊎ ((1 ≤ announced bytes)
        × (announced bytes ≤ max_record_len)
        × (length bytes < announced bytes + 4))

-- What no write leaves behind: a length that no record has.
abbrev pub IsForeign : Bytes → Type 0
IsForeign bytes = (4 ≤ length bytes) × ((announced bytes ≡ 0) ⊎ (max_record_len < announced bytes))

data View (bytes : Bytes) : Type 0 where
  a_tail : IsTail bytes → next_frame bytes ≡ torn → View bytes
  a_foreign : IsForeign bytes → next_frame bytes ≡ impossible → View bytes
  a_record :
      (kind : ℕ) (payload rest : Bytes)
      → length payload + 1 ≤ max_record_len
      → bytes ≡ framed kind payload ++ rest
      → IsBytes rest
      → next_frame bytes ≡ frame (kind ∷ payload) rest
      → View bytes

IsBytes-drop : (n : ℕ) (xs : Bytes) → IsBytes xs → IsBytes (drop n xs)
IsBytes-drop zero xs h = h
IsBytes-drop (suc n) [] h = tt
IsBytes-drop (suc n) (x ∷ xs) h = IsBytes-drop n xs h.1

be32-announced :
    (a b c d n : ℕ)
    → a < 256
    → b < 256
    → c < 256
    → d < 256
    → n ≡ a * 2 ^ 24 + b * 2 ^ 16 + c * 2 ^ 8 + d
    → be32 (n % 2 ^ 32) ≡ a ∷ b ∷ c ∷ d ∷ []
unfolding be32
be32-announced a b c d n ha hb hc hd e =
    let e1 : n % 2 ^ 32 / 2 ^ 24 % 256 ≡ a = omega arith in
    let e2 : n % 2 ^ 32 / 2 ^ 16 % 256 ≡ b = omega arith in
    let e3 : n % 2 ^ 32 / 2 ^ 8 % 256 ≡ c = omega arith in
    let e4 : n % 2 ^ 32 % 256 ≡ d = omega arith in rw (e1, e2, e3, e4) refl

record-View :
    (a b c d : ℕ) (rest body : Bytes)
    → IsBytes (a ∷ b ∷ c ∷ d ∷ rest)
    → let len : ℕ = a * 2 ^ 24 + b * 2 ^ 16 + c * 2 ^ 8 + d in
      1 ≤ len
      → len ≤ max_record_len
      → len ≤ length rest
      → take len rest ≡ body
      → next_frame (a ∷ b ∷ c ∷ d ∷ rest) ≡ frame body (drop len rest)
      → View (a ∷ b ∷ c ∷ d ∷ rest)
unfolding framed
record-View a b c d rest [] bytes some_len few there taken found =
    let len : ℕ = a * 2 ^ 24 + b * 2 ^ 16 + c * 2 ^ 8 + d in
    let none_left : 0 ≡ length (take len rest) = ap length (sym taken) in
    absurd (omega (arith, length-take len rest))
record-View a b c d rest (kind ∷ payload) bytes some_len few there taken found =
    let len : ℕ = a * 2 ^ 24 + b * 2 ^ 16 + c * 2 ^ 8 + d in
    let sized : length (kind ∷ payload) ≡ length (take len rest) = ap length (sym taken) in
    let size : length payload + 1 ≡ len = omega (arith, length-take len rest) in
    let head =
      be32-announced a b c d (length payload + 1) bytes.0 bytes.1.0 bytes.1.1.0 bytes.1.1.1.0
        size in
    a_record kind payload (drop len rest) (omega arith)
      (rw head (
        ap (λ r. a ∷ b ∷ c ∷ d ∷ r)
          (sym (take-drop len rest) ∙ ap (λ t. t ++ drop len rest) taken)))
      (IsBytes-drop len rest bytes.1.1.1.1) found

view : (bytes : Bytes) → IsBytes bytes → View bytes
unfolding next_frame
view [] h = a_tail (inl (omega arith)) refl
view (a ∷ []) h = a_tail (inl (omega arith)) refl
view (a ∷ b ∷ []) h = a_tail (inl (omega arith)) refl
view (a ∷ b ∷ c ∷ []) h = a_tail (inl (omega arith)) refl
view (a ∷ b ∷ c ∷ d ∷ rest) h =
    let len : ℕ = a * 2 ^ 24 + b * 2 ^ 16 + c * 2 ^ 8 + d in
    elim (Bool-cases (len == 0)) [
      | inl none_there ↦ a_foreign (omega arith, inl (ground arith)) (rw none_there refl)
      | inr some_there ↦ elim (Bool-cases (ltb max_record_len len)) [
        | inl many ↦ a_foreign (omega arith, inr (ground arith)) (rw (some_there, many) refl)
        | inr few ↦ elim (Bool-cases (ltb (length rest) len)) [
          | inl short ↦
              a_tail (inr (ground arith, ground arith, ground arith))
                (rw (some_there, few, short) refl)
          | inr there ↦
              record-View a b c d rest (take len rest) h (ground arith) (ground arith)
                (ground arith) refl (rw (some_there, few, there) refl)
        ]
      ]
    ]

-- What `scan` says of some bytes behind `count` records and the first `good` bytes of a file.
record Found (fuel count good : ℕ) (bytes : Bytes) : Type 0 where
  records : List Stored
  rest : Bytes
  fit : Fit records
  same : bytes ≡ image records ++ rest
  verdict :
      (IsTail rest
        × (scan fuel count good bytes ≡ ok (count + length records, good + length (image records))))
      ⊎ (IsForeign rest
          × (scan fuel count good bytes ≡ err (corrupt (good + length (image records)))))

module _ (fuel count good : ℕ) where
  nothing_left : Found zero count good []
  unfolding image scan
  nothing_left = record {
    records = [];
    rest = [];
    fit = tt;
    same = refl;
    verdict = inl (inl (omega arith), ap₂ (λ x y. ok (x, y)) (omega arith) (omega arith));
  }

  tail_left :
      (bytes : Bytes) → IsTail bytes → next_frame bytes ≡ torn → Found (suc fuel) count good bytes
  unfolding image scan
  tail_left bytes ends found = record {
    records = [];
    rest = bytes;
    fit = tt;
    same = refl;
    verdict = inl (ends, rw (found, scan) (ap₂ (λ x y. ok (x, y)) (omega arith) (omega arith)));
  }

  foreign_left :
      (bytes : Bytes)
      → IsForeign bytes
      → next_frame bytes ≡ impossible
      → Found (suc fuel) count good bytes
  unfolding image scan
  foreign_left bytes ends found = record {
    records = [];
    rest = bytes;
    fit = tt;
    same = refl;
    verdict = inr (ends, rw (found, scan) (ap (λ x. err (corrupt x)) (omega arith)));
  }

  record_left :
      (bytes rest payload : Bytes) (kind : ℕ)
      → length payload + 1 ≤ max_record_len
      → bytes ≡ framed kind payload ++ rest
      → next_frame bytes ≡ frame (kind ∷ payload) rest
      → Found fuel (count + 1) (good + (4 + length (kind ∷ payload))) rest
      → Found (suc fuel) count good bytes
  unfolding image scan framed
  record_left bytes rest payload kind fits same found later =
      let longer : length (framed kind payload ++ image later.records)
          ≡ 4 + length (kind ∷ payload) + length (image later.records) =
        omega (
          arith,
          length-append (framed kind payload) (image later.records),
          length-framed kind payload,
        ) in
      record {
        records = record { kind = kind; payload = payload } ∷ later.records;
        rest = later.rest;
        fit = (fits, later.fit);
        same =
            same
            ∙ ap (λ t. framed kind payload ++ t) later.same
            ∙ sym (append_assoc (framed kind payload) (image later.records) later.rest);
        verdict = elim later.verdict [
          | inl (ends, result) ↦ inl (
            ends,
            rw (found, scan)
                (result ∙ ap₂ (λ x y. ok (x, y)) (omega arith) (omega (arith, longer))),
          )
          | inr (ends, result) ↦
              inr (
                ends,
                rw (found, scan) (result ∙ ap (λ x. err (corrupt x)) (omega (arith, longer))),
              )
        ];
      }

scan-Found :
    (fuel count good : ℕ) (bytes : Bytes)
    → IsBytes bytes
    → length bytes ≤ fuel
    → Found fuel count good bytes
scan-Found zero count good [] h enough = nothing_left 0 count good
scan-Found zero count good (b ∷ bytes) h enough = absurd (omega arith)
scan-Found (suc fuel) count good bytes h enough = elim (view bytes h) [
  | a_tail ends found ↦ tail_left fuel count good bytes ends found
  | a_foreign ends found ↦ foreign_left fuel count good bytes ends found
  | a_record kind payload rest fits same inside found ↦
      let sized : length bytes ≡ length (framed kind payload ++ rest) = ap length same in
      record_left fuel count good bytes rest payload kind fits same found (
        scan-Found fuel (count + 1) (good + (4 + length (kind ∷ payload))) rest inside
          (omega (arith, length-append (framed kind payload) rest, length-framed kind payload)))
]

same_length : (a b n : ℕ) → a ≡ b + n → (a == b) ≡ (n == 0)
same_length a b n e = ground arith

not_empty : (bytes : Bytes) → (length (header ++ bytes) == 0) ≡ false
not_empty bytes = ground arith

opens :
    (bytes : Bytes) (rs : List Stored) (rest : Bytes)
    → bytes ≡ image rs ++ rest
    → scan (length (header ++ bytes)) 0 header_len bytes
      ≡ ok (0 + length rs, header_len + length (image rs))
    → open_log (header ++ bytes)
      ≡ ok (record {
        file = header ++ image rs;
        count = length rs;
        broken = false;
        repaired = not (length rest == 0);
      })
unfolding open_log
opens bytes rs rest same result =
    let zero_count : 0 + length rs ≡ length rs = omega arith in
    let sized : length (header ++ bytes) ≡ header_len + length (image rs) + length rest =
      ap (λ b. length (header ++ b)) same
      ∙ omega (arith, length-append header (image rs ++ rest), length-append (image rs) rest) in
    rw (check_header-header bytes, open_log)
      (rw (result, zero_count, same_length _ _ _ sized, not_empty bytes)
        (ap
          (λ f. ok (record {
            file = f;
            count = length rs;
            broken = false;
            repaired = not (length rest == 0);
          }))
          (ap (λ b. take (header_len + length (image rs)) (header ++ b)) same ∙ take-file rs rest)))

refused :
    (bytes : Bytes) (rs : List Stored)
    → scan (length (header ++ bytes)) 0 header_len bytes
      ≡ err (corrupt (header_len + length (image rs)))
    → open_log (header ++ bytes) ≡ err (corrupt (header_len + length (image rs)))
unfolding open_log
refused bytes rs result =
    rw (check_header-header bytes, open_log) (rw (result, not_empty bytes) refl)

-- Some whole records, as many as can be told, and a rest that is none: the log opens with the
-- records where the rest is a tail, and is refused where it is foreign.
abbrev pub Verdict : Bytes → Type 0
Verdict bytes =
    (rs : List Stored) × (rest : Bytes) × Fit rs
    × (bytes ≡ image rs ++ rest)
    × ((IsTail rest
          × (open_log (header ++ bytes)
              ≡ ok (record {
                file = header ++ image rs;
                count = length rs;
                broken = false;
                repaired = not (length rest == 0);
              })))
        ⊎ (IsForeign rest
            × (open_log (header ++ bytes) ≡ err (corrupt (header_len + length (image rs))))))

-- Whatever bytes stand behind the header of a file, they are some whole records, none above the
-- limit, and a rest that does not begin with one. If the rest is too short for a length, or announces
-- a possible length and is too short for it, the log opens with exactly these records, the rest is
-- cut off, and a repair is reported unless it is empty. If the rest announces a length of zero or
-- above the limit, the log is refused as corrupt at the place where the rest begins.
pub open_log-Verdict : (bytes : Bytes) → IsBytes bytes → Verdict bytes
open_log-Verdict bytes h =
    let found =
      scan-Found (length (header ++ bytes)) 0 header_len bytes h
        (omega (arith, length-append header bytes)) in
    (
      found.records,
      found.rest,
      found.fit,
      found.same,
      elim found.verdict [
        | inl (ends, result) ↦ inl (ends, opens bytes found.records found.rest found.same result)
        | inr (ends, result) ↦ inr (ends, refused bytes found.records result)
      ],
    )
