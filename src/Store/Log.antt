-- ===== src/Store/Log.antt =====
-- crates/ls-store/src/log.rs and the constants of crates/ls-store/src/lib.rs. A file is its bytes.
-- What the disk does with a write is an argument; a read of a file does not fail. `read_fully`
-- returns what is there, so the loops walk the bytes. They run on fuel, one unit a record; the
-- callers give the length of the file, and no record is without bytes.
pub mod Frames
pub mod Scan
pub mod Recovery
pub mod Sealed
pub mod Examples
use localsecrets.Common.{
  ℕ, zero, suc, ◌+◌, ◌-◌, ◌*◌, ◌/◌, ◌%◌, ◌^◌, Bool, true, false, not, ◌&&◌, Option, none, some,
  List, [], ◌∷◌, ◌++◌, Bytes, Text, codes, length, take, drop, bytes_eq, ltb, leb, ◌==◌,
  if◌then◌else◌,
}
use localsecrets.Common.Results.{Result, ok, err, ◌>>=◌, ◌>>◌, Result-cases, >>=-ok, >>=_assoc}

abbrev pub header_len : ℕ
header_len = 8

abbrev pub max_record_len : ℕ
max_record_len = 1024 * 1024

-- `StoreError`; the reasons that `Corrupt` and `MalformedEvent` carry as texts are left out.
pub data StoreError : Type 0 where
  not_a_log : StoreError
  unsupported_version : ℕ → StoreError
  unreadable : (sequence : ℕ) → StoreError
  record_too_large : (len limit : ℕ) → StoreError
  crypto malformed_event broken_log : StoreError
  corrupt : (at : ℕ) → StoreError
  io : StoreError

abbrev pub magic : Bytes
magic = codes "LSLOG1"

abbrev pub format_version : ℕ
format_version = 1

abbrev pub kind_plain : ℕ
kind_plain = 0

abbrev pub kind_sealed : ℕ
kind_sealed = 1

-- `Log`: the file's bytes stand for the path and the handle.
pub record Log : Type 0 where
  pub file : Bytes
  pub count : ℕ
  pub broken : Bool
  pub repaired : Bool

abbrev pub header : Bytes
header = magic ++ 0 ∷ format_version ∷ []

-- `u32::to_be_bytes`.
unfoldable pub be32 : ℕ → Bytes
be32 n = n / 2 ^ 24 % 256 ∷ n / 2 ^ 16 % 256 ∷ n / 2 ^ 8 % 256 ∷ n % 256 ∷ []

-- The bytes of a record, as `write_record` lays them out.
unfoldable pub framed : ℕ → Bytes → Bytes
framed kind payload = be32 ((length payload + 1) % 2 ^ 32) ++ kind ∷ payload

-- What becomes of a write: all of it is on disk, or it failed with so many bytes written.
pub data Disk : Type 0 where
  written : Disk
  failed : ℕ → Disk

-- `write_record`.
unfoldable pub write_record : Disk → ℕ → Bytes → Log → Result (Unit {0}) StoreError × Log
write_record disk kind payload log =
    if log.broken
    then (err broken_log, log)
    else if ltb max_record_len (length payload + 1)
    then (err (record_too_large (length payload) max_record_len), log)
    else elim disk [
      | written ↦
          (ok tt, record log { file = log.file ++ framed kind payload; count = log.count + 1 })
      | failed n ↦
          (err io, record log { file = log.file ++ take n (framed kind payload); broken = true })
    ]

-- One turn of the loops of `scan` and `for_each_record`.
pub data Frame : Type 0 where
  -- too few bytes for a length, or for the body that it announces
  torn : Frame
  impossible : Frame
  frame : (body rest : Bytes) → Frame

unfoldable pub next_frame : Bytes → Frame
next_frame (a ∷ b ∷ c ∷ d ∷ rest) =
    let len = a * 2 ^ 24 + b * 2 ^ 16 + c * 2 ^ 8 + d in
    if len == 0
    then impossible
    else if ltb max_record_len len
    then impossible
    else if ltb (length rest) len
    then torn
    else frame (take len rest) (drop len rest)
next_frame _ = torn

-- `scan`: the number of complete records and the length of the file up to the last one.
unfoldable pub scan : ℕ → ℕ → ℕ → Bytes → Result (ℕ × ℕ) StoreError
scan zero count good_len rest = ok (count, good_len)
scan (suc fuel) count good_len rest = elim (next_frame rest) [
  | torn ↦ ok (count, good_len)
  | impossible ↦ err (corrupt good_len)
  | frame body rest' ↦ scan fuel (count + 1) (good_len + (4 + length body)) rest'
]

-- `check_header`, of a file with at least its first bytes.
unfoldable pub check_header : Bytes → Result (Unit {0}) StoreError
check_header file =
    if ltb (length file) header_len
    then err not_a_log
    else if not (bytes_eq (take 6 file) magic)
    then err not_a_log
    else elim (drop 7 (take header_len file)) [
      | [] ↦ err not_a_log
      | version ∷ _ ↦ if version == format_version then ok tt else err (unsupported_version version)
    ]

-- `Log::open`, where every write succeeds; an absent file is an empty one.
unfoldable pub open_log : Bytes → Result Log StoreError
open_log file =
    if length file == 0
    then ok (record { file = header; count = 0; broken = false; repaired = false })
    else do
      check_header file
      (count, good_len) ← scan (length file) 0 header_len (drop header_len file)
      ok (record {
        file = take good_len file;
        count = count;
        broken = false;
        repaired = not (length file == good_len);
      })

-- The loop of `for_each_record`, folding its visitor over the records.
unfoldable pub each_record {ℓ} :
    {S : Type ℓ} (visit : ℕ → ℕ → Bytes → S → Result S StoreError)
    → ℕ
    → ℕ
    → ℕ
    → Bytes
    → S
    → Result S StoreError
each_record visit zero sequence offset rest s = ok s
each_record visit (suc fuel) sequence offset rest s = elim (next_frame rest) [
  | torn ↦ ok s
  | impossible ↦ err (corrupt offset)
  | frame body rest' ↦ elim body [
    | [] ↦ ok s
    | kind ∷ payload ↦ do
      s' ← visit sequence kind payload s
      each_record visit fuel (sequence + 1) (offset + (4 + length (kind ∷ payload))) rest' s'
  ]
]

-- `for_each_record`: reads the header, which it does not look at, and then the records.
unfoldable pub for_each_record {ℓ} :
    {S : Type ℓ} (visit : ℕ → ℕ → Bytes → S → Result S StoreError) → Bytes → S → Result S StoreError
for_each_record visit file s =
    if ltb (length file) header_len
    then err not_a_log
    else each_record visit (length file) 0 header_len (drop header_len file) s

-- `read_plain`: a record that is not plain is stepped over.
unfoldable pub keep_plain : ℕ → ℕ → Bytes → List Bytes → Result (List Bytes) StoreError
keep_plain sequence kind payload out =
    if kind == kind_plain then ok (out ++ payload ∷ []) else ok out

unfoldable pub read_plain : Log → Result (List Bytes) StoreError
read_plain log = for_each_record keep_plain log.file []
