-- ===== src/Store/Log/Recovery.antt =====
-- What a `Log` of crates/ls-store/src/log.rs holds, through writes, crashes and reopening.
use localsecrets.Common.{
  ℕ, suc, ◌+◌, ◌≤◌, ◌<◌, ◌≡◌, refl, sym, ap, ◌∙◌, Bool, true, false, not, List, [], ◌∷◌, ◌++◌,
  arith, Bytes, bytes_eq, length, take, length-append, length-take, append_assoc, take-append_left,
  take_all, ◌==◌, leb, ◌&&◌, Bool-cases, inl, inr, if◌then◌else◌, append-nil,
}
use localsecrets.Common.Results.{ok, err}
use localsecrets.Store.Log.{
  Log, Disk, written, failed, io, broken_log, header, header_len, max_record_len, next_frame,
  framed, write_record, open_log, check_header, torn,
}
use localsecrets.Store.Log.Frames.{Stored, image, Fit, next_frame-take, scan-image, length-framed}

-- The file is the header and these records, whole, and the log counts them.
pub record Holds (log : Log) (rs : List Stored) : Type 0 where
  pub file : log.file ≡ header ++ image rs
  pub count : log.count ≡ length rs
  pub unbroken : log.broken ≡ false
  pub fit : Fit rs

image-append : (rs ss : List Stored) → image (rs ++ ss) ≡ image rs ++ image ss
unfolding image
image-append [] ss = refl
image-append (r ∷ rs) ss = rw (image-append rs ss, append_assoc)

image-push :
    (rs : List Stored) (kind : ℕ) (payload : Bytes)
    → image (rs ++ record { kind = kind; payload = payload } ∷ []) ≡ image rs ++ framed kind payload
image-push rs kind payload =
    image-append rs (record { kind = kind; payload = payload } ∷ [])
    ∙ ap (λ t. image rs ++ t) (unfold image in append-nil (framed kind payload))

Fit-append :
    (rs : List Stored) (r : Stored)
    → Fit rs
    → length r.payload + 1 ≤ max_record_len
    → Fit (rs ++ r ∷ [])
Fit-append [] r h fits = (fits, tt)
Fit-append (x ∷ rs) r h fits = (h.0, Fit-append rs r h.1 fits)

pub length-image : (rs : List Stored) → length rs ≤ length (image rs)
unfolding image
length-image [] = omega arith
length-image (r ∷ rs) = omega (
  arith,
  length-image rs,
  length-append (framed r.kind r.payload) (image rs),
  length-framed r.kind r.payload,
)

pub check_header-header : (rest : Bytes) → check_header (header ++ rest) ≡ ok tt
unfolding check_header bytes_eq
check_header-header rest = ground arith

pub take-file :
    (rs : List Stored) (tail : Bytes)
    → take (header_len + length (image rs)) (header ++ (image rs ++ tail)) ≡ header ++ image rs
take-file rs tail =
    rw (add-eight (length (image rs))) (ap (λ t. header ++ t) (take-append_left (image rs) tail))
  where
    add-eight : (n : ℕ) → header_len + n ≡ suc (suc (suc (suc (suc (suc (suc (suc n)))))))
    add-eight n = omega arith

-- Opening whole records and a torn tail.
open-torn :
    (rs : List Stored) (tail : Bytes)
    → Fit rs
    → next_frame tail ≡ torn
    → open_log (header ++ (image rs ++ tail))
      ≡ ok (record {
        file = header ++ image rs;
        count = length rs;
        broken = false;
        repaired = not (length tail == 0);
      })
unfolding open_log
open-torn rs tail fits end =
    rw (check_header-header (image rs ++ tail), open_log)
      (rw
        (
          scan-image (length (header ++ (image rs ++ tail))) 0 header_len rs tail fits end
              (omega (arith, length-image rs, length-append (image rs) tail)),
          open_log,
        )
        (ground (arith, length-append (image rs) tail, take-file rs tail)))

module _ (log : Log) (kind : ℕ) (payload : Bytes) (unbroken : log.broken ≡ false)
    (fits : length payload + 1 ≤ max_record_len) where
  pub write-written :
      write_record written kind payload log
      ≡ (ok tt, record log { file = log.file ++ framed kind payload; count = log.count + 1 })
  unfolding write_record
  write-written = ground arith

  pub write-failed :
      (n : ℕ)
      → write_record (failed n) kind payload log
        ≡ (err io, record log { file = log.file ++ take n (framed kind payload); broken = true })
  unfolding write_record
  write-failed n = ground arith

pub write-Holds :
    {log : Log} {rs : List Stored} (kind : ℕ) (payload : Bytes)
    → Holds log rs
    → length payload + 1 ≤ max_record_len
    → Holds
        (write_record written kind payload log).1
        (rs ++ record { kind = kind; payload = payload } ∷ [])
write-Holds {log} {rs} kind payload h fits =
    rw (write-written log kind payload h.unbroken fits) (record {
      file =
          ap (λ f. f ++ framed kind payload) h.file
          ∙ ap (λ t. header ++ t) (sym (image-push rs kind payload));
      count =
          omega (arith, h.count, length-append rs (record { kind = kind; payload = payload } ∷ []));
      unbroken = h.unbroken;
      fit = Fit-append rs (record { kind = kind; payload = payload }) h.fit fits;
    })

-- A failed write leaves a torn tail, unless all of it was written.
reopen-torn :
    {log : Log} {rs : List Stored} (n kind : ℕ) (payload : Bytes)
    → Holds log rs
    → length payload + 1 ≤ max_record_len
    → n < length (framed kind payload)
    → open_log (write_record (failed n) kind payload log).1.file
      ≡ ok (record {
        file = header ++ image rs;
        count = length rs;
        broken = false;
        repaired = not (n == 0);
      })
reopen-torn {log} {rs} n kind payload h fits short =
    rw (write-failed log kind payload h.unbroken fits n, h.file)
      (open-torn rs (take n (framed kind payload)) h.fit (next_frame-take n kind payload fits short)
        ∙ ground (arith, length-take n (framed kind payload)))

open-whole :
    (rs : List Stored)
    → Fit rs
    → open_log (header ++ image rs)
      ≡ ok (record {
        file = header ++ image rs;
        count = length rs;
        broken = false;
        repaired = false;
      })
open-whole rs fits =
    ap (λ t. open_log (header ++ t)) (sym (append-nil (image rs)))
    ∙ open-torn rs [] fits (unfold next_frame in refl)

reopen_whole :
    {log : Log} {rs : List Stored} (n kind : ℕ) (payload : Bytes)
    → Holds log rs
    → length payload + 1 ≤ max_record_len
    → length (framed kind payload) ≤ n
    → open_log (write_record (failed n) kind payload log).1.file
      ≡ ok (record {
        file = header ++ image (rs ++ record { kind = kind; payload = payload } ∷ []);
        count = length (rs ++ record { kind = kind; payload = payload } ∷ []);
        broken = false;
        repaired = false;
      })
reopen_whole {log} {rs} n kind payload h fits whole =
    let rs' : List Stored = rs ++ record { kind = kind; payload = payload } ∷ [] in
    rw
      (
        write-failed log kind payload h.unbroken fits n,
        h.file,
        take_all n (framed kind payload) whole,
        ← image-push rs kind payload,
      )
      (open-whole rs' (Fit-append rs (record { kind = kind; payload = payload }) h.fit fits))

-- What happens to a log: a write that the disk completes, or one that fails with so many bytes
-- written, after which the log is opened again.
pub data Happening : Type 0 where
  write : (kind : ℕ) (payload : Bytes) → Happening
  crash : (written : ℕ) (kind : ℕ) (payload : Bytes) → Happening

reopened : Log → Log
reopened log = elim (open_log log.file) [ ok log' ↦ log' | err e ↦ log ]

unfoldable pub live : Log → Happening → Log
unfolding reopened
live log (write kind payload) = (write_record written kind payload log).1
live log (crash n kind payload) = reopened (write_record (failed n) kind payload log).1

unfoldable pub live_all : Log → List Happening → Log
live_all log [] = log
live_all log (x ∷ xs) = live_all (live log x) xs

-- The records that are then there: those of a size that is accepted and wholly written.
unfoldable pub kept : List Stored → Happening → List Stored
kept rs (write kind payload) =
    if leb (length payload + 1) max_record_len
    then rs ++ record { kind = kind; payload = payload } ∷ []
    else rs
kept rs (crash n kind payload) =
    if leb (length payload + 1) max_record_len && leb (length (framed kind payload)) n
    then rs ++ record { kind = kind; payload = payload } ∷ []
    else rs

unfoldable pub kept_all : List Stored → List Happening → List Stored
kept_all rs [] = rs
kept_all rs (x ∷ xs) = kept_all (kept rs x) xs

reopened-Holds :
    (log : Log) (rs : List Stored) (repaired : Bool)
    → Fit rs
    → open_log log.file
      ≡ ok (record {
        file = header ++ image rs;
        count = length rs;
        broken = false;
        repaired = repaired;
      })
    → Holds (reopened log) rs
unfolding reopened
reopened-Holds log rs repaired fits opens =
    rw (opens, reopened) (record { file = refl; count = refl; unbroken = refl; fit = fits })

write-large :
    (disk : Disk) (log : Log) (kind : ℕ) (payload : Bytes)
    → log.broken ≡ false
    → leb (length payload + 1) max_record_len ≡ false
    → (write_record disk kind payload log).1 ≡ log
unfolding write_record
write-large disk log kind payload unbroken large = ground arith

crash-Holds :
    {log : Log} {rs : List Stored} (n kind : ℕ) (payload : Bytes)
    → Holds log rs
    → Holds (live log (crash n kind payload)) (kept rs (crash n kind payload))
unfolding live kept
crash-Holds {log} {rs} n kind payload h =
    let after = (write_record (failed n) kind payload log).1 in
    let r : Stored = record { kind = kind; payload = payload } in
    elim (Bool-cases (leb (length payload + 1) max_record_len)) [
      | inl small ↦ elim (Bool-cases (leb (length (framed kind payload)) n)) [
        | inl whole ↦
            let fits : length payload + 1 ≤ max_record_len = ground arith in
            rw (small, whole)
              (reopened-Holds after (rs ++ r ∷ []) false (Fit-append rs r h.fit fits)
                (reopen_whole n kind payload h fits (ground arith)))
        | inr part ↦
            rw (small, part)
              (reopened-Holds after rs (not (n == 0)) h.fit
                (reopen-torn n kind payload h (ground arith) (ground arith)))
      ]
      | inr large ↦
          rw (large, write-large (failed n) log kind payload h.unbroken large)
            (reopened-Holds log rs false h.fit (rw h.file (open-whole rs h.fit)))
    ]

live-Holds :
    {log : Log} {rs : List Stored} (x : Happening) → Holds log rs → Holds (live log x) (kept rs x)
unfolding live kept
live-Holds {log} {rs} (write kind payload) h =
    elim (Bool-cases (leb (length payload + 1) max_record_len)) [
      | inl small ↦ rw small (write-Holds kind payload h (ground arith))
      | inr large ↦ rw (large, write-large written log kind payload h.unbroken large) h
    ]
live-Holds (crash n kind payload) h = crash-Holds n kind payload h

-- Through any sequence of writes, and of writes that fail with some of their bytes on disk and are
-- followed by a reopening, a log that holds some whole records holds these and, in order, each
-- further record that was accepted and wholly written; it counts them, and is not broken.
pub live_all-Holds :
    (log : Log) (rs : List Stored) (xs : List Happening)
    → Holds log rs
    → Holds (live_all log xs) (kept_all rs xs)
unfolding live_all kept_all
live_all-Holds log rs [] h = h
live_all-Holds log rs (x ∷ xs) h = live_all-Holds (live log x) (kept rs x) xs (live-Holds x h)

-- After a write that failed, every write is refused and leaves the file alone, until the log is
-- opened again.
pub failed_write_blocks :
    (log : Log) (n kind kind' : ℕ) (payload payload' : Bytes) (disk : Disk)
    → (write_record (failed n) kind payload log).0 ≡ err io
    → let after = (write_record (failed n) kind payload log).1 in
      write_record disk kind' payload' after ≡ (err broken_log, after)
unfolding write_record
failed_write_blocks log n kind kind' payload payload' disk h = ground arith
