-- ===== src/Http/Cut/Body.antt =====
-- However its bytes arrive, a body of crates/ls-http/src/request.rs is read whole.
use localsecrets.Common.{
  take-append_past, take-append, ℕ, zero, suc, ◌+◌, ◌-◌, ◌≤◌, ◌<◌, ◌≡◌, refl, sym, ap, Bool-cases,
  false, inl, inr, [], ◌∷◌, ◌++◌, arith, length, take, length-append, leb, ◌==◌,
}
use localsecrets.Common.Results.{ok}
use localsecrets.Http.{Limits}
use localsecrets.Http.Head.{Reader, arrived, interrupted, failed, read_body}
use localsecrets.Http.Cut.Chunks.{bytes_of, not_late}

-- A connection that neither fails, nor is interrupted, nor closes before its last byte.
abbrev pub IsFlowing : Reader → Type 0
IsFlowing [] = Unit
IsFlowing (arrived chunk ∷ reader) = (0 < length chunk) × IsFlowing reader
IsFlowing (_ ∷ reader) = ⊥

-- On a connection that neither fails, nor is interrupted, nor closes early, and in time, a body of
-- which at least the declared bytes arrive is read: it is the first of these bytes, as many as
-- declared, however they were split into chunks.
pub read_body-take :
    (limits : Limits) (clock : ℕ → ℕ) (reader : Reader) (turn wanted : ℕ)
    → ((n : ℕ) → clock n ≤ limits.head_deadline)
    → IsFlowing reader
    → wanted ≤ length (bytes_of reader)
    → read_body limits clock reader turn wanted ≡ ok (take wanted (bytes_of reader))
unfolding read_body
read_body-take limits clock [] turn zero in_time flowing enough = refl
read_body-take limits clock (arrived chunk ∷ rest) turn zero in_time flowing enough = refl
read_body-take limits clock (interrupted ∷ rest) turn zero in_time flowing enough = absurd flowing
read_body-take limits clock (failed ∷ rest) turn zero in_time flowing enough = absurd flowing
read_body-take limits clock [] turn (suc w) in_time flowing enough = absurd (omega arith)
read_body-take limits clock (interrupted ∷ rest) turn (suc w) in_time flowing enough =
    absurd flowing
read_body-take limits clock (failed ∷ rest) turn (suc w) in_time flowing enough = absurd flowing
read_body-take limits clock (arrived chunk ∷ rest) turn (suc w) in_time flowing enough =
    let wanted_more : (suc w == 0) ≡ false = ground arith in
    let some_bytes : 0 < length chunk = flowing.0 in
    let not_empty : (length chunk == 0) ≡ false = ground arith in
    let sizes : length (chunk ++ bytes_of rest) ≡ length chunk + length (bytes_of rest) =
      length-append chunk (bytes_of rest) in
    elim (Bool-cases (leb (suc w) (length chunk))) [
      | inl whole ↦
          rw (wanted_more, not_late limits clock in_time turn, not_empty, whole)
            (ap (λ b. ok b) (sym (take-append (suc w) chunk (bytes_of rest) (ground arith))))
      | inr part ↦
          let left : suc w - length chunk ≤ length (bytes_of rest) = omega arith in
          let more : read_body limits clock rest (suc turn) (suc w - length chunk)
              ≡ ok (take (suc w - length chunk) (bytes_of rest)) =
            read_body-take limits clock rest (suc turn) (suc w - length chunk) in_time flowing.1
              left in
          rw (wanted_more, not_late limits clock in_time turn, not_empty, part, more)
            (ap (λ b. ok b) (sym (take-append_past (suc w) chunk (bytes_of rest) (ground arith))))
    ]
