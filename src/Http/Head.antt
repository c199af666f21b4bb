-- ===== src/Http/Head.antt =====
-- crates/ls-http/src/request.rs: `read_head` and `read_body`. A reader is what is still to come from
-- it, call by call; what a call left of a chunk is the first of them. The loops check the clock at
-- their top: `clock n` is the time since the start at the check number `n`.
use localsecrets.Common.{
  ℕ, suc, ◌+◌, ◌-◌, min, Bool, true, false, List, Option, none, some, [], ◌∷◌, ◌++◌, Bytes, length,
  take, drop, has_prefix, codes, ◌==◌, ltb, leb, if◌then◌else◌,
}
use localsecrets.Common.Results.{Result, ok, err, ◌>>=◌}
use localsecrets.Http.{
  Limits, HttpError, incomplete, timed_out, malformed, incomplete_body, head_too_large,
}

pub data Arrival : Type 0 where
  arrived : Bytes → Arrival
  interrupted : Arrival
  failed : Arrival

abbrev pub Reader : Type 0
Reader = List Arrival

-- `BufRead::consume`, with what is left of the chunk in front.
abbrev pub left_over : Bytes → Reader → Reader
left_over [] reader = reader
left_over (b ∷ bs) reader = arrived (b ∷ bs) ∷ reader

abbrev pub terminator : Bytes
terminator = 13 ∷ 10 ∷ 13 ∷ 10 ∷ []

abbrev pub at_or_after : Bool → Option ℕ → Option ℕ
at_or_after true later = some 0
at_or_after false none = none
at_or_after false (some n) = some (suc n)

-- `windows(4).position(..)`.
unfoldable pub terminator_at : Bytes → Option ℕ
terminator_at [] = none
terminator_at (b ∷ bs) = at_or_after (has_prefix terminator (b ∷ bs)) (terminator_at bs)

abbrev pub head_ended : Bytes → HttpError
head_ended [] = incomplete
head_ended (b ∷ bs) = malformed (codes "head ended without a blank line")

-- Where the search for the terminator starts: three bytes back.
abbrev pub search_from : Bytes → ℕ
search_from head = length head - min (length head) 3

-- The head, the reader behind it and the number of the next check.
abbrev pub HeadRead : Type 0
HeadRead = Bytes × Reader × ℕ

module _ (limits : Limits) where
  -- A chunk that ends the head, or after which the loop goes on. It goes on where the chunk was
  -- taken whole: what is cut short fills the head up to its limit.
  abbrev pub after_chunk :
      (head chunk : Bytes) (rest : Reader) (turn : ℕ) (next : Result HeadRead HttpError)
      → Option ℕ
      → Result HeadRead HttpError
  after_chunk head chunk rest turn next (some at) =
      let end = search_from head + at + 4 in
      ok (
        take end (head ++ take (limits.max_head - length head) chunk),
        left_over (drop (end - length head) chunk) rest,
        turn,
      )
  after_chunk head chunk rest turn next none =
      if leb limits.max_head (length (head ++ take (limits.max_head - length head) chunk))
      then err head_too_large
      else next

module _ (limits : Limits) (clock : ℕ → ℕ) where
  abbrev pub is_late : ℕ → Bool
  is_late turn = ltb limits.head_deadline (clock turn)

  unfoldable pub read_head : Reader → (turn : ℕ) (head : Bytes) → Result HeadRead HttpError
  unfolding terminator_at
  read_head [] turn head = if is_late turn then err timed_out else err (head_ended head)
  read_head (interrupted ∷ rest) turn head =
      let next = read_head rest (suc turn) head in if is_late turn then err timed_out else next
  read_head (failed ∷ rest) turn head = err timed_out
  read_head (arrived [] ∷ rest) turn head =
      if is_late turn then err timed_out else err (head_ended head)
  read_head (arrived (b ∷ bs) ∷ rest) turn head =
      let longer = head ++ take (limits.max_head - length head) (b ∷ bs) in
      let next = read_head rest (suc turn) longer in
      if is_late turn
      then err timed_out
      else after_chunk limits head (b ∷ bs) rest (suc turn) next
          (terminator_at (drop (search_from head) longer))

  -- The bytes from `filled` on, of which `wanted` are missing.
  unfoldable pub read_body : Reader → (turn wanted : ℕ) → Result Bytes HttpError
  read_body [] turn wanted =
      if wanted == 0 then ok [] else if is_late turn then err timed_out else err incomplete_body
  read_body (arrived chunk ∷ rest) turn wanted =
      let more = read_body rest (suc turn) (wanted - length chunk) in
      if wanted == 0
      then ok []
      else if is_late turn
      then err timed_out
      else if length chunk == 0
      then err incomplete_body
      else if leb wanted (length chunk)
      then ok (take wanted chunk)
      else more >>= λ body. ok (chunk ++ body)
  read_body (_ ∷ rest) turn wanted =
      if wanted == 0 then ok [] else if is_late turn then err timed_out else err incomplete_body
