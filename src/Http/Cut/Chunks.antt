-- ===== src/Http/Cut/Chunks.antt =====
-- However its bytes arrive, a head of crates/ls-http/src/request.rs ends at the first blank line: the
-- loop of `read_head` over the chunks.
use localsecrets.Common.{
  take-append, drop-append, drop-append_past, take-drop, ℕ, suc, ◌+◌, ◌-◌, ◌≤◌, ◌<◌, min, ◌≡◌, refl,
  sym, ap, ◌∙◌, subst, Bool-cases, false, inl, inr, Option, none, some, [], ◌∷◌, ◌++◌, append_assoc,
  arith, Bytes, length, take, drop, length-append, length-take, leb, take_all, append-nil,
}
use localsecrets.Common.Results.{Result, ok}
use localsecrets.Http.{Limits, HttpError}
use localsecrets.Http.Head.{
  Reader, arrived, interrupted, failed, left_over, HeadRead, terminator_at, search_from, is_late,
  after_chunk, read_head,
}
use localsecrets.Http.Cut.{
  terminator_at-fits, terminator_at-more, terminator_at-search, terminator_at-prefix, shift,
}

-- The bytes that are still to come.
abbrev pub bytes_of : Reader → Bytes
bytes_of [] = []
bytes_of (arrived chunk ∷ reader) = chunk ++ bytes_of reader
bytes_of (interrupted ∷ reader) = bytes_of reader
bytes_of (failed ∷ reader) = bytes_of reader

-- A connection that neither fails nor closes before its last byte.
abbrev pub IsSteady : Reader → Type 0
IsSteady [] = Unit
IsSteady (arrived chunk ∷ reader) = (0 < length chunk) × IsSteady reader
IsSteady (interrupted ∷ reader) = IsSteady reader
IsSteady (failed ∷ reader) = ⊥

bytes_of-left_over :
    (bs : Bytes) (reader : Reader) → bytes_of (left_over bs reader) ≡ bs ++ bytes_of reader
bytes_of-left_over [] reader = refl
bytes_of-left_over (b ∷ bs) reader = refl

-- What `read_head` returns where the head ends `end` bytes from its start.
abbrev pub IsCut : ℕ → Bytes → Result HeadRead HttpError → Type 0
IsCut end all r =
    (rest : Reader) × (turn : ℕ) × (r ≡ ok (take end all, rest, turn))
    × (bytes_of rest ≡ drop end all)

module _ (limits : Limits) where
  abbrev longer : Bytes → Bytes → Bytes
  longer head chunk = head ++ take (limits.max_head - length head) chunk

  longer-whole :
      (head chunk rest : Bytes)
      → head ++ (chunk ++ rest)
        ≡ longer head chunk ++ (drop (limits.max_head - length head) chunk ++ rest)
  longer-whole head chunk rest =
      let m : ℕ = limits.max_head - length head in
      ap (λ c. head ++ (c ++ rest)) (sym (take-drop m chunk))
      ∙ ap (λ c. head ++ c) (append_assoc (take m chunk) (drop m chunk) rest)
      ∙ sym (append_assoc head (take m chunk) (drop m chunk ++ rest))

  IsCut-at :
      (head chunk : Bytes) (rest : Reader) (turn at : ℕ) (next : Result HeadRead HttpError)
      → terminator_at (longer head chunk) ≡ some (search_from head + at)
      → IsCut
          (search_from head + at + 4)
          (head ++ (chunk ++ bytes_of rest))
          (after_chunk limits head chunk rest turn next (some at))
  IsCut-at head chunk rest turn at next found =
      let end : ℕ = search_from head + at + 4 in
      let past : ℕ = end - length head in
      let fits : end ≤ length (longer head chunk) =
        terminator_at-fits (longer head chunk) (search_from head + at) found in
      let sizes : length (longer head chunk)
          ≡ length head + min (limits.max_head - length head) (length chunk) =
        length-append head (take (limits.max_head - length head) chunk)
        ∙ ap (λ n. length head + n) (length-take (limits.max_head - length head) chunk) in
      let within : past ≤ length chunk = omega arith in
      let split : end ≡ length head + past = omega arith in
      let same_head : take end (longer head chunk) ≡ take end (head ++ (chunk ++ bytes_of rest)) =
        sym (take-append end (longer head chunk) _ fits)
        ∙ ap (take end) (sym (longer-whole head chunk (bytes_of rest))) in
      let same_rest : drop past chunk ++ bytes_of rest
          ≡ drop end (head ++ (chunk ++ bytes_of rest)) =
        sym (drop-append past chunk (bytes_of rest) within)
        ∙ sym (drop-append_past past head (chunk ++ bytes_of rest))
        ∙ ap (λ n. drop n (head ++ (chunk ++ bytes_of rest))) (sym split) in
      (
        left_over (drop past chunk) rest,
        turn,
        ap (λ h. ok (h, left_over (drop past chunk) rest, turn)) same_head,
        bytes_of-left_over (drop past chunk) rest ∙ same_rest,
      )

  IsCut-found :
      (head chunk : Bytes) (rest : Reader) (turn at k : ℕ) (next : Result HeadRead HttpError)
      → terminator_at (longer head chunk) ≡ some (search_from head + at)
      → terminator_at (head ++ (chunk ++ bytes_of rest)) ≡ some k
      → IsCut
          (k + 4)
          (head ++ (chunk ++ bytes_of rest))
          (after_chunk limits head chunk rest turn next (some at))
  IsCut-found head chunk rest turn at k next found whole =
      let same : some (search_from head + at) ≡ some k =
        sym (terminator_at-more (longer head chunk) _ (search_from head + at) found)
        ∙ ap terminator_at (sym (longer-whole head chunk (bytes_of rest)))
        ∙ whole in
      let n_is : search_from head + at ≡ k = cc in
      subst
        (λ n.
          IsCut (n + 4) (head ++ (chunk ++ bytes_of rest))
            (after_chunk limits head chunk rest turn next (some at)))
        n_is (IsCut-at head chunk rest turn at next found)

  IsCut-later :
      (head chunk : Bytes) (rest : Reader) (turn k : ℕ) (next : Result HeadRead HttpError)
      → terminator_at (longer head chunk) ≡ none
      → terminator_at (head ++ (chunk ++ bytes_of rest)) ≡ some k
      → k + 4 ≤ limits.max_head
      → (length (longer head chunk) ≤ limits.max_head
          → terminator_at (longer head chunk ++ bytes_of rest) ≡ some k
          → IsCut (k + 4) (longer head chunk ++ bytes_of rest) next)
      → IsCut
          (k + 4)
          (head ++ (chunk ++ bytes_of rest))
          (after_chunk limits head chunk rest turn next none)
  IsCut-later head chunk rest turn k next missing whole fits later =
      elim (Bool-cases (leb limits.max_head (length (longer head chunk)))) [
        | inl full ↦
            let there : terminator_at (longer head chunk) ≡ some k =
              terminator_at-prefix (longer head chunk) _ k
                (ap terminator_at (sym (longer-whole head chunk (bytes_of rest))) ∙ whole)
                (ground arith) in
            absurd (cc (missing, there))
        | inr room ↦
            let bound : length (longer head chunk) < limits.max_head = ground arith in
            let sizes : length (longer head chunk)
                ≡ length head + min (limits.max_head - length head) (length chunk) =
              length-append head (take (limits.max_head - length head) chunk)
              ∙ ap (λ n. length head + n) (length-take (limits.max_head - length head) chunk) in
            let small : length chunk ≤ limits.max_head - length head = omega arith in
            let taken : longer head chunk ++ bytes_of rest ≡ head ++ (chunk ++ bytes_of rest) =
              ap (λ c. (head ++ c) ++ bytes_of rest)
                (take_all (limits.max_head - length head) chunk small)
              ∙ append_assoc head chunk (bytes_of rest) in
            rw room (
              subst (λ all. IsCut (k + 4) all next) taken
                (later (omega arith) (ap terminator_at taken ∙ whole)))
      ]

  IsCut-chunk :
      (head chunk : Bytes) (rest : Reader) (turn k : ℕ) (search : Option ℕ)
      (next : Result HeadRead HttpError)
      → terminator_at head ≡ none
      → terminator_at (drop (search_from head) (longer head chunk)) ≡ search
      → terminator_at (head ++ (chunk ++ bytes_of rest)) ≡ some k
      → k + 4 ≤ limits.max_head
      → (length (longer head chunk) ≤ limits.max_head
          → terminator_at (longer head chunk) ≡ none
          → terminator_at (longer head chunk ++ bytes_of rest) ≡ some k
          → IsCut (k + 4) (longer head chunk ++ bytes_of rest) next)
      → IsCut
          (k + 4)
          (head ++ (chunk ++ bytes_of rest))
          (after_chunk limits head chunk rest turn next search)
  IsCut-chunk head chunk rest turn k none next missing search whole fits later =
      let still : terminator_at (longer head chunk) ≡ none =
        terminator_at-search head (take (limits.max_head - length head) chunk) missing
        ∙ ap (shift (search_from head)) search in
      IsCut-later head chunk rest turn k next still whole fits (λ room. later room still)
  IsCut-chunk head chunk rest turn k (some at) next missing search whole fits later =
      IsCut-found head chunk rest turn at k next
        (terminator_at-search head (take (limits.max_head - length head) chunk) missing
          ∙ ap (shift (search_from head)) search)
        whole

pub not_late :
    (limits : Limits) (clock : ℕ → ℕ)
    → ((n : ℕ) → clock n ≤ limits.head_deadline)
    → (turn : ℕ) → is_late limits clock turn ≡ false
not_late limits clock in_time turn =
    let bound : clock turn ≤ limits.head_deadline = in_time turn in ground arith

module _ (limits : Limits) (clock : ℕ → ℕ) where
  read_head-from :
      (reader : Reader) (turn : ℕ) (head : Bytes) (k : ℕ)
      → ((n : ℕ) → clock n ≤ limits.head_deadline)
      → IsSteady reader
      → length head ≤ limits.max_head
      → terminator_at head ≡ none
      → terminator_at (head ++ bytes_of reader) ≡ some k
      → k + 4 ≤ limits.max_head
      → IsCut (k + 4) (head ++ bytes_of reader) (read_head limits clock reader turn head)
  unfolding read_head
  read_head-from [] turn head k in_time steady small missing whole fits =
      absurd (cc (missing, whole, append-nil head))
  read_head-from (interrupted ∷ rest) turn head k in_time steady small missing whole fits =
      rw (not_late limits clock in_time turn)
        (read_head-from rest (suc turn) head k in_time steady small missing whole fits)
  read_head-from (failed ∷ rest) turn head k in_time steady small missing whole fits = absurd steady
  read_head-from (arrived [] ∷ rest) turn head k in_time steady small missing whole fits =
      absurd (omega (arith, steady.0))
  read_head-from (arrived (b ∷ bs) ∷ rest) turn head k in_time steady small missing whole fits =
      rw (not_late limits clock in_time turn) (
        IsCut-chunk limits head (b ∷ bs) rest (suc turn) k
          (terminator_at (drop (search_from head) (longer limits head (b ∷ bs)))) _ missing refl
          whole fits
          (λ room none_yet still.
            read_head-from rest (suc turn) (longer limits head (b ∷ bs)) k in_time steady.1 room
              none_yet still fits))

  -- On a connection that neither fails nor closes early, and in time, the head is what comes before the
  -- end of the first blank line, however the bytes were split into chunks, where that is within the
  -- limit. What is left to read is the rest.
  pub read_head-IsCut :
      (reader : Reader) (k : ℕ)
      → ((n : ℕ) → clock n ≤ limits.head_deadline)
      → IsSteady reader
      → terminator_at (bytes_of reader) ≡ some k
      → k + 4 ≤ limits.max_head
      → IsCut (k + 4) (bytes_of reader) (read_head limits clock reader 0 [])
  unfolding terminator_at
  read_head-IsCut reader k in_time steady whole fits =
      read_head-from reader 0 [] k in_time steady (omega arith) refl whole fits
