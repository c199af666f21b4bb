-- ===== src/Http/Cut.antt =====
-- However its bytes arrive, a head of crates/ls-http/src/request.rs ends at the first blank line: where the search finds it.
pub mod Chunks
pub mod Body
use localsecrets.Common.{
  ℕ, zero, suc, ◌+◌, ◌-◌, ◌≤◌, ◌<◌, min, ◌≡◌, refl, sym, ap, ◌∙◌, subst, Bool, Bool-cases,
  Option-cases, true, false, ◌⊎◌, inl, inr, List, Option, none, some, [], ◌∷◌, ◌++◌, append_assoc,
  arith, Bytes, length, take, drop, has_prefix, length-append, length-take, leb, take_all,
  if◌then◌else◌, append-nil,
}
use localsecrets.Common.Results.{Result, ok, err}
use localsecrets.Http.{Limits, HttpError, head_too_large}
use localsecrets.Http.Head.{
  Reader, Arrival, arrived, interrupted, failed, left_over, HeadRead, terminator, terminator_at,
  at_or_after, search_from, is_late, after_chunk, read_head,
}

-- A terminator is whole where it is found, whatever follows.
pub terminator_at-fits : (xs : Bytes) (k : ℕ) → terminator_at xs ≡ some k → k + 4 ≤ length xs
unfolding terminator_at has_prefix
terminator_at-fits [] k h = cc
terminator_at-fits (a ∷ []) k h = ground arith
terminator_at-fits (a ∷ b ∷ []) k h = ground arith
terminator_at-fits (a ∷ b ∷ c ∷ []) k h = ground arith
terminator_at-fits (a ∷ b ∷ c ∷ d ∷ xs) k h =
    step (has_prefix terminator (a ∷ b ∷ c ∷ d ∷ [])) (terminator_at (b ∷ c ∷ d ∷ xs)) k
      (terminator_at-fits (b ∷ c ∷ d ∷ xs)) h
  where
    step :
        (here : Bool) (later : Option ℕ) (k : ℕ)
        → ((n : ℕ) → later ≡ some n → n + 4 ≤ length (b ∷ c ∷ d ∷ xs))
        → at_or_after here later ≡ some k
        → k + 4 ≤ length (a ∷ b ∷ c ∷ d ∷ xs)
    step true later k fits h = let same : some 0 ≡ some k = h in ground arith
    step false none k fits h = cc
    step false (some n) k fits h =
        let same : some (suc n) ≡ some k = h in
        let small : n + 4 ≤ length (b ∷ c ∷ d ∷ xs) = fits n refl in ground arith

pub terminator_at-more :
    (xs ys : Bytes) (k : ℕ) → terminator_at xs ≡ some k → terminator_at (xs ++ ys) ≡ some k
unfolding terminator_at has_prefix
terminator_at-more [] ys k h = cc
terminator_at-more (a ∷ []) ys k h = ground arith
terminator_at-more (a ∷ b ∷ []) ys k h = ground arith
terminator_at-more (a ∷ b ∷ c ∷ []) ys k h = ground arith
terminator_at-more (a ∷ b ∷ c ∷ d ∷ xs) ys k h =
    step (has_prefix terminator (a ∷ b ∷ c ∷ d ∷ [])) (terminator_at (b ∷ c ∷ d ∷ xs)) k
      (terminator_at-more (b ∷ c ∷ d ∷ xs) ys) h
  where
    step :
        (here : Bool) (later : Option ℕ) (k : ℕ)
        → ((n : ℕ) → later ≡ some n → terminator_at ((b ∷ c ∷ d ∷ xs) ++ ys) ≡ some n)
        → at_or_after here later ≡ some k
        → at_or_after here (terminator_at ((b ∷ c ∷ d ∷ xs) ++ ys)) ≡ some k
    step true later k same h = h
    step false none k same h = cc
    step false (some n) k same h = rw (same n refl) h

abbrev pub shift : ℕ → Option ℕ → Option ℕ
shift n none = none
shift n (some k) = some (n + k)

shift_zero : (o : Option ℕ) → o ≡ shift 0 o
shift_zero none = refl
shift_zero (some k) = ap (λ m. some m) (omega arith)

none_before :
    (here : Bool) (later : Option ℕ)
    → at_or_after here later ≡ none
    → (here ≡ false) × (later ≡ none)
none_before true later h = cc
none_before false none h = (refl, refl)
none_before false (some n) h = cc

shift-suc : (n : ℕ) (o : Option ℕ) → at_or_after false (shift n o) ≡ shift (suc n) o
shift-suc n none = refl
shift-suc n (some k) = ap (λ m. some m) (omega arith)

-- Three bytes back are enough to search from, where the bytes before hold no terminator.
pub terminator_at-search :
    (head chunk : Bytes)
    → terminator_at head ≡ none
    → terminator_at (head ++ chunk)
      ≡ shift (search_from head) (terminator_at (drop (search_from head) (head ++ chunk)))
unfolding terminator_at has_prefix
terminator_at-search [] chunk h = shift_zero _
terminator_at-search (a ∷ []) chunk h = shift_zero _
terminator_at-search (a ∷ b ∷ []) chunk h = shift_zero _
terminator_at-search (a ∷ b ∷ c ∷ []) chunk h = shift_zero _
terminator_at-search (a ∷ b ∷ c ∷ d ∷ xs) chunk h =
    let p =
      none_before (has_prefix terminator (a ∷ b ∷ c ∷ d ∷ [])) (terminator_at (b ∷ c ∷ d ∷ xs)) h in
    let e : search_from (a ∷ b ∷ c ∷ d ∷ xs) ≡ suc (search_from (b ∷ c ∷ d ∷ xs)) = omega arith in
    rw (p.0, e, terminator_at-search (b ∷ c ∷ d ∷ xs) chunk p.1)
      (shift-suc (search_from (b ∷ c ∷ d ∷ xs)) _)

shift-some : (n : ℕ) (o : Option ℕ) (k : ℕ) → shift n o ≡ some k → n ≤ k
shift-some n none k h = cc
shift-some n (some j) k h = let same : some (n + j) ≡ some k = h in ground arith

-- The bytes up to a blank line decide where it is.
pub terminator_at-prefix :
    (xs ys : Bytes) (k : ℕ)
    → terminator_at (xs ++ ys) ≡ some k
    → k + 4 ≤ length xs
    → terminator_at xs ≡ some k
terminator_at-prefix xs ys k h fits = elim (Option-cases (terminator_at xs)) [
  | inl missing ↦
      let late : search_from xs ≤ k =
        shift-some (search_from xs) (terminator_at (drop (search_from xs) (xs ++ ys))) k
          (sym (terminator_at-search xs ys missing) ∙ h) in
      absurd (omega arith)
  | inr (j, found) ↦ found ∙ sym (terminator_at-more xs ys j found) ∙ h
]
