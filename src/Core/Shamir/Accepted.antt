-- ===== src/Core/Shamir/Accepted.antt =====
-- Which shares `combine` of crates/ls-core/src/crypto/shamir.rs puts together.
use localsecrets.Common.{
  ℕ, ◌≡◌, ◌≢◌, ◌↔◌, refl, true, false, List, [], ◌∷◌, Bytes, length, arith, ◌==◌,
}
use localsecrets.Common.Results.{Result, ok, err}
use localsecrets.Core.Shamir.{Share, ShamirError, has_index, check_shares, bytes_from, combine}

-- A share of another index than each of these.
abbrev pub Fresh : ℕ → List Share → Type 0
Fresh index [] = Unit
Fresh index (s ∷ shares) = (s.index ≢ index) × Fresh index shares

-- Shares of one length, and each of another index than those before it.
abbrev pub Fitting : ℕ → (before shares : List Share) → Type 0
Fitting size before [] = Unit
Fitting size before (s ∷ shares) =
    (length s.share_data ≡ size) × Fresh s.index before × Fitting size (s ∷ before) shares

has_index-Fresh :
    (index : ℕ) (shares : List Share) → (has_index index shares ≡ false) ↔ Fresh index shares
unfolding has_index
has_index-Fresh index [] = (λ h. tt, λ h. refl)
has_index-Fresh index (s ∷ shares) = ground (arith, has_index-Fresh index shares)

Fitting-check_shares :
    (size : ℕ) (before shares : List Share)
    → Fitting size before shares
    → check_shares size before shares ≡ ok tt
unfolding check_shares
Fitting-check_shares size before [] h = refl
Fitting-check_shares size before (s ∷ shares) h =
    let long : (length s.share_data == size) ≡ true = ground arith in
    let once : has_index s.index before ≡ false = (has_index-Fresh s.index before).1 h.1 in
    rw (long, once) (Fitting-check_shares size (s ∷ before) shares h.2)

combine-check :
    (s : Share) (shares : List Share) (r : Result (Unit {0}) ShamirError)
    → check_shares (length s.share_data) [] (s ∷ shares) ≡ r
    → combine (s ∷ shares) ≡ (elim r as (λ _. Result Bytes ShamirError) [
      | err e ↦ err e
      | ok _ ↦ ok (bytes_from (length s.share_data) 0 (s ∷ shares))
    ])
unfolding combine
combine-check s shares r h = rw (h, combine) refl

pub combine_made :
    (s : Share) (shares : List Share)
    → Fitting (length s.share_data) [] (s ∷ shares)
    → combine (s ∷ shares) ≡ ok (bytes_from (length s.share_data) 0 (s ∷ shares))
combine_made s shares fitting =
    combine-check s shares (ok tt)
      (Fitting-check_shares (length s.share_data) [] (s ∷ shares) fitting)
