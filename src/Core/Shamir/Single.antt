-- ===== src/Core/Shamir/Single.antt =====
-- Shares of a threshold of one of crates/ls-core/src/crypto/shamir.rs: each is the whole secret.
use localsecrets.Common.{
  ℕ, zero, suc, ◌+◌, ◌*◌, ◌/◌, ◌%◌, ◌<◌, ◌≡◌, refl, sym, ap, ap₂, ◌∙◌, subst, true, List, [], ◌∷◌,
  ◌++◌, append_assoc, Bytes, IsBytes, length, length-append, get_or, arith, ◌==◌, holds_below,
  holds_below_at, Option,
}
use localsecrets.Common.Results.{ok}
use localsecrets.Core.Shamir.{
  Share, split, shares_from, share_bytes, evaluate, horner, gf_add, gf_mul, mul_steps, xor_bits,
  basis_from, byte_from, bytes_from, combine,
}
use localsecrets.Core.Shamir.Accepted.{combine_made}

gf_add_zero : (b : ℕ) → b < 256 → gf_add 0 b ≡ b
unfolding gf_add xor_bits
gf_add_zero b h = omega arith

mul_steps_zero : (k b : ℕ) → mul_steps k 0 b 0 ≡ 0
unfolding mul_steps gf_add xor_bits
mul_steps_zero zero b = refl
mul_steps_zero (suc k) b =
    let nothing : 0 * (b % 2) % 256 ≡ 0 = omega arith in rw nothing (mul_steps_zero k (b / 2))

-- Multiplying by one, checked for each byte.
one_table : holds_below (λ y. gf_mul y 1 == y) 256 ≡ true
unfolding holds_below gf_mul mul_steps gf_add xor_bits
one_table = refl

gf_mul_one : (y : ℕ) → y < 256 → gf_mul y 1 ≡ y
gf_mul_one y h =
    let test : (gf_mul y 1 == y) ≡ true = holds_below_at (λ y. gf_mul y 1 == y) 256 y h one_table in
    ground arith

evaluate-constant : (b x : ℕ) → b < 256 → evaluate b [] x ≡ b
unfolding evaluate horner gf_mul
evaluate-constant b x h = rw (mul_steps_zero 8 x) (gf_add_zero b h)

share_bytes-same :
    (secret : Bytes) (index : ℕ) → IsBytes secret → share_bytes secret [] 0 index ≡ secret
unfolding share_bytes
share_bytes-same [] index h = refl
share_bytes-same (b ∷ secret) index h =
    ap₂ (λ c cs. c ∷ cs) (evaluate-constant b index h.0) (share_bytes-same secret index h.1)

byte_from-single :
    (s : Share) (position : ℕ)
    → get_or s.share_data position 0 < 256
    → byte_from 0 position 0 (s ∷ []) (s ∷ []) ≡ get_or s.share_data position 0
unfolding byte_from basis_from
byte_from-single s position h =
    rw (gf_mul_one (get_or s.share_data position 0) h)
      (gf_add_zero (get_or s.share_data position 0) h)

get_or-byte : (bs : Bytes) (i : ℕ) → IsBytes bs → get_or bs i 0 < 256
get_or-byte [] i h = omega arith
get_or-byte (b ∷ bs) zero h = h.0
get_or-byte (b ∷ bs) (suc i) h = get_or-byte bs i h.1

get_or-append : (xs : Bytes) (b : ℕ) (ys : Bytes) → get_or (xs ++ b ∷ ys) (length xs) 0 ≡ b
get_or-append [] b ys = refl
get_or-append (x ∷ xs) b ys = get_or-append xs b ys

bytes_from-single :
    (s : Share) (before after : Bytes)
    → IsBytes s.share_data
    → s.share_data ≡ before ++ after
    → bytes_from (length after) (length before) (s ∷ []) ≡ after
unfolding bytes_from
bytes_from-single s before [] h same = refl
bytes_from-single s before (b ∷ after) h same =
    let here : byte_from 0 (length before) 0 (s ∷ []) (s ∷ []) ≡ b =
      byte_from-single s (length before) (get_or-byte s.share_data (length before) h)
      ∙ ap (λ d. get_or d (length before) 0) same
      ∙ get_or-append before b after in
    let next : length before + 1 ≡ length (before ++ b ∷ []) =
      sym (length-append before (b ∷ [])) in
    let later : bytes_from (length after) (length (before ++ b ∷ [])) (s ∷ []) ≡ after =
      bytes_from-single s (before ++ b ∷ []) after h
        (same ∙ sym (append_assoc before (b ∷ []) after)) in
    ap₂ (λ c cs. c ∷ cs) here (ap (λ n. bytes_from (length after) n (s ∷ [])) next ∙ later)

combine-single : (s : Share) → IsBytes s.share_data → combine (s ∷ []) ≡ ok s.share_data
combine-single s h =
    combine_made s [] (refl, tt, tt) ∙ ap (λ b. ok b) (bytes_from-single s [] s.share_data h refl)

-- Each of these shares, alone, gives the secret back.
abbrev pub EachGives : Bytes → List Share → Type 0
EachGives secret [] = Unit
EachGives secret (s ∷ shares) = (combine (s ∷ []) ≡ ok secret) × EachGives secret shares

shares_from-EachGives :
    (k index : ℕ) (secret : Bytes)
    → IsBytes secret
    → EachGives secret (shares_from k index secret [] 0)
unfolding shares_from
shares_from-EachGives zero index secret h = tt
shares_from-EachGives (suc k) index secret h =
    let same = share_bytes-same secret index h in
    (
      combine-single (record { index = index; share_data = share_bytes secret [] 0 index })
            (subst IsBytes (sym same) h)
          ∙ ap (λ b. ok b) same,
      shares_from-EachGives k (index + 1) secret h,
    )

length-shares_from : (k index : ℕ) (secret : Bytes) → length (shares_from k index secret [] 0) ≡ k
unfolding shares_from
length-shares_from zero index secret = refl
length-shares_from (suc k) index secret = ap suc (length-shares_from k (index + 1) secret)

split_one :
    (secret : Bytes) (count : ℕ) (random : Option Bytes) (shares : List Share)
    → split secret 1 count random ≡ ok shares
    → shares_from count 1 secret [] 0 ≡ shares
unfolding split
split_one secret count random shares made = ground arith

-- Where the threshold is one, every share of a split alone gives the secret back, however many
-- shares there are and whatever random bytes were drawn.
pub split-EachGives :
    (secret : Bytes) (count : ℕ) (random : Option Bytes) (shares : List Share)
    → IsBytes secret
    → split secret 1 count random ≡ ok shares
    → (length shares ≡ count) × EachGives secret shares
split-EachGives secret count random shares h made =
    subst (λ all. (length all ≡ count) × EachGives secret all)
      (split_one secret count random shares made)
      (length-shares_from count 1 secret, shares_from-EachGives count 1 secret h)
