-- ===== src/Core/Shamir.antt =====
-- crates/ls-core/src/crypto/shamir.rs: the field, `split` and `combine`. The printed form of a
-- share is not here.
pub mod Accepted
pub mod Single
mod Examples
use localsecrets.Common.{
  ℕ, zero, suc, ◌+◌, ◌-◌, ◌*◌, ◌/◌, ◌%◌, ◌^◌, Bool, true, false, ◌||◌, Option, none, some, List, [],
  ◌∷◌, Bytes, length, get_or, take, drop, ltb, ◌==◌, if◌then◌else◌,
}
use localsecrets.Common.Results.{Result, ok, err}

-- `^` on the lowest bits of two numbers, so many of them.
unfoldable pub xor_bits : ℕ → ℕ → ℕ → ℕ
xor_bits zero a b = 0
xor_bits (suc k) a b = (a + b) % 2 + 2 * xor_bits k (a / 2) (b / 2)

-- `gf::add`.
unfoldable pub gf_add : ℕ → ℕ → ℕ
gf_add a b = xor_bits 8 a b

-- The loop of `gf::mul`: so many steps left, the two factors and the product so far.
unfoldable pub mul_steps : ℕ → ℕ → ℕ → ℕ → ℕ
mul_steps zero a b product = product
mul_steps (suc k) a b product =
    mul_steps k (gf_add (a * 2 % 256) (0x1B * (a / 128) % 256)) (b / 2)
      (gf_add product (a * (b % 2) % 256))

-- `gf::mul`.
unfoldable pub gf_mul : ℕ → ℕ → ℕ
gf_mul a b = mul_steps 8 a b 0

-- The loop of `gf::inverse`.
unfoldable pub power_steps : ℕ → ℕ → ℕ → ℕ
power_steps zero a result = result
power_steps (suc k) a result = power_steps k a (gf_mul result a)

-- `gf::inverse`.
unfoldable pub gf_inverse : ℕ → ℕ
gf_inverse a = if a == 0 then 0 else power_steps 254 a 1

-- `gf::div`.
unfoldable pub gf_div : ℕ → ℕ → ℕ
gf_div a b = gf_mul a (gf_inverse b)

pub data ShamirError : Type 0 where
  threshold_too_low : ShamirError
  threshold_above_share_count : (threshold shares : ℕ) → ShamirError
  empty_secret not_enough_shares length_mismatch : ShamirError
  duplicate_index : (index : ℕ) → ShamirError
  malformed_share checksum_mismatch entropy : ShamirError

pub record Share : Type 0 where
  pub index : ℕ
  pub share_data : Bytes

-- The loop of `evaluate`, from the last coefficient to the first.
unfoldable pub horner : Bytes → ℕ → ℕ
horner [] x = 0
horner (c ∷ coefficients) x = gf_add (gf_mul (horner coefficients x) x) c

unfoldable pub evaluate : ℕ → Bytes → ℕ → ℕ
evaluate constant coefficients x = gf_add (gf_mul (horner coefficients x) x) constant

-- The inner loop of `split`: the data of a share, each byte with its own coefficients.
unfoldable pub share_bytes : Bytes → Bytes → ℕ → ℕ → Bytes
share_bytes [] coefficients degree index = []
share_bytes (b ∷ secret) coefficients degree index =
    evaluate b (take degree coefficients) index
    ∷ share_bytes secret (drop degree coefficients) degree index

-- The outer loop: so many shares from an index on.
unfoldable pub shares_from : ℕ → ℕ → Bytes → Bytes → ℕ → List Share
shares_from zero index secret coefficients degree = []
shares_from (suc k) index secret coefficients degree =
    record { index = index; share_data = share_bytes secret coefficients degree index }
    ∷ shares_from k (index + 1) secret coefficients degree

-- `split`; the coefficients drawn are an argument, which is not looked at if none are needed.
unfoldable pub split : Bytes → ℕ → ℕ → Option Bytes → Result (List Share) ShamirError
split secret threshold shares random =
    if ltb threshold 1
    then err threshold_too_low
    else if ltb shares threshold
    then err (threshold_above_share_count threshold shares)
    else if length secret == 0
    then err empty_secret
    else if threshold == 1
    then ok (shares_from shares 1 secret [] 0)
    else elim random [
      | none ↦ err entropy
      | some coefficients ↦ ok (shares_from shares 1 secret coefficients (threshold - 1))
    ]

unfoldable pub has_index : ℕ → List Share → Bool
has_index index [] = false
has_index index (s ∷ shares) = s.index == index || has_index index shares

-- The checks of `combine`, with the shares already looked at.
unfoldable pub check_shares : ℕ → List Share → List Share → Result (Unit {0}) ShamirError
check_shares len seen [] = ok tt
check_shares len seen (s ∷ shares) =
    let rest = check_shares len (s ∷ seen) shares in
    if length s.share_data == len
    then if has_index s.index seen then err (duplicate_index s.index) else rest
    else err length_mismatch

-- The innermost loop: the basis polynomial of share `i`, at 0.
unfoldable pub basis_from : ℕ → ℕ → ℕ → ℕ → List Share → ℕ
basis_from basis i index j [] = basis
basis_from basis i index j (other ∷ shares) =
    let factor = gf_mul basis (gf_div other.index (gf_add index other.index)) in
    basis_from (if i == j then basis else factor) i index (j + 1) shares

-- The middle loop: one byte of the secret.
unfoldable pub byte_from : ℕ → ℕ → ℕ → List Share → List Share → ℕ
byte_from accumulated position i all [] = accumulated
byte_from accumulated position i all (s ∷ shares) =
    byte_from
      (gf_add accumulated (gf_mul (get_or s.share_data position 0) (basis_from 1 i s.index 0 all)))
      position (i + 1) all shares

-- The outer loop: so many bytes from a position on.
unfoldable pub bytes_from : ℕ → ℕ → List Share → Bytes
bytes_from zero position shares = []
bytes_from (suc k) position shares =
    byte_from 0 position 0 shares shares ∷ bytes_from k (position + 1) shares

unfoldable pub combine : List Share → Result Bytes ShamirError
combine [] = err not_enough_shares
combine (s ∷ shares) = elim (check_shares (length s.share_data) [] (s ∷ shares)) [
  | err e ↦ err e
  | ok _ ↦ ok (bytes_from (length s.share_data) 0 (s ∷ shares))
]
