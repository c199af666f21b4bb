-- ===== src/Core/Shamir/Examples.antt =====
-- Small runs of crates/ls-core/src/crypto/shamir.rs, with the example of FIPS 197.
use localsecrets.Common.{◌≡◌, refl, arith, none, some, List, [], ◌∷◌, length}
use localsecrets.Common.Results.{ok}
use localsecrets.Core.Shamir.Single.{EachGives, split-EachGives}
use localsecrets.Core.Shamir.{
  Share, gf_add, gf_mul, xor_bits, mul_steps, split, shares_from, share_bytes, evaluate, horner,
}

fips_product : gf_mul 0x57 0x83 ≡ 0xC1
unfolding gf_mul mul_steps gf_add xor_bits
fips_product = refl

two_of_two :
    split (7 ∷ []) 2 2 (some (9 ∷ []))
    ≡ ok (
        record { index = 1; share_data = 14 ∷ [] }
        ∷ record { index = 2; share_data = 21 ∷ [] }
        ∷ [])
unfolding split shares_from share_bytes evaluate horner gf_mul mul_steps gf_add xor_bits
two_of_two = refl

abbrev two_shares : List Share
two_shares =
    record { index = 1; share_data = 14 ∷ [] } ∷ record { index = 2; share_data = 21 ∷ [] } ∷ []

-- Two shares of two bytes, each the whole secret.
abbrev twice : List Share
twice =
    record { index = 1; share_data = 7 ∷ 200 ∷ [] }
    ∷ record { index = 2; share_data = 7 ∷ 200 ∷ [] }
    ∷ []

split_alone : split (7 ∷ 200 ∷ []) 1 2 none ≡ ok twice
unfolding split shares_from share_bytes evaluate horner gf_mul mul_steps gf_add xor_bits
split_alone = refl

split-EachGives_example : (length twice ≡ 2) × EachGives (7 ∷ 200 ∷ []) twice
split-EachGives_example = split-EachGives (7 ∷ 200 ∷ []) 2 none twice (omega arith) split_alone
