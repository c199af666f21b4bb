-- ===== src/Core/Aead/Examples.antt =====
-- The contexts of crates/ls-core/src/crypto/aead.rs at inputs.
use localsecrets.Common.{◌≡◌, refl, [], ◌∷◌, arith, codes}
use localsecrets.Core.Aead.Context.{aad_injective}

aad_injective_example :
    (codes "log" ≡ codes "log") × (codes "7" ∷ codes "ab" ∷ [] ≡ codes "7" ∷ codes "ab" ∷ [])
aad_injective_example =
    aad_injective (codes "log") (codes "log") (codes "7" ∷ codes "ab" ∷ [])
      (codes "7" ∷ codes "ab" ∷ []) (omega arith) (omega arith) (omega arith) (omega arith) refl
