-- ===== src/Server/Validate/Examples.antt =====
-- Small runs of crates/ls-server/src/validate.rs.
use localsecrets.Common.{◌≡◌, refl, codes, trim, lower}
use localsecrets.Common.Results.{ok, err}
use localsecrets.Server.Errors.{invalid}
use localsecrets.Server.Validate.{every, slug, starts_with, ends_with, email, split_once}
use localsecrets.Server.Validate.Names.{target_injective}

dash_refused : slug (codes "-e") (codes "project slug") ≡ err (invalid (codes "project slug"))
unfolding slug starts_with
dash_refused = refl

address_normal : email (codes " Dev@Example.com ") ≡ ok (codes "dev@example.com")
unfolding email trim lower split_once every
address_normal = refl

target_injective_example :
    (codes "p" ≡ codes "p") × (codes "e-1" ≡ codes "e-1") × (codes "K" ≡ codes "K")
target_injective_example =
    target_injective (codes "p") (codes "p") (codes "e-1") (codes "e-1") (codes "K") (codes "K")
      (unfold slug starts_with ends_with every in refl)
      (unfold slug starts_with ends_with every in refl)
      (unfold slug starts_with ends_with every in refl)
      (unfold slug starts_with ends_with every in refl) refl
