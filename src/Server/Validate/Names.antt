-- ===== src/Server/Validate/Names.antt =====
-- The names of secrets in the audit trail, of slugs that crates/ls-server/src/validate.rs accepts.
use localsecrets.Common.{
  ℕ, ◌≡◌, refl, sym, ◌∙◌, Bool, true, not, [], ◌∷◌, ◌++◌, append_assoc, Text, codes, ◌==◌, arith,
}
use localsecrets.Common.Results.{ok}
use localsecrets.Server.Validate.{every, slug, slug_byte}
use localsecrets.Server.Vault.{target}

-- Two texts cut at the same place, their first `/`.
cut :
    (a a' b b' : Text)
    → every (λ x. not (x == b'/')) a ≡ true
    → every (λ x. not (x == b'/')) a' ≡ true
    → a ++ b'/' ∷ b ≡ a' ++ b'/' ∷ b'
    → (a ≡ a') × (b ≡ b')
unfolding every
cut [] [] b b' h h' e = (refl, cc)
cut [] (x ∷ a') b b' h h' e = ground arith
cut (x ∷ a) [] b b' h h' e = ground arith
cut (x ∷ a) (y ∷ a') b b' h h' e =
    let (same, rest) = cut a a' b b' (ground arith) (ground arith) (ground arith) in
    (ground (arith, same), rest)

every_mono :
    (f g : ℕ → Bool) (t : Text)
    → ((x : ℕ) → f x ≡ true → g x ≡ true)
    → every f t ≡ true
    → every g t ≡ true
unfolding every
every_mono f g [] h all = refl
every_mono f g (x ∷ t) h all = ground (arith, every_mono f g t h, h x)

slug-bytes : (t what s : Text) → slug t what ≡ ok s → every slug_byte t ≡ true
unfolding slug
slug-bytes t what s h = ground arith

slug_no_slash : (t what s : Text) → slug t what ≡ ok s → every (λ x. not (x == b'/')) t ≡ true
slug_no_slash t what s h =
    every_mono slug_byte (λ x. not (x == b'/')) t (λ x hx. ground arith) (slug-bytes t what s h)

-- Two secrets of accepted slugs have one name in the audit trail only if they are one: the project,
-- the environment and the key can be told from it.
pub target_injective :
    (p p' e e' k k' : Text)
    → slug p (codes "project slug") ≡ ok p
    → slug p' (codes "project slug") ≡ ok p'
    → slug e (codes "environment slug") ≡ ok e
    → slug e' (codes "environment slug") ≡ ok e'
    → target (target p e) k ≡ target (target p' e') k'
    → (p ≡ p') × (e ≡ e') × (k ≡ k')
target_injective p p' e e' k k' hp hp' he he' same =
    let (projects, rest) =
      cut p p' (e ++ b'/' ∷ k) (e' ++ b'/' ∷ k') (slug_no_slash p _ p hp)
        (slug_no_slash p' _ p' hp')
        (sym (append_assoc p (b'/' ∷ e) (b'/' ∷ k))
          ∙ same
          ∙ append_assoc p' (b'/' ∷ e') (b'/' ∷ k')) in
    let (environments, keys) =
      cut e e' k k' (slug_no_slash e _ e he) (slug_no_slash e' _ e' he') rest in
    (projects, environments, keys)
