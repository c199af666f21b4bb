-- ===== src/Server/Vault/Keys/Offers.antt =====
-- Offering shares to a sealed vault of crates/ls-server/src/vault.rs, one after another.
use localsecrets.Common.{
  ℕ, suc, zero, ◌+◌, ◌<◌, ◌≡◌, refl, sym, ap, ◌∙◌, none, some, List, [], ◌∷◌, ◌++◌, append_assoc,
  length, length-append, arith, ltb, true, false, append-nil,
}
use localsecrets.Common.Results.{Result, ok}
use localsecrets.Core.Shamir.{Share}
use localsecrets.Server.Errors.{VaultError}
use localsecrets.Server.Setting.{Setting}
use localsecrets.Server.Vault.{Barrier, Vault, is_sealed}
use localsecrets.Server.Vault.Keys.{
  UnsealStatus, contains_share, push_new, try_unseal, attempted, add_share, submit_to, submit_share,
}

-- Shares that are different from each other, and from those seen.
abbrev pub AllNew : List Share → List Share → Type 0
AllNew seen [] = Unit
AllNew seen (s ∷ shares) = (contains_share s seen ≡ false) × AllNew (seen ++ s ∷ []) shares

-- What so many offers are answered, each counted and none the last that is needed.
abbrev pub counted : (threshold from number : ℕ) → List (Result UnsealStatus VaultError)
counted threshold from zero = []
counted threshold from (suc number) =
    ok (record { sealed = true; progress = from + 1; threshold = threshold })
    ∷ counted threshold (from + 1) number

abbrev pub opened : ℕ → Result UnsealStatus VaultError
opened threshold = ok (record { sealed = false; progress = 0; threshold = threshold })

module _ (π : Setting) where
  -- One share after another, with the answers.
  unfoldable pub offer_all : List Share → Vault → List (Result UnsealStatus VaultError) × Vault
  offer_all [] v = ([], v)
  offer_all (s ∷ shares) v =
      let first = submit_share π (some s) v in
      let rest = offer_all shares first.1 in (first.0 ∷ rest.0, rest.1)

  pub submit_share-sealed :
      (barrier : Barrier) (share : Share) (v : Vault)
      → v.barrier ≡ some barrier
      → v.root_key ≡ none
      → submit_share π (some share) v ≡ add_share π barrier.threshold share v
  unfolding submit_to is_sealed
  submit_share-sealed barrier share v there locked =
      ap (λ b. submit_to π b (some share) v) there ∙ rw locked refl

  push_new-new :
      (share : Share) (shares : List Share)
      → contains_share share shares ≡ false
      → push_new share shares ≡ shares ++ share ∷ []
  unfolding push_new
  push_new-new share shares fresh = rw fresh refl

  length-push : (shares : List Share) (s : Share) → length (shares ++ s ∷ []) ≡ length shares + 1
  length-push shares s = length-append shares (s ∷ [])

  add_share-few :
      (threshold : ℕ) (share : Share) (v : Vault)
      → contains_share share v.pending_shares ≡ false
      → length v.pending_shares + 1 < threshold
      → add_share π threshold share v ≡ (
        ok (record {
          sealed = true;
          progress = length v.pending_shares + 1;
          threshold = threshold;
        }),
        record v { pending_shares = v.pending_shares ++ share ∷ [] },
      )
  unfolding add_share
  add_share-few threshold share v fresh few =
      let test : ltb (length v.pending_shares + 1) threshold ≡ true = ground arith in
      rw (push_new-new share v.pending_shares fresh, length-push v.pending_shares share, test) refl

  pub add_share-last :
      (threshold : ℕ) (share : Share) (v : Vault)
      → contains_share share v.pending_shares ≡ false
      → length v.pending_shares + 1 ≡ threshold
      → add_share π threshold share v
        ≡ attempted π threshold
            (try_unseal π (record v { pending_shares = v.pending_shares ++ share ∷ [] }))
  unfolding add_share
  add_share-last threshold share v fresh all =
      let test : ltb (length v.pending_shares + 1) threshold ≡ false = ground arith in
      rw (push_new-new share v.pending_shares fresh, length-push v.pending_shares share, test) refl

  -- Fewer different shares than are needed are counted and kept, and the vault stays as it was.
  pub offer_all-counted :
      (barrier : Barrier) (v : Vault) (seen shares : List Share)
      → v.barrier ≡ some barrier
      → v.root_key ≡ none
      → AllNew seen shares
      → length seen + length shares < barrier.threshold
      → offer_all shares (record v { pending_shares = seen }) ≡ (
        counted barrier.threshold (length seen) (length shares),
        record v { pending_shares = seen ++ shares },
      )
  unfolding offer_all
  offer_all-counted barrier v seen [] there locked fresh few =
      ap (λ p. ([], record v { pending_shares = p })) (sym (append-nil seen))
  offer_all-counted barrier v seen (s ∷ shares) there locked fresh few =
      let w : Vault = record v { pending_shares = seen } in
      let step =
        submit_share-sealed barrier s w there locked
        ∙ add_share-few barrier.threshold s w fresh.0 (omega arith) in
      let longer = length-push seen s in
      let rest =
        offer_all-counted barrier v (seen ++ s ∷ []) shares there locked fresh.1
          (omega (arith, longer)) in
      rw (step, rest, longer, append_assoc) refl

  pub offer_all-append :
      (xs ys : List Share) (v : Vault)
      → offer_all (xs ++ ys) v ≡ (
        (offer_all xs v).0 ++ (offer_all ys (offer_all xs v).1).0,
        (offer_all ys (offer_all xs v).1).1,
      )
  unfolding offer_all
  offer_all-append [] ys v = refl
  offer_all-append (x ∷ xs) ys v =
      ap (λ r. ((submit_share π (some x) v).0 ∷ r.0, r.1))
        (offer_all-append xs ys (submit_share π (some x) v).1)

  pub AllNew-split :
      (seen shares : List Share) (last : Share)
      → AllNew seen (shares ++ last ∷ [])
      → AllNew seen shares × (contains_share last (seen ++ shares) ≡ false)
  AllNew-split seen [] last fresh = (tt, rw (append-nil seen) fresh.0)
  AllNew-split seen (s ∷ shares) last fresh =
      let rest = AllNew-split (seen ++ s ∷ []) shares last fresh.1 in
      (
        (fresh.0, rest.0),
        ap (contains_share last) (sym (append_assoc seen (s ∷ []) shares)) ∙ rest.1,
      )
