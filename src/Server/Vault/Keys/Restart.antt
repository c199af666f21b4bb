-- ===== src/Server/Vault/Keys/Restart.antt =====
-- An attempt to open a vault of crates/ls-server/src/vault.rs that fails.
use localsecrets.Common.{
  ℕ, ◌<◌, ◌≡◌, refl, sym, ap, ◌∙◌, Option, none, some, List, [], Bytes, length, arith, ltb, true,
  false, if◌then◌else◌, Bool,
}
use localsecrets.Common.Results.{Result, ok, err}
use localsecrets.Core.Shamir.{Share}
use localsecrets.Store.State.{State}
use localsecrets.Server.Errors.{VaultError}
use localsecrets.Server.Setting.{Setting}
use localsecrets.Server.Vault.{Barrier, Vault}
use localsecrets.Server.Vault.Keys.{
  push_new, recovered_key, replay, unsealed, unseal_with, unseal_from, try_unseal, attempted,
  add_share, submit_share,
}
use localsecrets.Server.Vault.Keys.Offers.{
  AllNew, counted, offer_all, submit_share-sealed, offer_all-counted,
}

module _ (π : Setting) where
  unsealed-err :
      (key : Bytes) (w u : Vault) (e : VaultError) (r : Result State VaultError)
      → unsealed π key w r ≡ (err e, u)
      → w ≡ u
  unsealed-err key w u e (ok st) h = cc
  unsealed-err key w u e (err x) h = ap (λ p. p.1) h

  unseal_with-err :
      (key : Option Bytes) (w u : Vault) (e : VaultError) → unseal_with π key w ≡ (err e, u) → w ≡ u
  unfolding unseal_with
  unseal_with-err none w u e h = ap (λ p. p.1) h
  unseal_with-err (some key) w u e h = unsealed-err key w u e (replay π key w.log) h

  unseal_from-err :
      (b : Option Barrier) (w u : Vault) (e : VaultError) → unseal_from π b w ≡ (err e, u) → w ≡ u
  unfolding unseal_from
  unseal_from-err none w u e h = ap (λ p. p.1) h
  unseal_from-err (some b) w u e h = unseal_with-err (recovered_key π b w.pending_shares) w u e h

  attempted-failed :
      (threshold : ℕ) (v w : Vault) (e : VaultError) (r : Result (Unit {0}) VaultError × Vault)
      → try_unseal π v ≡ r
      → attempted π threshold r ≡ (err e, w)
      → w ≡ record v { pending_shares = [] }
  attempted-failed threshold v w e (ok u, x) tried h = cc
  attempted-failed threshold v w e (err y, x) tried h =
      sym (ap (λ p. p.1) h)
      ∙ ap {A = Vault} (λ u. record u { pending_shares = [] })
          (sym (unseal_from-err v.barrier v x y tried))

  add_share-failed :
      (threshold : ℕ) (share : Share) (v w : Vault) (e : VaultError)
      → add_share π threshold share v ≡ (err e, w)
      → w ≡ record v { pending_shares = [] }
  unfolding add_share
  add_share-failed threshold share v w e h =
      let pending : List Share = push_new share v.pending_shares in
      let tried : Vault = record v { pending_shares = pending } in
      failed (ltb (length pending) threshold) h
    where
      failed :
          (few : Bool)
          → (if few
              then (
                ok (record {
                  sealed = true;
                  progress = length (push_new share v.pending_shares);
                  threshold = threshold;
                }),
                record v { pending_shares = push_new share v.pending_shares },
              )
              else attempted π threshold
                  (try_unseal π (record v { pending_shares = push_new share v.pending_shares })))
            ≡ (err e, w)
          → w ≡ record v { pending_shares = [] }
      failed true h = cc
      failed false h =
          attempted-failed threshold (record v { pending_shares = push_new share v.pending_shares })
            w e (try_unseal π (record v { pending_shares = push_new share v.pending_shares })) refl
            h

  -- An attempt that fails, whether the shares or what they open are wrong, leaves the vault as it
  -- was before any share was offered: fewer different shares than are needed, offered after it, are
  -- then counted from one and kept, and the vault stays sealed.
  pub submit_share-restarts :
      (barrier : Barrier) (share : Share) (v w : Vault) (e : VaultError) (more : List Share)
      → v.barrier ≡ some barrier
      → v.root_key ≡ none
      → submit_share π (some share) v ≡ (err e, w)
      → AllNew [] more
      → length more < barrier.threshold
      → (w ≡ record v { pending_shares = [] })
        × (offer_all π more w
            ≡ (counted barrier.threshold 0 (length more), record v { pending_shares = more }))
  submit_share-restarts barrier share v w e more there locked failing fresh few =
      let same =
        add_share-failed barrier.threshold share v w e
          (sym (submit_share-sealed π barrier share v there locked) ∙ failing) in
      (
        same,
        ap (offer_all π more) same
            ∙ offer_all-counted π barrier v [] more there locked fresh (omega arith),
      )
