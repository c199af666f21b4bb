-- ===== src/Server/Vault/Moves/Runs.antt =====
-- What may happen to a vault of crates/ls-server/src/vault.rs, its lock included.
use localsecrets.Common.{
  ◌<◌, ◌≤◌, ◌≡◌, refl, sym, subst, Bool, true, false, not, inl, inr, Option-cases, Option, none,
  some, Bytes, List, [], ◌++◌, append_assoc, length, ltb, if◌then◌else◌, arith,
}
use localsecrets.Common.Results.{Result, ok, err}
use localsecrets.Core.Shamir.{Share}
use localsecrets.Store.State.{State}
use localsecrets.Server.Errors.{VaultError, bad_share}
use localsecrets.Server.Setting.{Setting}
use localsecrets.Server.Vault.{Caller, Vault, Barrier, administer, require_capability, is_sealed}
use localsecrets.Server.Vault.Keys.{
  UnsealStatus, push_new, recovered_key, replay, unsealed, unseal_with, unseal_from, try_unseal,
  attempted, add_share, submit_to, seal, seal_as,
}
use localsecrets.Server.Vault.Steps.{Attempt, Commits}

module _ (π : Setting) where
  -- All that may happen to a vault, with the events whose commits were attempted: commits; sealing
  -- by a caller who may administer; one share more for a sealed vault that then has fewer than it
  -- needs; throwing the shares away; and opening a sealed vault, when one share more makes as many
  -- as it needs, with the key that they recover from its barrier, to the state that its log replays
  -- to under that key.
  pub data Runs : Vault → List Attempt → Vault → Type 0 where
    at_rest : {v : Vault} → Runs v [] v
    commits :
        {v u w : Vault} {ds es : List Attempt}
        → Commits π v ds u
        → Runs u es w
        → Runs v (ds ++ es) w
    sealing :
        {v w : Vault} {es : List Attempt} (caller : Caller)
        → require_capability caller administer ≡ ok tt
        → Runs (seal v) es w
        → Runs v es w
    offering :
        {v w : Vault} {es : List Attempt} (barrier : Barrier) (share : Share)
        → v.root_key ≡ none
        → v.barrier ≡ some barrier
        → length (push_new share v.pending_shares) < barrier.threshold
        → Runs (record v { pending_shares = push_new share v.pending_shares }) es w
        → Runs v es w
    throwing_away :
        {v w : Vault} {es : List Attempt}
        → Runs (record v { pending_shares = [] }) es w
        → Runs v es w
    opening :
        {v w : Vault} {es : List Attempt} (barrier : Barrier) (share : Share) (key : Bytes)
        (st : State)
        → v.root_key ≡ none
        → v.barrier ≡ some barrier
        → barrier.threshold ≤ length (push_new share v.pending_shares)
        → recovered_key π barrier (push_new share v.pending_shares) ≡ some key
        → replay π key v.log ≡ ok st
        → Runs (record v { root_key = some key; state = st; pending_shares = [] }) es w
        → Runs v es w

  pub Runs-trans :
      {u v w : Vault} {ds es : List Attempt} → Runs u ds v → Runs v es w → Runs u (ds ++ es) w
  Runs-trans at_rest k = k
  Runs-trans {u = u} {w = w} {es = es} (commits {ds = ds₁} {es = ds₂} h later) k =
      subst (λ a. Runs u a w) (sym (append_assoc ds₁ ds₂ es)) (commits h (Runs-trans later k))
  Runs-trans (sealing caller may later) k = sealing caller may (Runs-trans later k)
  Runs-trans (offering barrier share locked there few later) k =
      offering barrier share locked there few (Runs-trans later k)
  Runs-trans (throwing_away later) k = throwing_away (Runs-trans later k)
  Runs-trans (opening barrier share key st locked there enough recovers replays later) k =
      opening barrier share key st locked there enough recovers replays (Runs-trans later k)

  pub of_commits :
      {v w : Vault} → (es : List Attempt) × Commits π v es w → (es : List Attempt) × Runs v es w
  of_commits {v = v} {w = w} (es, h) = (es ++ [], commits h at_rest)

  pub seal_as-Runs : (caller : Caller) (v : Vault) → Runs v [] (seal_as caller v).1
  unfolding seal_as
  seal_as-Runs caller v = go (require_capability caller administer) refl
    where
      go :
          (r : Result (Unit {0}) VaultError)
          → require_capability caller administer ≡ r
          → Runs v []
              (elim r as (λ _. Result (Unit {0}) VaultError × Vault) [
                | err e ↦ (err e, v)
                | ok _ ↦ (ok tt, seal v)
              ]).1
      go (err e) may = at_rest
      go (ok _) may = sealing caller may at_rest

  module _ (v : Vault) (locked : v.root_key ≡ none) (barrier : Barrier)
      (there : v.barrier ≡ some barrier) (share : Share) where
    abbrev pending : List Share
    pending = push_new share v.pending_shares

    abbrev with_share : Vault
    with_share = record v { pending_shares = pending }

    module _ (enough : barrier.threshold ≤ length pending) where
      replayed-Runs :
          (key : Bytes) (r : Result State VaultError)
          → recovered_key π barrier pending ≡ some key
          → replay π key v.log ≡ r
          → Runs v [] (attempted π barrier.threshold (unsealed π key with_share r)).1
      replayed-Runs key (err e) recovers replays = throwing_away at_rest
      replayed-Runs key (ok st) recovers replays =
          opening barrier share key st locked there enough recovers replays at_rest

      recovered-Runs :
          (key : Option Bytes)
          → recovered_key π barrier pending ≡ key
          → Runs v [] (attempted π barrier.threshold (unseal_with π key with_share)).1
      unfolding unseal_with
      recovered-Runs none recovers = throwing_away at_rest
      recovered-Runs (some key) recovers = replayed-Runs key (replay π key v.log) recovers refl

      attempted-Runs : Runs v [] (attempted π barrier.threshold (try_unseal π with_share)).1
      unfolding unseal_from
      attempted-Runs =
          subst (λ b. Runs v [] (attempted π barrier.threshold (unseal_from π b with_share)).1)
            (sym there) (recovered-Runs (recovered_key π barrier pending) refl)

    add_share-Runs : Runs v [] (add_share π barrier.threshold share v).1
    unfolding add_share
    add_share-Runs = go (ltb (length pending) barrier.threshold) refl
      where
        go :
            (few : Bool)
            → ltb (length pending) barrier.threshold ≡ few
            → Runs v []
                (if few
                  then (
                    ok (record {
                      sealed = true;
                      progress = length pending;
                      threshold = barrier.threshold;
                    }),
                    with_share,
                  )
                  else attempted π barrier.threshold (try_unseal π with_share)).1
        go true few = offering barrier share locked there (ground arith) at_rest
        go false many = attempted-Runs (ground arith)

  root_key-none : (v : Vault) → is_sealed v ≡ true → v.root_key ≡ none
  unfolding is_sealed
  root_key-none v h = elim (Option-cases v.root_key) [
    | inl locked ↦ locked
    | inr (key, unlocked) ↦ ground arith
  ]

  pub submit_to-Runs :
      (b : Option Barrier) (parsed : Option Share) (v : Vault)
      → v.barrier ≡ b
      → Runs v [] (submit_to π b parsed v).1
  unfolding submit_to
  submit_to-Runs none parsed v there = at_rest
  submit_to-Runs (some barrier) none v there = go (is_sealed v)
    where
      go :
          (locked : Bool)
          → Runs v []
              (if◌then◌else◌ {A = Result UnsealStatus VaultError × Vault}
                (not locked)
                (ok (record { sealed = false; progress = 0; threshold = barrier.threshold }), v)
                (err bad_share, v)).1
      go true = at_rest
      go false = at_rest
  submit_to-Runs (some barrier) (some share) v there = go (is_sealed v) refl
    where
      go :
          (locked : Bool)
          → is_sealed v ≡ locked
          → Runs v []
              (if not locked
                then (
                  ok (record { sealed = false; progress = 0; threshold = barrier.threshold }),
                  v,
                )
                else add_share π barrier.threshold share v).1
      go true locked = add_share-Runs v (root_key-none v locked) barrier there share
      go false unlocked = at_rest
