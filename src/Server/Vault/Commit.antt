-- ===== src/Server/Vault/Commit.antt =====
-- What `commit` of crates/ls-server/src/vault.rs does, by its result.
use localsecrets.Common.{
  ℕ, suc, ◌≡◌, refl, sym, ap, ◌∙◌, ◌⊎◌, inl, inr, none, some, List, arith, Bytes, Option-cases,
}
use localsecrets.Common.Results.{Result, ok, err}
use localsecrets.Store.Event.{Event}
use localsecrets.Store.State.{apply, apply_all}
use localsecrets.Store.Log.{Log, StoreError}
use localsecrets.Store.Log.Sealed.{append}
use localsecrets.Server.Errors.{VaultError}
use localsecrets.Server.Setting.{Setting}
use localsecrets.Server.Vault.{Vault, commit, committed}
use localsecrets.Server.Vault.Steps.{Attempt, made_of, Commits, done, asked, failed_one, made_one}

module _ (π : Setting) (e : Event) (v : Vault) where
  -- The log after a commit under a key, with its answer.
  abbrev pub appended : Bytes → Result (Unit {0}) StoreError × Log
  appended key = append π.cipher key (π.random v.turn 12) (π.disk v.turn) (π.codec.to_bytes e) v.log

  pub commit-unlocked :
      (key : Bytes) → v.root_key ≡ some key → commit π e v ≡ committed π e v (appended key)
  unfolding commit
  commit-unlocked key unlocked = rw unlocked refl

  -- A vault without a key, or with one.
  locked_or_not : (v.root_key ≡ none) ⊎ ((key : Bytes) × (v.root_key ≡ some key))
  locked_or_not = Option-cases v.root_key

  committed-made :
      (w : Vault) (r : Result (Unit {0}) StoreError × Log)
      → committed π e v r ≡ (ok tt, w)
      → (r ≡ (ok tt, r.1))
        × (w ≡ record v { log = r.1; state = apply v.state e; turn = suc v.turn })
  committed-made w (ok tt, log) h = (refl, sym (ap (λ p. p.1) h))
  committed-made w (err x, log) h = cc

  committed-lost :
      (w : Vault) (x : VaultError) (r : Result (Unit {0}) StoreError × Log)
      → committed π e v r ≡ (err x, w)
      → ((y : StoreError) × (r ≡ (err y, r.1))) × (w ≡ record v { log = r.1; turn = suc v.turn })
  committed-lost w x (ok tt, log) h = cc
  committed-lost w x (err y, log) h = ((y, refl), sym (ap (λ p. p.1) h))

  -- A commit under a key that succeeded appended the event and then applied it.
  pub commit-made_under :
      (key : Bytes) (w : Vault)
      → v.root_key ≡ some key
      → commit π e v ≡ (ok tt, w)
      → (appended key ≡ (ok tt, (appended key).1))
        × (w ≡ record v { log = (appended key).1; state = apply v.state e; turn = suc v.turn })
  commit-made_under key w unlocked h =
      committed-made w (appended key) (sym (commit-unlocked key unlocked) ∙ h)

  -- One that failed left everything but the log.
  pub commit-lost_under :
      (key : Bytes) (w : Vault) (x : VaultError)
      → v.root_key ≡ some key
      → commit π e v ≡ (err x, w)
      → ((y : StoreError) × (appended key ≡ (err y, (appended key).1)))
        × (w ≡ record v { log = (appended key).1; turn = suc v.turn })
  commit-lost_under key w x unlocked h =
      committed-lost w x (appended key) (sym (commit-unlocked key unlocked) ∙ h)

  pub commit-made :
      (w : Vault)
      → commit π e v ≡ (ok tt, w)
      → (log : Log) × (w ≡ record v { log = log; state = apply v.state e; turn = suc v.turn })
  commit-made w h = elim locked_or_not [
    | inl locked ↦ unfold commit in ground arith
    | inr (key, unlocked) ↦ ((appended key).1, (commit-made_under key w unlocked h).1)
  ]

  pub commit-lost :
      (w : Vault) (x : VaultError)
      → commit π e v ≡ (err x, w)
      → (log : Log) × (turn : ℕ) × (w ≡ record v { log = log; turn = turn })
  commit-lost w x h = elim locked_or_not [
    | inl locked ↦ (v.log, v.turn, unfold commit in ground arith)
    | inr (key, unlocked) ↦ ((appended key).1, suc v.turn, (commit-lost_under key w x unlocked h).1)
  ]

module _ (π : Setting) where
  -- The state is the fold of the events that were committed.
  pub Commits-state :
      {v w : Vault} {tries : List Attempt}
      → Commits π v tries w
      → w.state ≡ apply_all v.state (made_of tries)
  unfolding apply_all made_of
  Commits-state done = refl
  Commits-state (asked h) = Commits-state h
  Commits-state {v = v} (failed_one {u = u} {es = es} {x = x} e eq h) =
      let (log, turn, left) = commit-lost π e v u x eq in
      Commits-state h ∙ ap (λ q. apply_all q.state (made_of es)) left
  Commits-state {v = v} (made_one {u = u} {es = es} e eq h) =
      let (log, left) = commit-made π e v u eq in
      Commits-state h ∙ ap (λ q. apply_all q.state (made_of es)) left
