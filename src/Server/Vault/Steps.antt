-- ===== src/Server/Vault/Steps.antt =====
-- What an operation of crates/ls-server/src/vault.rs may do: ask for the time or for random bytes,
-- and commit events. No operation on accounts or secrets changes the vault in another way.
use localsecrets.Common.{ℕ, suc, ◌≡◌, refl, List, [], ◌∷◌, ◌++◌, Text}
use localsecrets.Common.Results.{Result, ok, err}
use localsecrets.Store.Event.{Event, audited}
use localsecrets.Server.Errors.{VaultError}
use localsecrets.Server.Setting.{Setting}
use localsecrets.Server.Vault.{
  Vault, Op, and_then, recorded_error, ◌>>=◌, pure, reading, recording, commit, now, draw, Caller,
  actor, record_audit,
}

-- An event that was to be committed: it was, or its commit failed.
pub data Attempt : Type 0 where
  made : Event → Attempt
  lost : Event → Attempt

abbrev pub event_of : Attempt → Event
event_of (made e) = e
event_of (lost e) = e

-- The events whose commits succeeded.
unfoldable pub made_of : List Attempt → List Event
made_of [] = []
made_of (made e ∷ tries) = e ∷ made_of tries
made_of (lost e ∷ tries) = made_of tries

module _ (π : Setting) where
  -- A vault after some commits, with what was attempted.
  pub data Commits : Vault → List Attempt → Vault → Type 0 where
    done : {v : Vault} → Commits v [] v
    asked :
        {v w : Vault} {es : List Attempt}
        → Commits (record v { turn = suc v.turn }) es w
        → Commits v es w
    failed_one :
        {v u w : Vault} {es : List Attempt} {x : VaultError} (e : Event)
        → commit π e v ≡ (err x, u)
        → Commits u es w
        → Commits v (lost e ∷ es) w
    made_one :
        {v u w : Vault} {es : List Attempt} (e : Event)
        → commit π e v ≡ (ok tt, u)
        → Commits u es w
        → Commits v (made e ∷ es) w

  pub Commits_trans :
      {u v w : Vault} {ds es : List Attempt}
      → Commits u ds v
      → Commits v es w
      → Commits u (ds ++ es) w
  Commits_trans done k = k
  Commits_trans (asked h) k = asked (Commits_trans h k)
  Commits_trans (failed_one e eq h) k = failed_one e eq (Commits_trans h k)
  Commits_trans (made_one e eq h) k = made_one e eq (Commits_trans h k)

  -- An operation that leaves the vault after some commits, whatever its result.
  pub record Steps {A : Type 0} (m : Op A) : Type 0 where
    pub steps : (v : Vault) → (es : List Attempt) × Commits v es (m v).1

  pub reading-Steps : {A : Type 0} {f : Vault → Result A VaultError} → Steps (reading f)
  reading-Steps = record { steps = λ v. ([], done) }

  pub pure-Steps : {A : Type 0} {a : A} → Steps (pure a)
  pure-Steps = record { steps = λ v. ([], done) }

  pub now-Steps : Steps (now π)
  unfolding now
  now-Steps = record { steps = λ v. ([], asked done) }

  pub draw-Steps : (size : ℕ) → Steps (draw π size)
  unfolding draw
  draw-Steps size = record { steps = λ v. ([], asked done) }

  pub commit-Steps : (e : Event) → Steps (commit π e)
  commit-Steps e = record { steps = λ v. go v (commit π e v) refl }
    where
      go :
          (v : Vault) (r : Result (Unit {0}) VaultError × Vault)
          → commit π e v ≡ r
          → (es : List Attempt) × Commits v es r.1
      go v (ok tt, w) eq = (made e ∷ [], made_one e eq done)
      go v (err x, w) eq = (lost e ∷ [], failed_one e eq done)

  after :
      {A B : Type 0} (next : A → Op B) {v : Vault} {ds : List Attempt}
      (r : Result A VaultError × Vault)
      → Commits v ds r.1
      → ((a : A) → Steps (next a))
      → (es : List Attempt) × Commits v es (and_then r next).1
  after next {ds = ds} (ok a, w) h k = (ds ++ ((k a).steps w).0, Commits_trans h ((k a).steps w).1)
  after next {ds = ds} (err e, w) h k = (ds, h)

  pub bind-Steps :
      {A B : Type 0} {m : Op A} {next : A → Op B}
      → Steps m
      → ((a : A) → Steps (next a))
      → Steps (m >>= next)
  bind-Steps {m = m} {next = next} h k = record { steps = λ v. after next (m v) (h.steps v).1 k }

  pub recording-Steps :
      {A : Type 0} {m : Op A} {audit : Op (Unit {0})}
      → Steps m
      → Steps audit
      → Steps (recording m audit)
  recording-Steps {A = A} {m = m} {audit = audit} h k = record {
    steps = λ v. go v (m v) (h.steps v).1;
  }
    where
      go :
          (v : Vault) {ds : List Attempt} (r : Result A VaultError × Vault)
          → Commits v ds r.1
          → (es : List Attempt) × Commits v es (recorded_error r audit).1
      go v {ds = ds} (ok a, w) steps = (ds, steps)
      go v {ds = ds} (err e, w) steps =
          after (λ _ x. (err e, x)) (audit w) (Commits_trans steps (k.steps w).1)
            (λ _. reading-Steps)

  pub record_audit-Steps :
      (caller : Caller) (action target outcome : Text)
      → Steps (record_audit π caller action target outcome)
  unfolding record_audit
  record_audit-Steps caller action target outcome =
      bind-Steps now-Steps λ at. commit-Steps (audited at (actor caller) action target outcome)
