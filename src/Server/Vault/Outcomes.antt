-- ===== src/Server/Vault/Outcomes.antt =====
-- Reading a successful operation of crates/ls-server/src/vault.rs backwards, step by step.
use localsecrets.Core.Time.{Timestamp}
use localsecrets.Server.Setting.{Setting}
use localsecrets.Common.{ℕ, suc, Bytes, ◌≡◌, refl, ap, Option, none, some}
use localsecrets.Common.Results.{Result, ok, err}
use localsecrets.Server.Errors.{VaultError}
use localsecrets.Server.Vault.{
  Vault, Op, and_then, recorded_error, ok_or, pure, reading, recording, ◌>>=◌, now, draw,
}

-- An operation that succeeds, from a vault, with a value and a vault.
pub record Gives {A : Type 0} (m : Op A) (v : Vault) (a : A) (w : Vault) : Type 0 where
  pub equation : m v ≡ (ok a, w)

-- A step that may have changed the vault.
op_elim {μ} :
    {A B : Type 0} {P : Type μ} (r : Result A VaultError × Vault) (next : A → Op B) {b : B}
    {w : Vault}
    → and_then r next ≡ (ok b, w)
    → ((a : A) (u : Vault) → r ≡ (ok a, u) → next a u ≡ (ok b, w) → P)
    → P
op_elim (ok a, u) next h k = k a u refl h
op_elim (err e, u) next h k = cc

-- A step that only reads.
reading_elim {μ} :
    {A B : Type 0} {P : Type μ} (r : Result A VaultError) (v : Vault) (next : A → Op B) {b : B}
    {w : Vault}
    → and_then (r, v) next ≡ (ok b, w)
    → ((a : A) → r ≡ ok a → next a v ≡ (ok b, w) → P)
    → P
reading_elim (ok a) v next h k = k a refl h
reading_elim (err e) v next h k = cc

-- One whose refusal is recorded: it cannot have refused.
recording_elim {μ} :
    {A B : Type 0} {P : Type μ} (r : Result A VaultError) (v : Vault) (audit : Op (Unit {0}))
    (next : A → Op B) {b : B} {w : Vault}
    → and_then (recorded_error (r, v) audit) next ≡ (ok b, w)
    → ((a : A) → r ≡ ok a → next a v ≡ (ok b, w) → P)
    → P
recording_elim (ok a) v audit next h k = k a refl h
recording_elim {A = A} {B = B} {P = P} (err e) v audit next {b = b} {w = w} h k = go (audit v) h
  where
    go :
        (r : Result (Unit {0}) VaultError × Vault)
        → and_then (and_then {B = A} r (λ _ u. (err e, u))) next ≡ (ok b, w)
        → P
    go (ok tt, u) h' = cc
    go (err x, u) h' = cc

pub ok_or-eq-ok :
    {A : Type 0} (e : VaultError) (o : Option A) {a : A} → ok_or e o ≡ ok a → o ≡ some a
ok_or-eq-ok e none h = cc
ok_or-eq-ok e (some a) h = cc

-- Of two equal results.
pub result-eq :
    {A : Type 0} {a b : A} {v w : Vault}
    → ◌≡◌ {A = Result A VaultError × Vault} (ok a, v) (ok b, w)
    → (a ≡ b) × (v ≡ w)
result-eq {A = A} {a = a} h = (ap (λ r. get r.0) h, ap (λ r. r.1) h)
  where
    get : Result A VaultError → A
    get (ok x) = x
    get (err e) = a

pub Gives_bind {μ} :
    {A B : Type 0} {P : Type μ} (m : Op A) {next : A → Op B} {v w : Vault} {b : B}
    → Gives (m >>= next) v b w
    → ((a : A) (u : Vault) → m v ≡ (ok a, u) → Gives (next a) u b w → P)
    → P
Gives_bind m {next = next} {v = v} g k =
    op_elim (m v) next g.equation λ a u first h. k a u first (record { equation = h })

pub Gives_reading {μ} :
    {A B : Type 0} {P : Type μ} (f : Vault → Result A VaultError) {next : A → Op B} {v w : Vault}
    {b : B}
    → Gives (reading f >>= next) v b w
    → ((a : A) → f v ≡ ok a → Gives (next a) v b w → P)
    → P
Gives_reading f {next = next} {v = v} g k =
    reading_elim (f v) v next g.equation λ a first h. k a first (record { equation = h })

pub Gives_recording {μ} :
    {A B : Type 0} {P : Type μ} (f : Vault → Result A VaultError) (audit : Op (Unit {0}))
    {next : A → Op B} {v w : Vault} {b : B}
    → Gives (recording (reading f) audit >>= next) v b w
    → ((a : A) → f v ≡ ok a → Gives (next a) v b w → P)
    → P
Gives_recording f audit {next = next} {v = v} g k =
    recording_elim (f v) v audit next g.equation λ a first h. k a first (record { equation = h })

pub Gives-pure : {A : Type 0} {a b : A} {v w : Vault} → Gives (pure a) v b w → (a ≡ b) × (v ≡ w)
Gives-pure g = result-eq g.equation

module _ (π : Setting) where
  -- The clock and the random numbers answer, whatever the answer.
  pub Gives_draw {μ} :
      {B : Type 0} {P : Type μ} (size : ℕ) {next : Option Bytes → Op B} {v w : Vault} {b : B}
      → Gives (draw π size >>= next) v b w
      → ((bytes : Option Bytes)
          → bytes ≡ π.random v.turn size
          → Gives (next bytes) (record v { turn = suc v.turn }) b w
          → P)
      → P
  Gives_draw size {v = v} g k =
      k (π.random v.turn size) refl (record { equation = unfold draw in g.equation })

  pub Gives_now {μ} :
      {B : Type 0} {P : Type μ} {next : Timestamp → Op B} {v w : Vault} {b : B}
      → Gives (now π >>= next) v b w
      → ((at : Timestamp)
          → at ≡ π.now v.turn
          → Gives (next at) (record v { turn = suc v.turn }) b w
          → P)
      → P
  Gives_now {v = v} g k = k (π.now v.turn) refl (record { equation = unfold now in g.equation })
