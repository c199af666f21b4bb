-- ===== src/Server/Vault.antt =====
-- crates/ls-server/src/vault.rs: the vault, who may do what, and how a change is made. A method
-- that takes `&self` is a function of the vault; one that takes `&mut self` is an `Op`, which
-- gives a result and the vault as it is left, after an error too.
pub mod Secrets
pub mod Accounts
pub mod Steps
pub mod Moves
pub mod Keys
pub mod Commit
pub mod Durable
pub mod Outcomes
pub mod Access
pub mod RoundTrip
pub mod Tokens
pub mod Hidden
mod Examples
use localsecrets.Common.{
  ℕ, suc, ◌-◌, ◌*◌, Bool, true, false, ◌&&◌, Option, none, some, List, [], ◌∷◌, ◌++◌, Bytes, Text,
  codes, bytes_eq, leb, if◌then◌else◌,
}
use localsecrets.Common.Int.{ℤ, pos, negsuc, ltb_ℤ}
use localsecrets.Common.Results.{Result, ok, err}
use localsecrets.Core.Time.{Timestamp}
use localsecrets.Core.Aead.{Envelope, key_wrap, secret_slot, unwrap_key}
use localsecrets.Core.Encoding.Hex
use localsecrets.Core.Shamir.{Share}
use localsecrets.Store.Event.{Sealed, TokenKind, root, session, machine, kind_eq, Event, audited}
use localsecrets.Store.State.{
  State, Project, Environment, apply, project_by_slug, environment_by_slug, project,
}
use localsecrets.Store.Log.{Log, StoreError}
use localsecrets.Store.Log.Sealed as SealedLog
use localsecrets.Server.Errors.{VaultError, sealed, forbidden, not_found, invalid, crypto, store}
use localsecrets.Server.Setting.{Setting}

pub record Caller : Type 0 where
  pub token_id : Text
  pub kind : TokenKind
  pub user_id : Option Text
  pub project_id : Option Text
  pub environment_id : Option Text

-- `Caller::actor`.
unfoldable pub actor : Caller → Text
actor caller = elim caller.user_id [
  | some user ↦ codes "user:" ++ user
  | none ↦ elim caller.kind [
    | machine ↦ codes "machine:" ++ caller.token_id
    | root ↦ codes "token:" ++ caller.token_id
    | session ↦ codes "token:" ++ caller.token_id
  ]
]

pub data Capability : Type 0 where
  bootstrap administer read_secrets write_secrets : Capability

unfoldable pub granted_to : Capability → TokenKind → Bool
granted_to bootstrap root = true
granted_to _ root = false
granted_to _ session = true
granted_to read_secrets machine = true
granted_to _ machine = false

-- `Barrier` of crates/ls-server/src/barrier.rs.
pub record Barrier : Type 0 where
  pub threshold : ℕ
  pub shares : ℕ
  pub root_key : Sealed
  pub created_at : Timestamp

-- `Vault`; `turn` counts what was asked of the clock, the disk and the random numbers.
pub record Vault : Type 0 where
  pub log : Log
  pub state : State
  pub barrier : Option Barrier
  pub root_key : Option Bytes
  pub pending_shares : List Share
  pub turn : ℕ

abbrev pub Op : Type 0 → Type 0
Op A = Vault → Result A VaultError × Vault

-- `?`: an error ends the operation, and what was done to the vault stays done.
abbrev pub and_then :
    {A B : Type 0} → Result A VaultError × Vault → (A → Op B) → Result B VaultError × Vault
and_then (ok a, v) next = next a v
and_then (err e, v) next = (err e, v)

infixl 5 ◌>>=◌ ◌>>◌
abbrev pub ◌>>=◌ : {A B : Type 0} (m : Op A) (next : A → Op B) → Op B
(m >>= next) v = and_then (m v) next

abbrev pub ◌>>◌ : {B : Type 0} (m : Op (Unit {0})) (next : Op B) → Op B
m >> next = m >>= λ _. next

abbrev pub pure : {A : Type 0} → A → Op A
pure a v = (ok a, v)

-- A method of `&self`, or a step that does not look at the vault.
abbrev pub reading : {A : Type 0} → (Vault → Result A VaultError) → Op A
reading f v = (f v, v)

-- `if let Err(error) = m { audit?; return Err(error) }`
abbrev pub recorded_error :
    {A : Type 0} → Result A VaultError × Vault → Op (Unit {0}) → Result A VaultError × Vault
recorded_error (ok a, v) audit = (ok a, v)
recorded_error (err e, v) audit = and_then (audit v) λ _ w. (err e, w)

abbrev pub recording : {A : Type 0} → Op A → Op (Unit {0}) → Op A
recording m audit v = recorded_error (m v) audit

-- `ok_or`.
abbrev pub ok_or : {A : Type 0} → VaultError → Option A → Result A VaultError
ok_or e none = err e
ok_or e (some a) = ok a

-- `is_some()` and `is_none()` as guards.
abbrev pub absent : {A : Type 0} → Option A → VaultError → Result (Unit {0}) VaultError
absent none e = ok tt
absent (some a) e = err e

abbrev pub present : {A : Type 0} → Option A → VaultError → Result (Unit {0}) VaultError
present none e = err e
present (some a) e = ok tt

abbrev pub check : Bool → VaultError → Result (Unit {0}) VaultError
check true e = ok tt
check false e = err e

-- The two conversions between an envelope and its stored form.
abbrev pub to_sealed : Envelope → Sealed
to_sealed envelope = record { nonce = envelope.nonce; ciphertext = envelope.ciphertext }

abbrev pub to_envelope : Sealed → Envelope
to_envelope s = record { nonce = s.nonce; ciphertext = s.ciphertext }

unfoldable pub is_sealed : Vault → Bool
is_sealed v = elim v.root_key [ none ↦ true | some key ↦ false ]

unfoldable pub require_unsealed : Vault → Result (Unit {0}) VaultError
require_unsealed v = if is_sealed v then err sealed else ok tt

-- `require`.
unfoldable pub require_capability : Caller → Capability → Result (Unit {0}) VaultError
require_capability caller capability = check (granted_to capability caller.kind) forbidden

unfoldable pub resolve : Text → Text → Vault → Result (Text × Text) VaultError
resolve project_slug environment_slug v = elim (project_by_slug v.state project_slug) [
  | none ↦ err (not_found (codes "project"))
  | some p ↦ elim (environment_by_slug v.state p.id environment_slug) [
    | none ↦ err (not_found (codes "environment"))
    | some e ↦ ok (p.id, e.id)
  ]
]

-- `resolve_for`: to a machine, what is not there is what it may not see.
unfoldable pub resolve_for : Caller → Text → Text → Vault → Result (Text × Text) VaultError
resolve_for caller project_slug environment_slug v =
    elim (resolve project_slug environment_slug v) [
      | ok pair ↦ ok pair
      | err e ↦ if kind_eq caller.kind machine then err forbidden else err e
    ]

-- `as_deref() == Some(..)`.
abbrev pub is_some_text : Option Text → Text → Bool
is_some_text none wanted = false
is_some_text (some t) wanted = bytes_eq t wanted

unfoldable pub authorise : Caller → Capability → Text → Text → Result (Unit {0}) VaultError
authorise caller capability project_id environment_id =
    elim (require_capability caller capability) [
      | err e ↦ err e
      | ok _ ↦
          if kind_eq caller.kind machine
          then check
              (is_some_text caller.project_id project_id
                && is_some_text caller.environment_id environment_id)
              forbidden
          else ok tt
    ]

abbrev pub max_lifetime_seconds : ℕ
max_lifetime_seconds = 100 * 365 * 86400

unfoldable pub check_lifetime : ℤ → Result (Unit {0}) VaultError
check_lifetime seconds =
    if ltb_ℤ seconds (negsuc (max_lifetime_seconds - 1))
    then err (invalid (codes "token lifetime"))
    else if ltb_ℤ (pos max_lifetime_seconds) seconds
    then err (invalid (codes "token lifetime"))
    else ok tt

abbrev pub project_key_context : Text → Bytes
project_key_context project_id = key_wrap (codes "project-dek") project_id

abbrev pub secret_context : Text → Text → Text → Bytes
secret_context = secret_slot

-- The name of a thing in the audit trail: the parts with a `/` between.
abbrev pub target : Text → Text → Text
target a b = a ++ b'/' ∷ b

module _ (π : Setting) where
  -- `Timestamp::now`.
  unfoldable pub now : Op Timestamp
  now v = (ok (π.now v.turn), record v { turn = suc v.turn })

  -- `random::bytes`, its failure as a value.
  unfoldable pub draw : ℕ → Op (Option Bytes)
  draw size v = (ok (π.random v.turn size), record v { turn = suc v.turn })

  unfoldable pub new_id : Op Text
  new_id = do bytes ← draw 16; bytes ← reading λ v. ok_or crypto bytes; pure (Hex.encode bytes)

  -- `DataKey::generate`.
  unfoldable pub generate_key : Op Bytes
  generate_key = do bytes ← draw 32; reading λ v. ok_or crypto bytes

  -- What `commit` makes of the answer of the log.
  abbrev pub committed :
      Event → Vault → Result (Unit {0}) StoreError × Log → Result (Unit {0}) VaultError × Vault
  committed event v (ok _, log) =
      (ok tt, record v { log = log; state = apply v.state event; turn = suc v.turn })
  committed event v (err e, log) = (err (store e), record v { log = log; turn = suc v.turn })

  unfoldable pub commit : Event → Op (Unit {0})
  commit event v = elim v.root_key [
    | none ↦ (err sealed, v)
    | some key ↦ committed event v (
        SealedLog.append π.cipher key (π.random v.turn 12) (π.disk v.turn) (π.codec.to_bytes event)
          v.log)
  ]

  unfoldable pub record_audit : Caller → Text → Text → Text → Op (Unit {0})
  record_audit caller action target outcome = do
    at ← now
    commit (audited at (actor caller) action target outcome)

  unfoldable pub resolve_and_record : Caller → Text → Text → Text → Text → Op (Text × Text)
  resolve_and_record caller action project_slug environment_slug target =
      recording (reading (resolve_for caller project_slug environment_slug))
        (record_audit caller action target (codes "unknown"))

  -- The check of `set_secret` and its like, which records a refusal.
  unfoldable pub authorise_and_record :
      Caller → Capability → Text → Text → Text → Text → Op (Unit {0})
  authorise_and_record caller capability action target project_id environment_id =
      recording (reading λ v. authorise caller capability project_id environment_id)
        (record_audit caller action target (codes "denied"))

  unfoldable pub project_data_key : Text → Vault → Result Bytes VaultError
  project_data_key project_id v = elim v.root_key [
    | none ↦ err sealed
    | some key ↦ elim (project v.state project_id) [
      | none ↦ err (not_found (codes "project"))
      | some p ↦
          elim (unwrap_key π.cipher key (to_envelope p.data_key) (project_key_context project_id)) [
            | ok data_key ↦ ok data_key
            | err e ↦ err crypto
          ]
    ]
  ]
