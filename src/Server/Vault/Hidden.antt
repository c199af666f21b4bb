-- ===== src/Server/Vault/Hidden.antt =====
-- What a machine learns of names that are not its own, in crates/ls-server/src/vault.rs: nothing.
use localsecrets.Common.{
  suc, ◌≡◌, ◌≢◌, refl, ap, ◌⊎◌, inl, inr, false, some, Bytes, Text, codes, arith,
}
use localsecrets.Common.Results.{Result, ok, err, Result-cases}
use localsecrets.Store.Event.{root, machine, Event, audited}
use localsecrets.Store.Log.{Log, StoreError}
use localsecrets.Server.Errors.{VaultError, forbidden, store}
use localsecrets.Server.Setting.{Setting}
use localsecrets.Server.Vault.{
  Caller, Capability, read_secrets, write_secrets, granted_to, Vault, Op, and_then, ◌>>=◌, ◌>>◌,
  require_unsealed, is_sealed, require_capability, resolve, resolve_for, authorise, actor, now,
  committed, record_audit, resolve_and_record, authorise_and_record,
}
use localsecrets.Server.Vault.Secrets.{get_secret, list_secrets, delete_secret}
use localsecrets.Server.Vault.Commit.{appended, commit-unlocked}
use localsecrets.Server.Vault.RoundTrip.{resolve_for-resolve}
use localsecrets.Server.Vault.Access.{MayUse, by_person, by_machine, authorise-MayUse}

-- A refusal, or a failure of the log.
abbrev pub Refusal : {A : Type 0} → Result A VaultError → Type 0
Refusal r = (r ≡ err forbidden) ⊎ ((y : StoreError) × (r ≡ err (store y)))

authorise-cases :
    (caller : Caller) (capability : Capability) (p e : Text)
    → (authorise caller capability p e ≡ ok tt) ⊎ (authorise caller capability p e ≡ err forbidden)
unfolding authorise require_capability
authorise-cases caller capability p e = ground arith

not_own :
    (caller : Caller) (capability : Capability) (ids : Text × Text)
    → caller.kind ≡ machine
    → MayUse caller capability ids.0 ids.1
    → (caller.project_id ≡ some ids.0 → caller.environment_id ≢ some ids.1)
    → ⊥
not_own caller capability ids kind (by_person k) foreign = cc
not_own caller capability ids kind (by_machine _ _ p e) foreign = foreign p e

resolve_for-machine :
    (caller : Caller) (p e : Text) (v : Vault) (x : VaultError)
    → caller.kind ≡ machine
    → resolve p e v ≡ err x
    → resolve_for caller p e v ≡ err forbidden
unfolding resolve_for
resolve_for-machine caller p e v x kind missing = rw (missing, resolve_for) (rw kind refl)

module _ (π : Setting) where
  committed-result :
      (event : Event) (v : Vault) (r : Result (Unit {0}) StoreError × Log)
      → ((committed π event v r).0 ≡ ok tt)
        ⊎ ((y : StoreError) × ((committed π event v r).0 ≡ err (store y)))
  committed-result event v (ok _, log) = inl refl
  committed-result event v (err y, log) = inr (y, refl)

  record_audit-result :
      (caller : Caller) (action name outcome : Text) (key : Bytes) (v : Vault)
      → v.root_key ≡ some key
      → ((record_audit π caller action name outcome v).0 ≡ ok tt)
        ⊎ ((y : StoreError) × ((record_audit π caller action name outcome v).0 ≡ err (store y)))
  unfolding record_audit now
  record_audit-result caller action name outcome key v unlocked =
      let event : Event = audited (π.now v.turn) (actor caller) action name outcome in
      let u : Vault = record v { turn = suc v.turn } in
      rw (commit-unlocked π event u key unlocked)
        (committed-result event u (appended π event u key))

  refused :
      {A B : Type 0} (r : Result (Unit {0}) VaultError × Vault) (next : A → Op B)
      → (r.0 ≡ ok tt) ⊎ ((y : StoreError) × (r.0 ≡ err (store y)))
      → Refusal (and_then (and_then {B = A} r (λ _ w. (err forbidden, w))) next).0
  refused (ok tt, w) next h = inl refl
  refused (err x, w) next (inl h) = cc
  refused {B = B} (err x, w) next (inr (y, h)) = inr (y, ap moved h)
    where
      moved : Result (Unit {0}) VaultError → Result B VaultError
      moved (ok _) = err forbidden
      moved (err z) = err z

  -- The front of the operations on secrets.
  front-Refusal :
      {B : Type 0} (caller : Caller) (capability : Capability) (action p e name : Text)
      (key : Bytes) (v : Vault) (next : Text × Text → Op B)
      → caller.kind ≡ machine
      → v.root_key ≡ some key
      → granted_to capability root ≡ false
      → ((ids : Text × Text)
          → resolve p e v ≡ ok ids
          → caller.project_id ≡ some ids.0
          → caller.environment_id ≢ some ids.1)
      → Refusal
          ((resolve_and_record π caller action p e name >>= λ ids.
              authorise_and_record π caller capability action name ids.0 ids.1 >> next ids)
            v).0
  unfolding resolve_and_record authorise_and_record
  front-Refusal caller capability action p e name key v next kind unlocked no_root foreign =
      elim (Result-cases (resolve p e v)) [
        | inl (ids, found) ↦ elim (authorise-cases caller capability ids.0 ids.1) [
          | inl allowed ↦ absurd (
              not_own caller capability ids kind
                (authorise-MayUse caller capability ids.0 ids.1 no_root allowed)
                (foreign ids found))
          | inr denied ↦ rw (resolve_for-resolve caller p e v ids found) (
              rw denied (
                refused (record_audit π caller action name (codes "denied") v) (λ _. next ids)
                  (record_audit-result caller action name (codes "denied") key v unlocked)))
        ]
        | inr (x, missing) ↦ rw (resolve_for-machine caller p e v x kind missing) (
            refused (record_audit π caller action name (codes "unknown") v)
              (λ ids. authorise_and_record π caller capability action name ids.0 ids.1 >> next ids)
              (record_audit-result caller action name (codes "unknown") key v unlocked))
      ]

  require_unsealed-key :
      (key : Bytes) (v : Vault) → v.root_key ≡ some key → require_unsealed v ≡ ok tt
  unfolding require_unsealed is_sealed
  require_unsealed-key key v unlocked = rw unlocked refl

  -- Of names that are not those of its own environment a machine learns nothing: whether they are
  -- there or not, reading, listing and deleting are refused in the same words, unless the log fails.
  pub machine-Refusal :
      (caller : Caller) (p e k : Text) (key : Bytes) (v : Vault)
      → caller.kind ≡ machine
      → v.root_key ≡ some key
      → ((ids : Text × Text)
          → resolve p e v ≡ ok ids
          → caller.project_id ≡ some ids.0
          → caller.environment_id ≢ some ids.1)
      → Refusal (get_secret π caller p e k v).0
        × Refusal (list_secrets π caller p e v).0
        × Refusal (delete_secret π caller p e k v).0
  unfolding get_secret list_secrets delete_secret
  machine-Refusal caller p e k key v kind unlocked foreign =
      rw (require_unsealed-key key v unlocked) (
        front-Refusal caller read_secrets _ p e _ key v _ kind unlocked (unfold granted_to in refl)
            foreign,
        front-Refusal caller read_secrets _ p e _ key v _ kind unlocked (unfold granted_to in refl)
            foreign,
        front-Refusal caller write_secrets _ p e _ key v _ kind unlocked (unfold granted_to in refl)
            foreign,
      )
