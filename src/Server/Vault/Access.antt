-- ===== src/Server/Vault/Access.antt =====
-- Who may read and write secrets, in crates/ls-server/src/vault.rs, and that it is recorded.
use localsecrets.Common.{
  ◌≡◌, refl, ap, ◌∙◌, true, false, Option, none, some, Bytes, Text, codes, bytes_eq_iff, arith,
}
use localsecrets.Common.Results.{Result, ok, err}
use localsecrets.Core.Aead
use localsecrets.Store.Event.{TokenKind, root, session, machine}
use localsecrets.Store.State.{Secret, secret}
use localsecrets.Server.Errors.{VaultError, not_found}
use localsecrets.Server.Setting.{Setting}
use localsecrets.Server.Vault.{
  Caller, Capability, read_secrets, granted_to, Vault, Op, ok_or, require_unsealed, is_some_text,
  to_envelope, require_capability, resolve, resolve_for, authorise, secret_context, target,
  record_audit, resolve_and_record, authorise_and_record, project_data_key,
}
use localsecrets.Server.Vault.Secrets.{get_secret, stored_value, of_open}
use localsecrets.Server.Vault.Outcomes.{
  Gives_bind, Gives_reading, Gives_recording, Gives-pure, ok_or-eq-ok,
}

-- Who may do what with the secrets of an environment: a person anything, a machine only what it is
-- meant for and only in its own environment, and the root token nothing.
pub data MayUse (caller : Caller) (capability : Capability) (project_id environment_id : Text)
    : Type 0 where
  by_person : caller.kind ≡ session → MayUse caller capability project_id environment_id
  by_machine :
      caller.kind ≡ machine
      → granted_to capability machine ≡ true
      → caller.project_id ≡ some project_id
      → caller.environment_id ≡ some environment_id
      → MayUse caller capability project_id environment_id

is_some_text-true : (o : Option Text) (t : Text) → is_some_text o t ≡ true → o ≡ some t
is_some_text-true none t h = cc
is_some_text-true (some u) t h = ap some ((bytes_eq_iff u t).0 h)

pub authorise-MayUse :
    (caller : Caller) (capability : Capability) (p e : Text)
    → granted_to capability root ≡ false
    → authorise caller capability p e ≡ ok tt
    → MayUse caller capability p e
unfolding authorise require_capability
authorise-MayUse caller capability p e no_root h = go caller.kind refl
  where
    go : (kind : TokenKind) → caller.kind ≡ kind → MayUse caller capability p e
    go session same = by_person same
    go root same = ground arith
    go machine same =
        by_machine same (ground arith) (is_some_text-true caller.project_id p (ground arith))
          (is_some_text-true caller.environment_id e (ground arith))

of_open-ok : (r : Result Bytes Aead.AeadError) {plain : Bytes} → of_open r ≡ ok plain → r ≡ ok plain
of_open-ok (ok bytes) h = ap (λ x. ok (get x)) h
  where
    get : Result Bytes VaultError → Bytes
    get (ok b) = b
    get (err e) = bytes
of_open-ok (err e) h = cc

pub resolve_for-ok :
    (caller : Caller) (p e : Text) (v : Vault) (ids : Text × Text)
    → resolve_for caller p e v ≡ ok ids
    → resolve p e v ≡ ok ids
unfolding resolve_for
resolve_for-ok caller p e v ids h = ground arith

module _ (π : Setting) where
  -- A value is given out only to a caller that may read the environment that the slugs name; it is
  -- what the slot's envelope opens to under the project's key; and the last thing done is a commit,
  -- which succeeded, of the audit record of the reading.
  pub get_secret-MayUse :
      (caller : Caller) (p e key : Text) (v w : Vault) (value : Bytes)
      → get_secret π caller p e key v ≡ (ok value, w)
      → (ids : Text × Text) × (stored : Secret) × (data_key : Bytes) × (resolve p e v ≡ ok ids)
        × MayUse caller read_secrets ids.0 ids.1
        × (secret v.state ids.0 ids.1 key ≡ some stored)
        × (project_data_key π ids.0 v ≡ ok data_key)
        × (Aead.open_envelope π.cipher data_key
              (to_envelope stored.value)
              (secret_context ids.0 ids.1 key)
            ≡ ok value)
        × (record_audit π caller (codes "secret.read") (target (target p e) key) (codes "ok") v
            ≡ (ok tt, w))
  unfolding get_secret resolve_and_record authorise_and_record stored_value
  get_secret-MayUse caller p e key v w value h =
      let audit : Text → Op (Unit {0}) =
        record_audit π caller (codes "secret.read") (target (target p e) key) in
      Gives_reading require_unsealed {w = w} {b = value} (record { equation = h })
        λ _ unlocked g.
          Gives_recording (resolve_for caller p e) (audit (codes "unknown")) g λ ids resolved g.
            Gives_recording (λ u. authorise caller read_secrets ids.0 ids.1)
              (audit (codes "denied")) g
              λ _ allowed g.
                Gives_recording
                  (λ u. ok_or (not_found (codes "secret")) (secret u.state ids.0 ids.1 key))
                  (audit (codes "missing")) g
                  λ stored found g.
                    Gives_reading (project_data_key π ids.0) g λ data_key unwrapped g.
                      Gives_reading
                        (λ u. of_open (
                          Aead.open_envelope π.cipher data_key (to_envelope stored.value)
                            (secret_context ids.0 ids.1 key)))
                        g
                        λ plain opened g. Gives_bind (audit (codes "ok")) g λ _ u recorded g.
                          let (same, last) = Gives-pure g in
                          (
                            ids,
                            stored,
                            data_key,
                            resolve_for-ok caller p e v ids resolved,
                            authorise-MayUse caller read_secrets ids.0 ids.1
                                (unfold granted_to in refl) allowed,
                            ok_or-eq-ok (not_found (codes "secret"))
                                (secret v.state ids.0 ids.1 key) found,
                            unwrapped,
                            of_open-ok
                                  (Aead.open_envelope π.cipher data_key (to_envelope stored.value)
                                    (secret_context ids.0 ids.1 key))
                                  opened
                                ∙ ap (λ b. ok b) same,
                            recorded ∙ ap (λ x. (ok tt, x)) last,
                          )
