-- ===== src/Server/Vault/Secrets.antt =====
-- The operations on secrets of crates/ls-server/src/vault.rs.
use localsecrets.Common.{List, [], ◌∷◌, Bytes, Text, codes, length, ltb, if◌then◌else◌}
use localsecrets.Common.Results.{Result, ok, err}
use localsecrets.Core.Aead.{AeadError, plaintext_too_large, max_plaintext_len}
use localsecrets.Core.Aead
use localsecrets.Store.Event.{secret_set, secret_deleted}
use localsecrets.Store.State.{Secret, secret, secrets_in}
use localsecrets.Server.Errors.{VaultError, not_found, value_too_large, crypto}
use localsecrets.Server.Setting.{Setting}
use localsecrets.Server.Validate.{secret_key}
use localsecrets.Server.Vault.{
  Caller, read_secrets, write_secrets, Vault, Op, ◌>>=◌, ◌>>◌, pure, reading, recording, ok_or,
  present, to_sealed, to_envelope, require_unsealed, resolve_for, authorise, secret_context, target,
  now, draw, commit, record_audit, resolve_and_record, authorise_and_record, project_data_key,
}

-- The error that `set_secret` makes of a refusal to seal.
abbrev pub seal_error : AeadError → VaultError
seal_error (plaintext_too_large len limit) = value_too_large len limit
seal_error _ = crypto

-- `map_err`, of the two directions.
abbrev pub of_seal : Result Aead.Envelope AeadError → Result Aead.Envelope VaultError
of_seal (ok envelope) = ok envelope
of_seal (err e) = err (seal_error e)

abbrev pub of_open : Result Bytes AeadError → Result Bytes VaultError
of_open (ok plaintext) = ok plaintext
of_open (err e) = err crypto

-- `check_secret`.
unfoldable pub check_secret :
    Setting → Caller → Text → Text → Text → Bytes → Vault → Result (Unit {0}) VaultError
check_secret π caller project_slug environment_slug key value v = elim (require_unsealed v) [
  | err e ↦ err e
  | ok _ ↦ elim (secret_key key) [
    | err e ↦ err e
    | ok _ ↦
        if ltb max_plaintext_len (length value)
        then err (value_too_large (length value) max_plaintext_len)
        else elim (resolve_for caller project_slug environment_slug v) [
          | err e ↦ err e
          | ok ids ↦ authorise caller write_secrets ids.0 ids.1
        ]
  ]
]

module _ (π : Setting) where
  unfoldable pub set_secret : Caller → Text → Text → Text → Bytes → Op (Unit {0})
  set_secret caller project_slug environment_slug key value = do
    reading require_unsealed
    key ← reading λ v. secret_key key
    let name = target (target project_slug environment_slug) key
    (project_id, environment_id) ←
        resolve_and_record π caller (codes "secret.set") project_slug environment_slug name
    authorise_and_record π caller write_secrets (codes "secret.set") name project_id environment_id
    data_key ← reading (project_data_key π project_id)
    nonce ← draw π 12
    envelope ← reading λ v.
        of_seal
          (Aead.seal π.cipher data_key nonce value (secret_context project_id environment_id key))
    at ← now π
    commit π (secret_set project_id environment_id key (to_sealed envelope) at)
    record_audit π caller (codes "secret.set") name (codes "ok")

  -- The value of a slot, a missing one recorded.
  unfoldable pub stored_value : Caller → Text → Text → Text → Text → Op Secret
  stored_value caller name project_id environment_id key =
      recording
        (reading
          λ v. ok_or (not_found (codes "secret")) (secret v.state project_id environment_id key))
        (record_audit π caller (codes "secret.read") name (codes "missing"))

  unfoldable pub get_secret : Caller → Text → Text → Text → Op Bytes
  get_secret caller project_slug environment_slug key = do
    reading require_unsealed
    let name = target (target project_slug environment_slug) key
    (project_id, environment_id) ←
        resolve_and_record π caller (codes "secret.read") project_slug environment_slug name
    authorise_and_record π caller read_secrets (codes "secret.read") name project_id environment_id
    stored ← stored_value caller name project_id environment_id key
    data_key ← reading (project_data_key π project_id)
    value ← reading λ v. of_open (
        Aead.open_envelope π.cipher data_key (to_envelope stored.value)
          (secret_context project_id environment_id key))
    record_audit π caller (codes "secret.read") name (codes "ok")
    pure value

  -- The loop of `list_secrets`.
  unfoldable pub reveal_all :
      Bytes → Text → Text → List Secret → Result (List (Text × Bytes)) VaultError
  reveal_all data_key project_id environment_id [] = ok []
  reveal_all data_key project_id environment_id (s ∷ ss) =
      let rest = reveal_all data_key project_id environment_id ss in
      elim (of_open (
        Aead.open_envelope π.cipher data_key (to_envelope s.value)
          (secret_context project_id environment_id s.key))) [
            | err e ↦ err e
            | ok plain ↦ elim rest [ ok out ↦ ok ((s.key, plain) ∷ out) | err e ↦ err e ]
          ]

  unfoldable pub list_secrets : Caller → Text → Text → Op (List (Text × Bytes))
  list_secrets caller project_slug environment_slug = do
    reading require_unsealed
    let name = target project_slug environment_slug
    (project_id, environment_id) ←
        resolve_and_record π caller (codes "secret.list") project_slug environment_slug name
    authorise_and_record π caller read_secrets (codes "secret.list") name project_id environment_id
    data_key ← reading (project_data_key π project_id)
    out ← reading λ v.
        reveal_all data_key project_id environment_id (secrets_in v.state project_id environment_id)
    record_audit π caller (codes "secret.list") name (codes "ok")
    pure out

  unfoldable pub delete_secret : Caller → Text → Text → Text → Op (Unit {0})
  delete_secret caller project_slug environment_slug key = do
    reading require_unsealed
    let name = target (target project_slug environment_slug) key
    (project_id, environment_id) ←
        resolve_and_record π caller (codes "secret.delete") project_slug environment_slug name
    authorise_and_record π caller write_secrets (codes "secret.delete") name project_id
        environment_id
    reading λ v. present (secret v.state project_id environment_id key) (not_found (codes "secret"))
    at ← now π
    commit π (secret_deleted project_id environment_id key at)
    record_audit π caller (codes "secret.delete") name (codes "ok")
