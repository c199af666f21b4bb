-- ===== src/Server/Vault/RoundTrip.antt =====
-- What `set_secret` of crates/ls-server/src/vault.rs stored, `get_secret` gives out.
use localsecrets.Common.{
  suc, ◌≡◌, refl, sym, ap, subst, ◌∙◌, Option, none, some, Bytes, Text, codes, length, arith, inl,
  inr, Option-cases,
}
use localsecrets.Common.Results.{Result, ok, err}
use localsecrets.Core.Time.{Timestamp}
use localsecrets.Core.Aead
use localsecrets.Core.Aead.{Cipher, AeadError, Envelope, nonce_len}
use localsecrets.Store.Event.{Sealed, secret_set, audited}
use localsecrets.Store.State.{Secret, secret, apply, project_by_slug, environment_by_slug, project}
use localsecrets.Store.State.Secrets.{stored, secret-apply_set}
use localsecrets.Server.Errors.{VaultError}
use localsecrets.Server.Setting.{Setting}
use localsecrets.Server.Validate.{secret_key}
use localsecrets.Server.Vault.{
  Caller, read_secrets, write_secrets, Vault, Op, and_then, pure, require_unsealed, is_sealed,
  to_sealed, to_envelope, actor, resolve, resolve_for, authorise, secret_context, target, now,
  commit, record_audit, resolve_and_record, authorise_and_record, project_data_key,
}
use localsecrets.Server.Vault.Secrets.{set_secret, get_secret, stored_value, of_seal}
use localsecrets.Server.Vault.Commit.{commit-made}
use localsecrets.Server.Vault.Access.{resolve_for-ok}
use localsecrets.Server.Vault.Outcomes.{
  Gives_bind, Gives_reading, Gives_recording, Gives_draw, Gives_now,
}

-- An envelope opens to what was sealed in it.
open-seal :
    (c : Cipher) (key context value : Bytes) (random : Option Bytes) (envelope : Envelope)
    → ((nonce : Bytes) → random ≡ some nonce → length nonce ≡ nonce_len)
    → Aead.seal c key random value context ≡ ok envelope
    → Aead.open_envelope c key envelope context ≡ ok value
unfolding Aead.seal Aead.open_envelope
open-seal c key context value none envelope sized h = ground arith
open-seal c key context value (some nonce) envelope sized h =
    elim (Option-cases (c.encrypt key nonce context value)) [
      | inl refused ↦ ground arith
      | inr (ciphertext, made) ↦
          ground (
            arith,
            made,
            c.decrypt-encrypt key nonce context value ciphertext made,
            sized nonce refl,
          )
    ]

ok-injective : {A : Type 0} {a b : A} → ◌≡◌ {A = Result A VaultError} (ok a) (ok b) → a ≡ b
ok-injective {A = A} {a = a} h = ap get h
  where
    get : Result A VaultError → A
    get (ok x) = x
    get (err e) = a

pub resolve_for-resolve :
    (caller : Caller) (p e : Text) (v : Vault) (ids : Text × Text)
    → resolve p e v ≡ ok ids
    → resolve_for caller p e v ≡ ok ids
unfolding resolve_for
resolve_for-resolve caller p e v ids h = rw (h, resolve_for) refl

module _ (π : Setting) where
  -- `get_secret` forwards, once each of its steps is known to succeed.
  get_secret-runs :
      (caller : Caller) (p e key : Text) (v : Vault) (ids : Text × Text) (s : Secret)
      (data_key value : Bytes)
      → require_unsealed v ≡ ok tt
      → resolve_for caller p e v ≡ ok ids
      → authorise caller read_secrets ids.0 ids.1 ≡ ok tt
      → secret v.state ids.0 ids.1 key ≡ some s
      → project_data_key π ids.0 v ≡ ok data_key
      → Aead.open_envelope π.cipher data_key (to_envelope s.value) (secret_context ids.0 ids.1 key)
        ≡ ok value
      → get_secret π caller p e key v
        ≡ and_then
            (record_audit π caller (codes "secret.read") (target (target p e) key) (codes "ok") v)
            λ _. pure value
  unfolding get_secret resolve_and_record authorise_and_record stored_value
  get_secret-runs caller p e key v ids s data_key value h1 h2 h3 h4 h5 h6 =
      rw (h1, h2, h3, h4, h5, h6) refl

  of_seal-ok :
      (r : Result Envelope AeadError) {envelope : Envelope}
      → of_seal r ≡ ok envelope
      → r ≡ ok envelope
  of_seal-ok (ok made) h = ap (λ x. ok (get x)) h
    where
      get : Result Envelope VaultError → Envelope
      get (ok x) = x
      get (err x) = made
  of_seal-ok (err x) h = cc

  -- What an operation that commits a last event and its audit record leaves.
  record_audit-left :
      (caller : Caller) (action name outcome : Text) (v w : Vault)
      → record_audit π caller action name outcome v ≡ (ok tt, w)
      → (w.state ≡ v.state) × (w.root_key ≡ v.root_key)
  unfolding record_audit now
  record_audit-left caller action name outcome v w h =
      let (log, left) =
        commit-made π (audited (π.now v.turn) (actor caller) action name outcome)
          (record v { turn = suc v.turn }) w h in
      (ap (λ q. q.state) left ∙ unfold apply in refl, ap (λ q. q.root_key) left)

  -- A write that succeeded, read backwards.
  set_secret-ok :
      (caller : Caller) (p e key : Text) (value : Bytes) (v w : Vault)
      → set_secret π caller p e key value v ≡ (ok tt, w)
      → (ids : Text × Text) × (data_key : Bytes) × (envelope : Envelope) × (at : Timestamp)
        × (k : Text) × (secret_key key ≡ ok k)
        × (require_unsealed v ≡ ok tt)
        × (resolve p e v ≡ ok ids)
        × (authorise caller write_secrets ids.0 ids.1 ≡ ok tt)
        × (project_data_key π ids.0 v ≡ ok data_key)
        × (Aead.open_envelope π.cipher data_key envelope (secret_context ids.0 ids.1 k) ≡ ok value)
        × (w.state ≡ apply v.state (secret_set ids.0 ids.1 k (to_sealed envelope) at))
        × (w.root_key ≡ v.root_key)
  unfolding set_secret resolve_and_record authorise_and_record
  set_secret-ok caller p e key value v w h =
      let name : Text → Text = target (target p e) in
      let audit : Text → Text → Op (Unit {0}) =
        λ k. record_audit π caller (codes "secret.set") (name k) in
      Gives_reading require_unsealed {w = w} {b = tt} (record { equation = h })
        λ _ unlocked g.
          Gives_reading (λ u. secret_key key) g
            λ k valid g.
              Gives_recording (resolve_for caller p e) (audit k (codes "unknown")) g
                λ ids resolved g.
                  Gives_recording (λ u. authorise caller write_secrets ids.0 ids.1)
                    (audit k (codes "denied")) g
                    λ _ allowed g.
                      Gives_reading (project_data_key π ids.0) g λ data_key unwrapped g.
                        Gives_draw π 12 g λ nonce drawn g.
                          Gives_reading
                            (λ u. of_seal (
                              Aead.seal π.cipher data_key nonce value
                                (secret_context ids.0 ids.1 k)))
                            g
                            λ envelope sealed g. Gives_now π g λ at read g.
                              Gives_bind
                                (commit π (secret_set ids.0 ids.1 k (to_sealed envelope) at)) g
                                λ _ u committed g.
                                  let (log, left) =
                                    commit-made π (secret_set ids.0 ids.1 k (to_sealed envelope) at)
                                      (record v { turn = suc (suc v.turn) }) u committed in
                                  let (same_state, same_key) =
                                    record_audit-left caller (codes "secret.set") (name k)
                                      (codes "ok") u w g.equation in
                                  (
                                    ids,
                                    data_key,
                                    envelope,
                                    at,
                                    k,
                                    valid,
                                    unlocked,
                                    resolve_for-ok caller p e v ids resolved,
                                    allowed,
                                    unwrapped,
                                    open-seal π.cipher data_key (secret_context ids.0 ids.1 k) value
                                        nonce envelope
                                        (λ bytes same.
                                          π.random_length v.turn 12 bytes (sym drawn ∙ same))
                                        (of_seal-ok
                                          (Aead.seal π.cipher data_key nonce value
                                            (secret_context ids.0 ids.1 k))
                                          sealed),
                                    same_state ∙ ap (λ q. q.state) left,
                                    same_key ∙ ap (λ q. q.root_key) left,
                                  )

  secret_key-same : (key : Text) {k : Text} → secret_key key ≡ ok k → k ≡ key
  unfolding secret_key
  secret_key-same key h = ground arith

  -- A vault that differs in its secrets and its log resolves names and unwraps keys alike.
  same_names :
      (p e key : Text) (value : Sealed) (at : Timestamp) (ids : Text × Text) (v w : Vault)
      → w.state ≡ apply v.state (secret_set ids.0 ids.1 key value at)
      → w.root_key ≡ v.root_key
      → (resolve p e w ≡ resolve p e v)
        × (project_data_key π ids.0 w ≡ project_data_key π ids.0 v)
        × (require_unsealed w ≡ require_unsealed v)
  unfolding resolve project_data_key require_unsealed is_sealed apply project_by_slug
      environment_by_slug project
  same_names p e key value at ids v w h k = (rw h refl, rw (h, k) refl, rw k refl)

  -- After a value was stored, a reader that is allowed to read the environment is given it, as soon
  -- as the record of the reading is committed.
  pub get_secret-set_secret :
      (caller reader : Caller) (p e key : Text) (value : Bytes) (v w : Vault) (ids : Text × Text)
      → set_secret π caller p e key value v ≡ (ok tt, w)
      → resolve p e v ≡ ok ids
      → authorise reader read_secrets ids.0 ids.1 ≡ ok tt
      → get_secret π reader p e key w
        ≡ and_then
            (record_audit π reader (codes "secret.read") (target (target p e) key) (codes "ok") w)
            λ _. pure value
  get_secret-set_secret caller reader p e key value v w ids h resolved allowed =
      let (
        ids', data_key, envelope, at, k, valid, unlocked, found, _, unwrapped, opens, left, root,
      ) =
        set_secret-ok caller p e key value v w h in
      let same_ids : ids' ≡ ids = ok-injective (sym found ∙ resolved) in
      let (names, keys, lock) = same_names p e k (to_sealed envelope) at ids' v w left root in
      subst
        (λ z.
          get_secret π reader p e z w
          ≡ and_then
              (record_audit π reader (codes "secret.read") (target (target p e) z) (codes "ok") w)
              λ _. pure value)
        (secret_key-same key valid)
        (get_secret-runs reader p e k w ids' (stored ids'.0 ids'.1 k (to_sealed envelope) at)
          data_key value (lock ∙ unlocked) (resolve_for-resolve reader p e w ids' (names ∙ found))
          (ap (λ i. authorise reader read_secrets i.0 i.1) same_ids ∙ allowed)
          (ap (λ s. secret s ids'.0 ids'.1 k) left
            ∙ secret-apply_set ids'.0 ids'.1 k (to_sealed envelope) at v.state)
          (keys ∙ unwrapped) opens)
