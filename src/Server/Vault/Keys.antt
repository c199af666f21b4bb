-- ===== src/Server/Vault/Keys.antt =====
-- Sealing and unsealing in crates/ls-server/src/vault.rs.
pub mod Offers
pub mod Reopen
pub mod Restart
mod Examples
use localsecrets.Common.{
  ℕ, Bool, true, false, not, ◌&&◌, ◌||◌, Option, none, some, List, [], ◌∷◌, ◌++◌, Bytes, codes,
  length, ltb, ◌==◌, bytes_eq, if◌then◌else◌,
}
use localsecrets.Common.Results.{Result, ok, err}
use localsecrets.Core.Aead.{key_wrap, from_bytes, unwrap_key}
use localsecrets.Core.Shamir.{Share, combine}
use localsecrets.Store.State.{State, empty, apply}
use localsecrets.Store.Log.{Log, malformed_event}
use localsecrets.Store.Log.Sealed.{Record, read_records}
use localsecrets.Server.Errors.{VaultError, not_initialized, unseal_failed, bad_share, store}
use localsecrets.Server.Setting.{Setting}
use localsecrets.Server.Vault.{
  Barrier, Vault, Op, Caller, administer, to_envelope, is_sealed, require_capability,
}

-- `Barrier::context`.
abbrev pub barrier_context : Bytes
barrier_context = key_wrap (codes "root-key") (codes "barrier")

pub record UnsealStatus : Type 0 where
  pub sealed : Bool
  pub progress : ℕ
  pub threshold : ℕ

-- `contains`, and the push of a share that is not there.
unfoldable pub contains_share : Share → List Share → Bool
contains_share share [] = false
contains_share share (s ∷ shares) =
    s.index == share.index && bytes_eq s.share_data share.share_data || contains_share share shares

unfoldable pub push_new : Share → List Share → List Share
push_new share shares = if contains_share share shares then shares else shares ++ share ∷ []

module _ (π : Setting) where
  -- The loop of `replay`: a record that is not sealed is the barrier.
  unfoldable pub replay_records : State → List Record → Result State VaultError
  replay_records s [] = ok s
  replay_records s (r ∷ rs) = elim r.sealed [
    | false ↦ replay_records s rs
    | true ↦ elim (π.codec.from_bytes r.payload) [
      | none ↦ err (store malformed_event)
      | some event ↦ replay_records (apply s event) rs
    ]
  ]

  unfoldable pub replay : Bytes → Log → Result State VaultError
  replay root_key log = elim (read_records π.cipher root_key log) [
    | err e ↦ err (store e)
    | ok records ↦ replay_records empty records
  ]

  -- `match .. { Err(_) => UnsealFailed }` on the steps towards the root key.
  unfoldable pub recovered_key : Barrier → List Share → Option Bytes
  recovered_key barrier shares = elim (combine shares) [
    | err e ↦ none
    | ok master ↦ elim (from_bytes master) [
      | none ↦ none
      | some master_key ↦
          elim (unwrap_key π.cipher master_key (to_envelope barrier.root_key) barrier_context) [
            | err e ↦ none
            | ok root_key ↦ some root_key
          ]
    ]
  ]

  -- What `try_unseal` does with the replayed state.
  abbrev pub unsealed :
      Bytes → Vault → Result State VaultError → Result (Unit {0}) VaultError × Vault
  unsealed root_key v (err e) = (err e, v)
  unsealed root_key v (ok s) =
      (ok tt, record v { root_key = some root_key; state = s; pending_shares = [] })

  unfoldable pub unseal_with : Option Bytes → Op (Unit {0})
  unseal_with none v = (err unseal_failed, v)
  unseal_with (some root_key) v = unsealed root_key v (replay root_key v.log)

  -- `try_unseal`, by the barrier.
  unfoldable pub unseal_from : Option Barrier → Op (Unit {0})
  unseal_from none v = (err not_initialized, v)
  unseal_from (some barrier) v = unseal_with (recovered_key barrier v.pending_shares) v

  abbrev pub try_unseal : Op (Unit {0})
  try_unseal v = unseal_from v.barrier v

  -- The end of `submit_share`: a failure clears the shares.
  abbrev pub attempted :
      ℕ → Result (Unit {0}) VaultError × Vault → Result UnsealStatus VaultError × Vault
  attempted threshold (ok _, v) =
      (ok (record { sealed = false; progress = 0; threshold = threshold }), v)
  attempted threshold (err e, v) = (err e, record v { pending_shares = [] })

  -- A share that is read, added to those that are pending.
  unfoldable pub add_share : ℕ → Share → Op UnsealStatus
  add_share threshold share v =
      let pending = push_new share v.pending_shares in
      let w = record v { pending_shares = pending } in
      if ltb (length pending) threshold
      then (ok (record { sealed = true; progress = length pending; threshold = threshold }), w)
      else attempted threshold (try_unseal w)

  -- `submit_share`, by the barrier; the share is what `Share::parse` makes of the text.
  unfoldable pub submit_to : Option Barrier → Option Share → Op UnsealStatus
  submit_to none parsed v = (err not_initialized, v)
  submit_to (some barrier) parsed v =
      if not (is_sealed v)
      then (ok (record { sealed = false; progress = 0; threshold = barrier.threshold }), v)
      else elim parsed [
        | none ↦ (err bad_share, v)
        | some share ↦ add_share barrier.threshold share v
      ]

  abbrev pub submit_share : Option Share → Op UnsealStatus
  submit_share parsed v = submit_to v.barrier parsed v

-- `reset_unseal`.
unfoldable pub reset_unseal : Vault → Vault
reset_unseal v = record v { pending_shares = [] }

-- `seal`.
unfoldable pub seal : Vault → Vault
seal v = record v { root_key = none; state = empty; pending_shares = [] }

-- `seal_as`.
unfoldable pub seal_as : Caller → Op (Unit {0})
seal_as caller v = elim (require_capability caller administer) [
  | err e ↦ (err e, v)
  | ok _ ↦ (ok tt, seal v)
]
