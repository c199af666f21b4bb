-- ===== src/Server/Errors.antt =====
-- `VaultError` of crates/ls-server/src/vault.rs.
use localsecrets.Common.{ℕ, Text}
use localsecrets.Store.Log.{StoreError}

pub data VaultError : Type 0 where
  sealed already_initialized not_initialized unseal_failed : VaultError
  unreadable_barrier : (why : Text) → VaultError
  init_incomplete bad_share bad_credentials forbidden : VaultError
  not_found : (what : Text) → VaultError
  conflict : (what : Text) → VaultError
  invalid : (what : Text) → VaultError
  value_too_large : (len limit : ℕ) → VaultError
  crypto : VaultError
  store : StoreError → VaultError
