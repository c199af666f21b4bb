-- ===== src/Server/Vault/Moves/Served.antt =====
-- Requests to the vault of crates/ls-server/src/vault.rs, on secrets and accounts and on its lock.
use localsecrets.Common.{Option, Bytes, Text, List, [], ◌∷◌}
use localsecrets.Common.Int.{ℤ}
use localsecrets.Core.Shamir.{Share}
use localsecrets.Server.Setting.{Setting}
use localsecrets.Server.Vault.{Caller, Vault}
use localsecrets.Server.Vault.Secrets.{set_secret, get_secret, list_secrets, delete_secret}
use localsecrets.Server.Vault.Accounts.{
  create_user, login, issue_machine_token, revoke_token, create_project, create_environment,
}
use localsecrets.Server.Vault.Keys.{submit_share, reset_unseal, seal_as}
use localsecrets.Server.Vault.Moves.Runs.{Runs}

-- A request to the vault, with who makes it.
pub data Request : Type 0 where
  set_request : (caller : Caller) (p e key : Text) (value : Bytes) → Request
  get_request : (caller : Caller) (p e key : Text) → Request
  list_request : (caller : Caller) (p e : Text) → Request
  delete_request : (caller : Caller) (p e key : Text) → Request
  user_request : (caller : Caller) (address password : Text) → Request
  login_request : (address password : Text) (ttl : ℤ) → Request
  machine_request : (caller : Caller) (p e label : Text) (ttl : Option ℤ) → Request
  revoke_request : (caller : Caller) (id : Text) → Request
  project_request : (caller : Caller) (wanted name : Text) → Request
  environment_request : (caller : Caller) (p wanted name : Text) → Request
  seal_request : (caller : Caller) → Request
  share_request : (parsed : Option Share) → Request
  reset_request : Request

module _ (π : Setting) where
  -- The vault after a request, and after one request after another.
  unfoldable pub serve : Request → Vault → Vault
  serve (set_request caller p e key value) v = (set_secret π caller p e key value v).1
  serve (get_request caller p e key) v = (get_secret π caller p e key v).1
  serve (list_request caller p e) v = (list_secrets π caller p e v).1
  serve (delete_request caller p e key) v = (delete_secret π caller p e key v).1
  serve (user_request caller address password) v = (create_user π caller address password v).1
  serve (login_request address password ttl) v = (login π address password ttl v).1
  serve (machine_request caller p e label ttl) v = (issue_machine_token π caller p e label ttl v).1
  serve (revoke_request caller id) v = (revoke_token π caller id v).1
  serve (project_request caller wanted name) v = (create_project π caller wanted name v).1
  serve (environment_request caller p wanted name) v =
      (create_environment π caller p wanted name v).1
  serve (seal_request caller) v = (seal_as caller v).1
  serve (share_request parsed) v = (submit_share π parsed v).1
  serve reset_request v = reset_unseal v

  unfoldable pub serve_all : List Request → Vault → Vault
  serve_all [] v = v
  serve_all (r ∷ rs) v = serve_all rs (serve r v)
