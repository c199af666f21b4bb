-- ===== src/Server/Vault/Moves.antt =====
-- Each operation of crates/ls-server/src/vault.rs on accounts and on secrets is a run of commits.
pub mod Runs
pub mod Served
use localsecrets.Common.{Option, none, some, Bytes, Text, List, [], ◌∷◌, ◌++◌}
use localsecrets.Common.Int.{ℤ}
use localsecrets.Store.Event.{TokenKind}
use localsecrets.Server.Setting.{Setting}
use localsecrets.Server.Vault.{
  Caller, Capability, Vault, new_id, generate_key, resolve_and_record, authorise_and_record,
}
use localsecrets.Server.Vault.Secrets.{
  set_secret, stored_value, get_secret, list_secrets, delete_secret,
}
use localsecrets.Server.Vault.Accounts.{
  create_user, expiry, issue_token, login, issue_machine_token, revoke_token, create_project,
  create_environment,
}
use localsecrets.Server.Vault.Steps.{
  Attempt, Commits, done, Commits_trans, Steps, bind-Steps, reading-Steps, pure-Steps, now-Steps,
  draw-Steps, commit-Steps, recording-Steps, record_audit-Steps,
}

ruleset step_rules = (
  bind-Steps, reading-Steps, pure-Steps, now-Steps, draw-Steps, commit-Steps, recording-Steps,
  record_audit-Steps,
)

module _ (π : Setting) where
  new_id-Steps : Steps π (new_id π)
  unfolding new_id
  new_id-Steps = search step_rules

  generate_key-Steps : Steps π (generate_key π)
  unfolding generate_key
  generate_key-Steps = search step_rules

  resolve_and_record-Steps :
      (caller : Caller) (action p e name : Text)
      → Steps π (resolve_and_record π caller action p e name)
  unfolding resolve_and_record
  resolve_and_record-Steps caller action p e name = search step_rules

  authorise_and_record-Steps :
      (caller : Caller) (capability : Capability) (action name p e : Text)
      → Steps π (authorise_and_record π caller capability action name p e)
  unfolding authorise_and_record
  authorise_and_record-Steps caller capability action name p e = search step_rules

  pub set_secret-Steps :
      (caller : Caller) (p e key : Text) (value : Bytes)
      → Steps π (set_secret π caller p e key value)
  unfolding set_secret
  set_secret-Steps caller p e key value =
      search (step_rules, resolve_and_record-Steps, authorise_and_record-Steps) depth 40

  stored_value-Steps :
      (caller : Caller) (name p e key : Text) → Steps π (stored_value π caller name p e key)
  unfolding stored_value
  stored_value-Steps caller name p e key = search (step_rules) depth 40

  pub get_secret-Steps : (caller : Caller) (p e key : Text) → Steps π (get_secret π caller p e key)
  unfolding get_secret
  get_secret-Steps caller p e key =
      search (step_rules, resolve_and_record-Steps, authorise_and_record-Steps, stored_value-Steps)
        depth 40

  pub list_secrets-Steps : (caller : Caller) (p e : Text) → Steps π (list_secrets π caller p e)
  unfolding list_secrets
  list_secrets-Steps caller p e =
      search (step_rules, resolve_and_record-Steps, authorise_and_record-Steps) depth 40

  pub delete_secret-Steps :
      (caller : Caller) (p e key : Text) → Steps π (delete_secret π caller p e key)
  unfolding delete_secret
  delete_secret-Steps caller p e key =
      search (step_rules, resolve_and_record-Steps, authorise_and_record-Steps) depth 40

  pub create_user-Steps :
      (caller : Caller) (address password : Text) → Steps π (create_user π caller address password)
  unfolding create_user
  create_user-Steps caller address password = search (step_rules, new_id-Steps) depth 40

  expiry-Steps : (ttl : Option ℤ) → Steps π (expiry π ttl)
  unfolding expiry
  expiry-Steps none = pure-Steps π
  expiry-Steps (some seconds) = search step_rules

  issue_token-Steps :
      (kind : TokenKind) (user p e label : Option Text) (ttl : Option ℤ)
      → Steps π (issue_token π kind user p e label ttl)
  unfolding issue_token
  issue_token-Steps kind user p e label ttl =
      search (step_rules, new_id-Steps, expiry-Steps) depth 40

  pub login-Steps : (address password : Text) (ttl : ℤ) → Steps π (login π address password ttl)
  unfolding login
  login-Steps address password ttl = search (step_rules, issue_token-Steps) depth 40

  pub issue_machine_token-Steps :
      (caller : Caller) (p e label : Text) (ttl : Option ℤ)
      → Steps π (issue_machine_token π caller p e label ttl)
  unfolding issue_machine_token
  issue_machine_token-Steps caller p e label ttl = search (step_rules, issue_token-Steps) depth 40

  pub revoke_token-Steps : (caller : Caller) (id : Text) → Steps π (revoke_token π caller id)
  unfolding revoke_token
  revoke_token-Steps caller id = search (step_rules) depth 40

  pub create_project-Steps :
      (caller : Caller) (wanted name : Text) → Steps π (create_project π caller wanted name)
  unfolding create_project
  create_project-Steps caller wanted name =
      search (step_rules, new_id-Steps, generate_key-Steps) depth 40

  pub create_environment-Steps :
      (caller : Caller) (p wanted name : Text) → Steps π (create_environment π caller p wanted name)
  unfolding create_environment
  create_environment-Steps caller p wanted name = search (step_rules, new_id-Steps) depth 40
