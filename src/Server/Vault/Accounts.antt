-- ===== src/Server/Vault/Accounts.antt =====
-- Users, tokens, projects and environments in crates/ls-server/src/vault.rs.
use localsecrets.Common.{
  Bool, not, ◌&&◌, ◌||◌, Option, none, some, List, [], map, Text, codes, length, ◌==◌, bytes_eq,
  if◌then◌else◌,
}
use localsecrets.Common.Int.{ℤ}
use localsecrets.Common.Results.{Result, ok, err}
use localsecrets.Core.Time.{Timestamp, plus_seconds}
use localsecrets.Core.Token
use localsecrets.Core.Token.{token_bytes}
use localsecrets.Core.Aead.{Envelope, AeadError, wrap}
use localsecrets.Store.Event.{
  TokenKind, root, session, machine, kind_eq, user_created, token_issued, token_revoked,
  project_created, environment_created,
}
use localsecrets.Store.State.{
  State, Token as StoredToken, User, is_valid_at, user_by_email, token_by_hash, token,
  project_by_slug, environment_by_slug, environments_in,
}
use localsecrets.Server.Errors.{
  VaultError, sealed, not_found, conflict, invalid, crypto, bad_credentials,
}
use localsecrets.Server.Setting.{Setting, PasswordError, entropy, refused}
use localsecrets.Server.Validate.{slug, email}
use localsecrets.Server.Vault.{
  Caller, bootstrap, administer, Vault, Op, ◌>>=◌, ◌>>◌, pure, reading, ok_or, absent, present,
  to_sealed, is_sealed, require_unsealed, require_capability, resolve, check_lifetime,
  project_key_context, now, draw, new_id, generate_key, commit,
}

-- `map_err` on a password that is not hashed.
abbrev pub of_hash : Result Text PasswordError → Result Text VaultError
of_hash (ok hash) = ok hash
of_hash (err entropy) = err crypto
of_hash (err refused) = err (invalid (codes "password"))

-- `map_err` on a key that is not wrapped.
abbrev pub of_wrap : Result Envelope AeadError → Result Envelope VaultError
of_wrap (ok envelope) = ok envelope
of_wrap (err e) = err crypto

abbrev pub check_ttl : Option ℤ → Result (Unit {0}) VaultError
check_ttl none = ok tt
check_ttl (some seconds) = check_lifetime seconds

-- `unwrap_or_default`.
abbrev pub normalised : Text → Text
normalised address = elim (email address) [ ok normal ↦ normal | err e ↦ [] ]

-- The end of `login`: an unknown account and a wrong password give one error.
unfoldable pub check_login : Setting → Text → Option User → Result User VaultError
check_login π password none = err bad_credentials
check_login π password (some u) =
    if π.password_verify password u.password_hash then ok u else err bad_credentials

-- The tests that `authenticate` makes of the token that it found.
unfoldable pub is_usable : State → Timestamp → StoredToken → Bool
is_usable s at t = is_valid_at t at && not (kind_eq t.kind root && not (length s.users == 0))

module _ (π : Setting) where
  unfoldable pub create_user : Caller → Text → Text → Op Text
  create_user caller address password = do
    reading require_unsealed
    reading λ v. require_capability caller bootstrap
    normal ← reading λ v. email address
    reading λ v. absent (user_by_email v.state normal) (conflict (codes "user"))
    salt ← draw π 16
    password_hash ← reading λ v. of_hash (π.password_hash password salt)
    id ← new_id π
    at ← now π
    commit π (user_created id normal password_hash at)
    pure id

  -- The expiry of a token.
  unfoldable pub expiry : Option ℤ → Op (Option Timestamp)
  expiry none = pure none
  expiry (some seconds) = do at ← now π; pure (some (plus_seconds at seconds))

  unfoldable pub issue_token :
      TokenKind → Option Text → Option Text → Option Text → Option Text → Option ℤ → Op Text
  issue_token kind user_id project_id environment_id label ttl_seconds = do
    random ← draw π token_bytes
    issued ← reading λ v. ok_or crypto (Token.generate π.sha256 random)
    id ← new_id π
    expires_at ← expiry ttl_seconds
    at ← now π
    commit π
        (token_issued id issued.hash kind user_id project_id environment_id label expires_at at)
    pure issued.secret

  unfoldable pub login : Text → Text → ℤ → Op Text
  login address password ttl_seconds = do
    reading require_unsealed
    reading λ v. check_lifetime ttl_seconds
    user ← reading λ v. check_login π password (user_by_email v.state (normalised address))
    issue_token session (some user.id) none none none (some ttl_seconds)

  unfoldable pub issue_machine_token : Caller → Text → Text → Text → Option ℤ → Op Text
  issue_machine_token caller project_slug environment_slug label ttl_seconds = do
    reading require_unsealed
    reading λ v. require_capability caller administer
    reading λ v. check_ttl ttl_seconds
    (project_id, environment_id) ← reading (resolve project_slug environment_slug)
    issue_token machine none (some project_id) (some environment_id) (some label) ttl_seconds

  unfoldable pub revoke_token : Caller → Text → Op (Unit {0})
  revoke_token caller id = do
    reading require_unsealed
    reading λ v. if bytes_eq id caller.token_id then ok tt else require_capability caller administer
    reading λ v. present (token v.state id) (not_found (codes "token"))
    at ← now π
    commit π (token_revoked id at)

  -- `authenticate`, at a moment.
  unfoldable pub authenticate : Text → Timestamp → Vault → Option Caller
  authenticate presented at v =
      if is_sealed v || length presented == 0
      then none
      else elim (token_by_hash v.state (Token.hash π.sha256 presented)) [
        | none ↦ none
        | some t ↦
            if is_usable v.state at t
            then some (record {
              token_id = t.id;
              kind = t.kind;
              user_id = t.user_id;
              project_id = t.project_id;
              environment_id = t.environment_id;
            })
            else none
      ]

  unfoldable pub create_project : Caller → Text → Text → Op Text
  create_project caller wanted name = do
    reading require_unsealed
    reading λ v. require_capability caller administer
    wanted ← reading λ v. slug wanted (codes "project slug")
    reading λ v. absent (project_by_slug v.state wanted) (conflict (codes "project"))
    id ← new_id π
    data_key ← generate_key π
    root_key ← reading λ v. ok_or sealed v.root_key
    nonce ← draw π 12
    wrapped ← reading λ v. of_wrap (wrap π.cipher root_key nonce data_key (project_key_context id))
    at ← now π
    commit π (project_created id wanted name (to_sealed wrapped) at)
    pure id

  unfoldable pub create_environment : Caller → Text → Text → Text → Op Text
  create_environment caller project_slug wanted name = do
    reading require_unsealed
    reading λ v. require_capability caller administer
    wanted ← reading λ v. slug wanted (codes "environment slug")
    p ← reading λ v. ok_or (not_found (codes "project")) (project_by_slug v.state project_slug)
    reading λ v. absent (environment_by_slug v.state p.id wanted) (conflict (codes "environment"))
    id ← new_id π
    at ← now π
    commit π (environment_created id p.id wanted name at)
    pure id

  unfoldable pub project_slugs : Caller → Op (List Text)
  project_slugs caller = do
    reading require_unsealed
    reading λ v. require_capability caller administer
    reading λ v. ok (map (λ p. p.slug) v.state.projects)

  unfoldable pub environment_slugs : Caller → Text → Op (List Text)
  environment_slugs caller project_slug = do
    reading require_unsealed
    reading λ v. require_capability caller administer
    p ← reading λ v. ok_or (not_found (codes "project")) (project_by_slug v.state project_slug)
    reading λ v. ok (map (λ e. e.slug) (environments_in v.state p.id))
