-- ===== src/Store/State.antt =====
-- crates/ls-store/src/state.rs: the state that the log folds to, and its lookups.
pub mod Secrets
pub mod Unique
pub mod Tokens
pub mod Listing
mod Examples
use localsecrets.Common.{
  Bool, true, false, not, ◌&&◌, Option, none, some, List, [], ◌∷◌, ◌++◌, Bytes, Text, bytes_eq,
  bytes_leb, if◌then◌else◌, find, keep, update_first, trim, to_ascii_lowercase,
}
use localsecrets.Common.Int.{ltb_ℤ}
use localsecrets.Core.Time.{Timestamp}
use localsecrets.Store.Event.{
  Sealed, TokenKind, Event, user_created, token_issued, token_revoked, project_created,
  environment_created, secret_set, secret_deleted, audited,
}

pub record User : Type 0 where
  pub id : Text
  pub email : Text
  pub password_hash : Text
  pub created_at : Timestamp

pub record Token : Type 0 where
  pub id : Text
  pub token_hash : Bytes
  pub kind : TokenKind
  pub user_id : Option Text
  pub project_id : Option Text
  pub environment_id : Option Text
  pub label : Option Text
  pub expires_at : Option Timestamp
  pub revoked_at : Option Timestamp
  pub created_at : Timestamp

-- `Token::is_valid_at`.
unfoldable pub is_valid_at : Token → Timestamp → Bool
is_valid_at token now = elim token.revoked_at [
  | some at ↦ false
  | none ↦ elim token.expires_at [ some expiry ↦ ltb_ℤ now expiry | none ↦ true ]
]

pub record Project : Type 0 where
  pub id : Text
  pub slug : Text
  pub name : Text
  pub data_key : Sealed
  pub created_at : Timestamp

pub record Environment : Type 0 where
  pub id : Text
  pub project_id : Text
  pub slug : Text
  pub name : Text
  pub created_at : Timestamp

pub record Secret : Type 0 where
  pub project_id : Text
  pub environment_id : Text
  pub key : Text
  pub value : Sealed
  pub updated_at : Timestamp

pub record State : Type 0 where
  pub users : List User
  pub tokens : List Token
  pub projects : List Project
  pub environments : List Environment
  pub secrets : List Secret

-- `State::default`.
abbrev pub empty : State
empty = record { users = []; tokens = []; projects = []; environments = []; secrets = [] }

-- The test by which `apply` and `secret` find a slot.
unfoldable pub at_slot : Text → Text → Text → Secret → Bool
at_slot project_id environment_id key s =
    bytes_eq s.project_id project_id
    && bytes_eq s.environment_id environment_id
    && bytes_eq s.key key

-- The arm of `SecretSet`.
unfoldable pub set_secret : Text → Text → Text → Sealed → Timestamp → List Secret → List Secret
set_secret project_id environment_id key value at secrets =
    elim (find (at_slot project_id environment_id key) secrets) [
      | some existing ↦
          update_first (at_slot project_id environment_id key)
            (λ s. record s { value = value; updated_at = at }) secrets
      | none ↦
          secrets
          ++ record {
            project_id = project_id;
            environment_id = environment_id;
            key = key;
            value = value;
            updated_at = at;
          }
            ∷ []
    ]

-- The arm of `SecretDeleted`.
unfoldable pub delete_secret : Text → Text → Text → List Secret → List Secret
delete_secret project_id environment_id key secrets =
    keep (λ s. not (at_slot project_id environment_id key s)) secrets

-- The arm of `TokenRevoked`.
unfoldable pub revoke : Text → Timestamp → List Token → List Token
revoke id at tokens =
    update_first (λ t. bytes_eq t.id id) (λ t. record t { revoked_at = some at }) tokens

-- `State::apply`.
unfoldable pub apply : State → Event → State
apply s (user_created id email password_hash created_at) = record s {
  users =
      s.users
      ++ record { id = id; email = email; password_hash = password_hash; created_at = created_at }
        ∷ [];
}
apply s
      (token_issued id token_hash kind user_id project_id environment_id label expires_at
        created_at) =
    record s {
      tokens =
          s.tokens
          ++ record {
            id = id;
            token_hash = token_hash;
            kind = kind;
            user_id = user_id;
            project_id = project_id;
            environment_id = environment_id;
            label = label;
            expires_at = expires_at;
            revoked_at = none;
            created_at = created_at;
          }
            ∷ [];
    }
apply s (token_revoked id at) = record s { tokens = revoke id at s.tokens }
apply s (project_created id slug name data_key created_at) = record s {
  projects =
      s.projects
      ++ record { id = id; slug = slug; name = name; data_key = data_key; created_at = created_at }
        ∷ [];
}
apply s (environment_created id project_id slug name created_at) = record s {
  environments =
      s.environments
      ++ record {
        id = id;
        project_id = project_id;
        slug = slug;
        name = name;
        created_at = created_at;
      }
        ∷ [];
}
apply s (secret_set project_id environment_id key value at) = record s {
  secrets = set_secret project_id environment_id key value at s.secrets;
}
apply s (secret_deleted project_id environment_id key at) = record s {
  secrets = delete_secret project_id environment_id key s.secrets;
}
apply s (audited at actor action target outcome) = s

-- The fold of a list of events, as a replay makes it.
unfoldable pub apply_all : State → List Event → State
apply_all s [] = s
apply_all s (e ∷ es) = apply_all (apply s e) es

unfoldable pub user_by_email : State → Text → Option User
user_by_email s email =
    let wanted = to_ascii_lowercase (trim email) in find (λ u. bytes_eq u.email wanted) s.users

unfoldable pub user : State → Text → Option User
user s id = find (λ u. bytes_eq u.id id) s.users

-- `ct_eq` on slices: equal lengths and equal bytes.
unfoldable pub token_by_hash : State → Bytes → Option Token
token_by_hash s hash = find (λ t. bytes_eq t.token_hash hash) s.tokens

unfoldable pub token : State → Text → Option Token
token s id = find (λ t. bytes_eq t.id id) s.tokens

unfoldable pub project_by_slug : State → Text → Option Project
project_by_slug s slug = find (λ p. bytes_eq p.slug slug) s.projects

unfoldable pub project : State → Text → Option Project
project s id = find (λ p. bytes_eq p.id id) s.projects

unfoldable pub environment_by_slug : State → Text → Text → Option Environment
environment_by_slug s project_id slug =
    find (λ e. bytes_eq e.project_id project_id && bytes_eq e.slug slug) s.environments

unfoldable pub environments_in : State → Text → List Environment
environments_in s project_id = keep (λ e. bytes_eq e.project_id project_id) s.environments

unfoldable pub secret : State → Text → Text → Text → Option Secret
secret s project_id environment_id key = find (at_slot project_id environment_id key) s.secrets

-- One step of a stable sort by key: before the entries with keys that are no less.
insert_by_key : Secret → List Secret → List Secret
insert_by_key s [] = s ∷ []
insert_by_key s (t ∷ ts) =
    let rest = insert_by_key s ts in if bytes_leb s.key t.key then s ∷ t ∷ ts else t ∷ rest

-- `sort_by(|a, b| a.key.cmp(&b.key))`, which is stable.
unfoldable pub sort_by_key : List Secret → List Secret
unfolding insert_by_key
sort_by_key [] = []
sort_by_key (s ∷ ss) = insert_by_key s (sort_by_key ss)

unfoldable pub secrets_in : State → Text → Text → List Secret
unfolding sort_by_key
secrets_in s project_id environment_id = sort_by_key (
    keep (λ x. bytes_eq x.project_id project_id && bytes_eq x.environment_id environment_id)
      s.secrets)
