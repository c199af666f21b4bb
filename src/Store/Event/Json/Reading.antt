-- ===== src/Store/Event/Json/Reading.antt =====
-- crates/ls-store/src/event.rs: `from_value`, `to_bytes` and `from_bytes`.
use localsecrets.Common.{
  Bool, false, Option, none, some, Bytes, Text, codes, bytes_eq, if◌then◌else◌, ◌==◌, String,
}
use localsecrets.Common.Utf8.{is_utf8}
use localsecrets.Common.Int.{ℤ, pos, negsuc}
use localsecrets.Common.Results.{Result, ok, err, ◌>>=◌, ◌>>◌}
use localsecrets.Json.Value.{Value, JsonError, get, as_i64}
use localsecrets.Json.Printer.{FloatText, render}
use localsecrets.Json.Parser.Values.{parse}
use localsecrets.Store.Event.{
  Event, Sealed, user_created, token_issued, token_revoked, project_created, environment_created,
  secret_set, secret_deleted, audited,
}
use localsecrets.Store.Event.Json.{
  or_malformed, text_field, time_field, bytes_field, optional_text_field, optional_time_field,
  parse_kind, sealed_format, to_value,
}

abbrev is_format : ℤ → Bool
is_format (pos n) = n == sealed_format
is_format (negsuc n) = false

-- The format marker of a sealed value.
unfoldable pub check_format : Option Value → Result (Unit {0}) Text
unfolding as_i64
check_format none = err (codes "sealed value has no format marker")
check_format (some v) = elim (as_i64 v) [
  | none ↦ err (codes "sealed value has no format marker")
  | some i ↦ if is_format i then ok tt else err (codes "unknown sealed value format")
]

unfoldable pub sealed_from : Value → Result Sealed Text
unfolding check_format get bytes_field
sealed_from v = do
  check_format (get v (codes "v"))
  nonce ← bytes_field v (codes "nonce")
  ciphertext ← bytes_field v (codes "ciphertext")
  ok (record { nonce = nonce; ciphertext = ciphertext })

unfoldable pub kind_is : String → Text → Bool
kind_is name kind = bytes_eq kind (codes name)

-- The arms of the `match` on the kind of the event.
module _ (v : Value) where
  unfoldable pub read_user : Result Event Text
  read_user = do
    id ← text_field v (codes "id")
    email ← text_field v (codes "email")
    password_hash ← text_field v (codes "password_hash")
    created_at ← time_field v (codes "created_at")
    ok (user_created id email password_hash created_at)

  unfoldable pub read_token : Result Event Text
  read_token = do
    id ← text_field v (codes "id")
    token_hash ← bytes_field v (codes "token_hash")
    name ← text_field v (codes "kind")
    kind ← or_malformed (codes "unknown token kind") (parse_kind name)
    user_id ← optional_text_field v (codes "user_id")
    project_id ← optional_text_field v (codes "project_id")
    environment_id ← optional_text_field v (codes "environment_id")
    label ← optional_text_field v (codes "label")
    expires_at ← optional_time_field v (codes "expires_at")
    created_at ← time_field v (codes "created_at")
    ok (
        token_issued id token_hash kind user_id project_id environment_id label expires_at
          created_at)

  unfoldable pub read_revoked : Result Event Text
  read_revoked = do
    id ← text_field v (codes "id")
    at ← time_field v (codes "at")
    ok (token_revoked id at)

  unfoldable pub read_project : Result Event Text
  read_project = do
    id ← text_field v (codes "id")
    slug ← text_field v (codes "slug")
    name ← text_field v (codes "name")
    found ← or_malformed (codes "missing data_key") (get v (codes "data_key"))
    data_key ← sealed_from found
    created_at ← time_field v (codes "created_at")
    ok (project_created id slug name data_key created_at)

  unfoldable pub read_environment : Result Event Text
  read_environment = do
    id ← text_field v (codes "id")
    project_id ← text_field v (codes "project_id")
    slug ← text_field v (codes "slug")
    name ← text_field v (codes "name")
    created_at ← time_field v (codes "created_at")
    ok (environment_created id project_id slug name created_at)

  unfoldable pub read_secret : Result Event Text
  read_secret = do
    project_id ← text_field v (codes "project_id")
    environment_id ← text_field v (codes "environment_id")
    key ← text_field v (codes "key")
    found ← or_malformed (codes "missing value") (get v (codes "value"))
    value ← sealed_from found
    at ← time_field v (codes "at")
    ok (secret_set project_id environment_id key value at)

  unfoldable pub read_deleted : Result Event Text
  read_deleted = do
    project_id ← text_field v (codes "project_id")
    environment_id ← text_field v (codes "environment_id")
    key ← text_field v (codes "key")
    at ← time_field v (codes "at")
    ok (secret_deleted project_id environment_id key at)

  unfoldable pub read_audit : Result Event Text
  read_audit = do
    at ← time_field v (codes "at")
    actor ← text_field v (codes "actor")
    action ← text_field v (codes "action")
    target ← text_field v (codes "target")
    outcome ← text_field v (codes "outcome")
    ok (audited at actor action target outcome)

  unfoldable pub from_kind : Text → Result Event Text
  unfolding kind_is
  from_kind kind =
      if kind_is "user.created" kind
      then read_user
      else if kind_is "token.issued" kind
      then read_token
      else if kind_is "token.revoked" kind
      then read_revoked
      else if kind_is "project.created" kind
      then read_project
      else if kind_is "environment.created" kind
      then read_environment
      else if kind_is "secret.set" kind
      then read_secret
      else if kind_is "secret.deleted" kind
      then read_deleted
      else if kind_is "audit" kind
      then read_audit
      else err (codes "unknown event type")

  unfoldable pub from_value : Result Event Text
  unfolding from_kind text_field
  from_value = do kind ← text_field v (codes "type"); from_kind kind

module _ (F : FloatText) where
  unfoldable pub to_bytes : Event → Bytes
  to_bytes e = render F (to_value e)

  unfoldable pub not_json : Result Value JsonError → Result Value Text
  not_json (ok v) = ok v
  not_json (err e) = err (codes "not JSON")

  unfoldable pub from_bytes : Bytes → Result Event Text
  unfolding not_json
  from_bytes bytes =
      if is_utf8 bytes
      then (do v ← not_json (parse F bytes); from_value v)
      else err (codes "not UTF-8")
