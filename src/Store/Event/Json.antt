-- ===== src/Store/Event/Json.antt =====
-- crates/ls-store/src/event.rs: how an event is rendered as JSON and read back. An error is the
-- reason that `MalformedEvent` carries.
pub mod Reading
pub mod Laws
pub mod Writable
pub mod Codec
mod Examples
use localsecrets.Common.{
  ℕ, Bool, true, false, Option, none, some, List, [], ◌∷◌, Bytes, Text, codes, bytes_eq,
  if◌then◌else◌, ◌>>=◌, ◌==◌,
}
use localsecrets.Common.Utf8.{is_utf8}
use localsecrets.Common.Int.{ℤ, pos}
use localsecrets.Common.Results.{Result, ok, err}
use localsecrets.Common.Results
use localsecrets.Core.Time.{Timestamp}
use localsecrets.Core.Time.Rfc3339.{to_rfc3339, parse_rfc3339}
use localsecrets.Core.Encoding.Hex
use localsecrets.Json.Value.{
  Value, Fields, null, bool, int, float, string, array, object, no_fields, field, get, as_str,
  as_i64,
}
use localsecrets.Json.Printer.{FloatText, render}
use localsecrets.Json.Parser.Values.{parse}
use localsecrets.Store.Event.{
  Event, Sealed, TokenKind, root, session, machine, user_created, token_issued, token_revoked,
  project_created, environment_created, secret_set, secret_deleted, audited,
}

-- `Value::object`.
abbrev pub fields_of : List (Text × Value) → Fields
fields_of [] = no_fields
fields_of ((name, v) ∷ rest) = field name v (fields_of rest)

abbrev pub object_of : List (Text × Value) → Value
object_of fields = object (fields_of fields)

abbrev pub time_value : Timestamp → Value
time_value at = string (to_rfc3339 at)

abbrev pub optional_text : Option Text → Value
optional_text (some text) = string text
optional_text none = null

abbrev pub optional_time : Option Timestamp → Value
optional_time (some at) = time_value at
optional_time none = null

abbrev pub sealed_format : ℕ
sealed_format = 1

unfoldable pub sealed_value : Sealed → Value
sealed_value s = object_of (
    (codes "v", int (pos sealed_format))
    ∷ (codes "nonce", string (Hex.encode s.nonce))
    ∷ (codes "ciphertext", string (Hex.encode s.ciphertext))
    ∷ [])

unfoldable pub kind_name : TokenKind → Text
kind_name root = codes "root"
kind_name session = codes "session"
kind_name machine = codes "machine"

unfoldable pub parse_kind : Text → Option TokenKind
unfolding bytes_eq
parse_kind text =
    if bytes_eq text (codes "root")
    then some root
    else if bytes_eq text (codes "session")
    then some session
    else if bytes_eq text (codes "machine")
    then some machine
    else none

unfoldable pub type_name : Event → Text
type_name (user_created _ _ _ _) = codes "user.created"
type_name (token_issued _ _ _ _ _ _ _ _ _) = codes "token.issued"
type_name (token_revoked _ _) = codes "token.revoked"
type_name (project_created _ _ _ _ _) = codes "project.created"
type_name (environment_created _ _ _ _ _) = codes "environment.created"
type_name (secret_set _ _ _ _ _) = codes "secret.set"
type_name (secret_deleted _ _ _ _) = codes "secret.deleted"
type_name (audited _ _ _ _ _) = codes "audit"

-- What stands behind the tag `type`.
unfoldable pub body : Event → List (Text × Value)
body (user_created id email password_hash created_at) =
    (codes "id", string id)
    ∷ (codes "email", string email)
    ∷ (codes "password_hash", string password_hash)
    ∷ (codes "created_at", time_value created_at)
    ∷ []
body
      (token_issued id token_hash kind user_id project_id environment_id label expires_at
        created_at) =
    (codes "id", string id)
    ∷ (codes "token_hash", string (Hex.encode token_hash))
    ∷ (codes "kind", string (kind_name kind))
    ∷ (codes "user_id", optional_text user_id)
    ∷ (codes "project_id", optional_text project_id)
    ∷ (codes "environment_id", optional_text environment_id)
    ∷ (codes "label", optional_text label)
    ∷ (codes "expires_at", optional_time expires_at)
    ∷ (codes "created_at", time_value created_at)
    ∷ []
body (token_revoked id at) = (codes "id", string id) ∷ (codes "at", time_value at) ∷ []
body (project_created id slug name data_key created_at) =
    (codes "id", string id)
    ∷ (codes "slug", string slug)
    ∷ (codes "name", string name)
    ∷ (codes "data_key", sealed_value data_key)
    ∷ (codes "created_at", time_value created_at)
    ∷ []
body (environment_created id project_id slug name created_at) =
    (codes "id", string id)
    ∷ (codes "project_id", string project_id)
    ∷ (codes "slug", string slug)
    ∷ (codes "name", string name)
    ∷ (codes "created_at", time_value created_at)
    ∷ []
body (secret_set project_id environment_id key value at) =
    (codes "project_id", string project_id)
    ∷ (codes "environment_id", string environment_id)
    ∷ (codes "key", string key)
    ∷ (codes "value", sealed_value value)
    ∷ (codes "at", time_value at)
    ∷ []
body (secret_deleted project_id environment_id key at) =
    (codes "project_id", string project_id)
    ∷ (codes "environment_id", string environment_id)
    ∷ (codes "key", string key)
    ∷ (codes "at", time_value at)
    ∷ []
body (audited at actor action target outcome) =
    (codes "at", time_value at)
    ∷ (codes "actor", string actor)
    ∷ (codes "action", string action)
    ∷ (codes "target", string target)
    ∷ (codes "outcome", string outcome)
    ∷ []

unfoldable pub to_value : Event → Value
unfolding type_name body
to_value e = object_of ((codes "type", string (type_name e)) ∷ body e)

-- `.ok_or(StoreError::MalformedEvent(reason))`.
abbrev pub or_malformed {ℓ} : {A : Type ℓ} → Text → Option A → Result A Text
or_malformed reason none = err reason
or_malformed reason (some a) = ok a

unfoldable pub text_field : Value → Text → Result Text Text
unfolding get as_str
text_field v name = or_malformed name (do found ← get v name; as_str found)

unfoldable pub time_field : Value → Text → Result Timestamp Text
unfolding get as_str
time_field v name =
    or_malformed name (do found ← get v name; text ← as_str found; parse_rfc3339 text)

unfoldable pub bytes_field : Value → Text → Result Bytes Text
unfolding get as_str
bytes_field v name = or_malformed name (do found ← get v name; text ← as_str found; Hex.decode text)

-- The `match` on `value.get(name)` of the two optional fields.
unfoldable pub optional_field {ℓ} :
    {A : Type ℓ} → (Text → Result A Text) → Text → Option Value → Result (Option A) Text
optional_field read name none = ok none
optional_field read name (some null) = ok none
optional_field read name (some (string text)) = Results.◌>>=◌ (read text) (λ a. ok (some a))
optional_field read name (some v) = err name

unfoldable pub optional_text_field : Value → Text → Result (Option Text) Text
unfolding get optional_field
optional_text_field v name = optional_field (λ text. ok text) name (get v name)

unfoldable pub optional_time_field : Value → Text → Result (Option Timestamp) Text
unfolding get optional_field
optional_time_field v name =
    optional_field (λ text. or_malformed name (parse_rfc3339 text)) name (get v name)
