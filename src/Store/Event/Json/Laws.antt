-- ===== src/Store/Event/Json/Laws.antt =====
-- The JSON of an event, crates/ls-store/src/event.rs, is read back as the event.
use localsecrets.Common.{◌≡◌, refl, Option, none, some, IsBytes, Text, codes, bytes_eq, true}
use localsecrets.Common.Results.{ok}
use localsecrets.Core.Time.{Timestamp}
use localsecrets.Core.Time.Rfc3339.{to_rfc3339, parse_rfc3339}
use localsecrets.Core.Encoding.Hex.Laws.{hex_decode-encode}
use localsecrets.Store.Event.{
  Event, Sealed, TokenKind, root, session, machine, user_created, token_issued, token_revoked,
  project_created, environment_created, secret_set, secret_deleted, audited,
}
use localsecrets.Store.Event.Json.{
  to_value, sealed_value, kind_name, parse_kind, time_field, bytes_field, optional_field,
  optional_text_field, optional_time_field, or_malformed, optional_text, is_utf8, optional_time,
}
use localsecrets.Store.Event.Json.Reading.{
  sealed_from, from_value, read_user, read_token, read_revoked, read_project, read_environment,
  read_secret, read_deleted, read_audit,
}

-- A moment that is written as RFC 3339 and read back.
abbrev pub IsMoment : Timestamp → Type 0
IsMoment at = parse_rfc3339 (to_rfc3339 at) ≡ some at

abbrev pub MaybeMoment : Option Timestamp → Type 0
MaybeMoment none = Unit
MaybeMoment (some at) = IsMoment at

abbrev pub IsUtf8 : Text → Type 0
IsUtf8 text = is_utf8 text ≡ true

abbrev pub MaybeUtf8 : Option Text → Type 0
MaybeUtf8 none = Unit
MaybeUtf8 (some text) = IsUtf8 text

-- What can be written of an event: texts that are UTF-8, bytes that are bytes, moments in range.
abbrev pub IsWritable : Event → Type 0
IsWritable (user_created id email password_hash created_at) =
    IsUtf8 id × IsUtf8 email × IsUtf8 password_hash × IsMoment created_at
IsWritable
      (token_issued id token_hash kind user_id project_id environment_id label expires_at
        created_at) =
    IsUtf8 id
    × IsBytes token_hash
    × MaybeUtf8 user_id
    × MaybeUtf8 project_id
    × MaybeUtf8 environment_id
    × MaybeUtf8 label
    × MaybeMoment expires_at
    × IsMoment created_at
IsWritable (token_revoked id at) = IsUtf8 id × IsMoment at
IsWritable (project_created id slug name data_key created_at) =
    IsUtf8 id
    × IsUtf8 slug
    × IsUtf8 name
    × IsBytes data_key.nonce
    × IsBytes data_key.ciphertext
    × IsMoment created_at
IsWritable (environment_created id project_id slug name created_at) =
    IsUtf8 id × IsUtf8 project_id × IsUtf8 slug × IsUtf8 name × IsMoment created_at
IsWritable (secret_set project_id environment_id key value at) =
    IsUtf8 project_id
    × IsUtf8 environment_id
    × IsUtf8 key
    × IsBytes value.nonce
    × IsBytes value.ciphertext
    × IsMoment at
IsWritable (secret_deleted project_id environment_id key at) =
    IsUtf8 project_id × IsUtf8 environment_id × IsUtf8 key × IsMoment at
IsWritable (audited at actor action target outcome) =
    IsMoment at × IsUtf8 actor × IsUtf8 action × IsUtf8 target × IsUtf8 outcome

sealed_back :
    (s : Sealed) → IsBytes s.nonce → IsBytes s.ciphertext → sealed_from (sealed_value s) ≡ ok s
unfolding sealed_from sealed_value bytes_eq
sealed_back s n c = rw (hex_decode-encode s.nonce n, hex_decode-encode s.ciphertext c)

kind_back : (k : TokenKind) → parse_kind (kind_name k) ≡ some k
unfolding parse_kind kind_name
kind_back root = refl
kind_back session = refl
kind_back machine = refl

optional_text_back :
    (name : Text) (o : Option Text)
    → optional_field (λ text. ok text) name (some (optional_text o)) ≡ ok o
unfolding optional_field
optional_text_back name none = refl
optional_text_back name (some t) = refl

optional_time_back :
    (name : Text) (o : Option Timestamp)
    → MaybeMoment o
    → optional_field (λ text. or_malformed name (parse_rfc3339 text)) name (some (optional_time o))
      ≡ ok o
unfolding optional_field
optional_time_back name none h = refl
optional_time_back name (some at) h = rw h

pub from_value-to_value : (e : Event) → IsWritable e → from_value (to_value e) ≡ ok e
unfolding to_value from_value read_user read_token read_revoked read_project read_environment
    read_secret read_deleted read_audit time_field bytes_field optional_text_field
    optional_time_field bytes_eq
from_value-to_value (user_created id email password_hash created_at) h = rw h.3
from_value-to_value
      (token_issued id token_hash kind user_id project_id environment_id label expires_at
        created_at)
      h =
    rw (
      hex_decode-encode token_hash h.1,
      kind_back kind,
      optional_text_back (codes "user_id") user_id,
      optional_text_back (codes "project_id") project_id,
      optional_text_back (codes "environment_id") environment_id,
      optional_text_back (codes "label") label,
      optional_time_back (codes "expires_at") expires_at h.6,
      h.7,
    )
from_value-to_value (token_revoked id at) h = rw h.1
from_value-to_value (project_created id slug name data_key created_at) h =
    rw (sealed_back data_key h.3 h.4, h.5)
from_value-to_value (environment_created id project_id slug name created_at) h = rw h.4
from_value-to_value (secret_set project_id environment_id key value at) h =
    rw (sealed_back value h.3 h.4, h.5)
from_value-to_value (secret_deleted project_id environment_id key at) h = rw h.3
from_value-to_value (audited at actor action target outcome) h = rw h.0
