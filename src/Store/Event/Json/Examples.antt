-- ===== src/Store/Event/Json/Examples.antt =====
-- Events of crates/ls-store/src/event.rs, written and read.
use localsecrets.Common.{◌≡◌, refl, none, some, [], ◌∷◌, codes, bytes_eq, arith}
use localsecrets.Common.Int.{pos}
use localsecrets.Common.Utf8.{is_utf8}
use localsecrets.Common.Results.{ok, err}
use localsecrets.Core.Time.{from_unix}
use localsecrets.Core.Time.Rfc3339.Moments.{parse_rfc3339-to_rfc3339}
use localsecrets.Json.Value.{object, no_fields, field, string}
use localsecrets.Json.Printer.{FloatText}
use localsecrets.Store.Event.{Event, machine, token_issued}
use localsecrets.Store.Event.Json.Reading.{to_bytes, from_bytes, from_value}
use localsecrets.Store.Event.Json.Laws.{IsWritable}
use localsecrets.Store.Event.Json.Codec.{from_bytes-to_bytes}

abbrev no_floats : FloatText
no_floats = record { show = λ x. []; read = λ t. none }

abbrev issued : Event
issued =
    token_issued (codes "t1") (0xab ∷ 0x00 ∷ []) machine none (some (codes "p1"))
      (some (codes "e1")) (some (codes "ci")) (some (from_unix (pos 1735689600)))
      (from_unix (pos 1704067200))

issued-IsWritable : IsWritable issued
unfolding is_utf8
issued-IsWritable = (
  refl,
  (omega arith, (omega arith, tt)),
  tt,
  refl,
  refl,
  refl,
  parse_rfc3339-to_rfc3339 (pos 1735689600),
  parse_rfc3339-to_rfc3339 (pos 1704067200),
)

from_bytes-to_bytes_example : from_bytes no_floats (to_bytes no_floats issued) ≡ ok issued
from_bytes-to_bytes_example = from_bytes-to_bytes no_floats issued issued-IsWritable

unknown_type :
    from_value (object (field (codes "type") (string (codes "user.renamed")) no_fields))
    ≡ err (codes "unknown event type")
unfolding from_value bytes_eq
unknown_type = refl
