-- ===== src/Server/Codec.antt =====
-- The codec that crates/ls-server/src/vault.rs uses: the JSON of crates/ls-store/src/event.rs.
use localsecrets.Common.{◌≡◌, ap, Option, none, some}
use localsecrets.Common.Results.{Result, ok, err}
use localsecrets.Json.Printer.{FloatText}
use localsecrets.Store.Event.{Event}
use localsecrets.Store.Event.Json.Reading.{to_bytes, from_bytes}
use localsecrets.Store.Event.Json.Laws.{IsWritable}
use localsecrets.Store.Event.Json.Codec.{from_bytes-to_bytes}
use localsecrets.Server.Setting.{EventCodec}

abbrev pub readable {ℓ} : {A : Type ℓ} {E : Type 0} → Result A E → Option A
readable (ok a) = some a
readable (err e) = none

module _ (F : FloatText) where
  pub json_back : (e : Event) → IsWritable e → readable (from_bytes F (to_bytes F e)) ≡ some e
  json_back e h = ap readable (from_bytes-to_bytes F e h)

  abbrev pub json_codec : EventCodec
  json_codec = record {
    to_bytes = to_bytes F;
    from_bytes = λ bytes. readable (from_bytes F bytes);
    IsWritable = IsWritable;
    from_bytes-to_bytes = json_back;
  }
