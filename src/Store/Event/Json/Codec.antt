-- ===== src/Store/Event/Json/Codec.antt =====
-- The log's bytes of an event, crates/ls-store/src/event.rs: `to_bytes` and `from_bytes` are the
-- codec that the vault stands on.
use localsecrets.Common.{◌≡◌}
use localsecrets.Common.Results.{ok}
use localsecrets.Json.Printer.{FloatText}
use localsecrets.Json.RoundTrip.Utf8.{render-is_utf8}
use localsecrets.Json.RoundTrip.Whole.{parse-render}
use localsecrets.Store.Event.{Event}
use localsecrets.Store.Event.Json.{to_value}
use localsecrets.Store.Event.Json.Reading.{to_bytes, from_bytes}
use localsecrets.Store.Event.Json.Laws.{IsWritable, from_value-to_value}
use localsecrets.Store.Event.Json.Writable.{to_value-Fits}

module _ (F : FloatText) where
  -- What is written to the log for an event is read back as that event.
  pub from_bytes-to_bytes : (e : Event) → IsWritable e → from_bytes F (to_bytes F e) ≡ ok e
  unfolding from_bytes to_bytes
  from_bytes-to_bytes e h =
      let fits = to_value-Fits e h in
      rw (
        render-is_utf8 F (to_value e) fits,
        parse-render F (to_value e) fits,
        from_value-to_value e h,
      )
