-- ===== src/Json/Printer.antt =====
-- crates/ls-json/src/value.rs: `Display for Value`. How a float is printed and read is up to the
-- standard library, `FloatText`. A character of one byte is that byte; the bytes of others are
-- copied, since no escape is for them.
use localsecrets.Common.{
  ℕ, ◌+◌, ◌/◌, ◌%◌, Bool, true, false, Option, [], ◌∷◌, ◌++◌, Text, codes, decimal, ltb, ◌==◌,
  if◌then◌else◌,
}
use localsecrets.Common.Int.{ℤ, pos, negsuc}
use localsecrets.Json.Value.{
  Value, Items, Fields, null, bool, int, float, string, array, object, no_items, item, no_fields,
  field, is_finite,
}

-- `Display for f64` and `f64::from_str`, on bit patterns.
pub record FloatText : Type 0 where
  pub show : ℕ → Text
  pub read : Text → Option ℕ

-- `{i}` of an `i64`.
unfoldable pub show_int : ℤ → Text
show_int (pos n) = decimal n
show_int (negsuc n) = b'-' ∷ decimal (n + 1)

-- A digit of `{:04x}`.
abbrev pub hex_digit : ℕ → ℕ
hex_digit n = if ltb n 10 then n + 48 else n + 87

-- The arms of the `match` in `write_string`.
unfoldable pub escaped : ℕ → Text
escaped c =
    if c == b'"'
    then b'\\' ∷ b'"' ∷ []
    else if c == b'\\'
    then b'\\' ∷ b'\\' ∷ []
    else if c == 0xa
    then b'\\' ∷ b'n' ∷ []
    else if c == 0xd
    then b'\\' ∷ b'r' ∷ []
    else if c == 0x9
    then b'\\' ∷ b't' ∷ []
    else if c == 0x8
    then b'\\' ∷ b'b' ∷ []
    else if c == 0xc
    then b'\\' ∷ b'f' ∷ []
    else if ltb c 0x20
    then b'\\' ∷ b'u' ∷ b'0' ∷ b'0' ∷ hex_digit (c / 16) ∷ hex_digit (c % 16) ∷ []
    else c ∷ []

unfoldable pub write_chars : Text → Text
unfolding escaped
write_chars [] = []
write_chars (c ∷ cs) = escaped c ++ write_chars cs

unfoldable pub write_string : Text → Text
unfolding write_chars
write_string s = b'"' ∷ (write_chars s ++ b'"' ∷ [])

unfoldable pub show_bool : Bool → Text
show_bool true = codes "true"
show_bool false = codes "false"

abbrev pub comma_unless : Bool → Text
comma_unless first = if first then [] else b',' ∷ []

-- The Boolean says whether an element is the first, `position == 0`; what is written after the
-- last is the closing bracket.
module _ (F : FloatText) where
  unfoldable mutual
    pub render : Value → Text
    render null = codes "null"
    render (bool b) = show_bool b
    render (int i) = show_int i
    render (float x) = if is_finite x then F.show x else codes "null"
    render (string s) = write_string s
    render (array xs) = b'[' ∷ render_items true xs
    render (object fs) = b'{' ∷ render_fields true fs

    pub render_items : Bool → Items → Text
    render_items first no_items = b']' ∷ []
    render_items first (item v xs) = comma_unless first ++ (render v ++ render_items false xs)

    pub render_fields : Bool → Fields → Text
    render_fields first no_fields = b'}' ∷ []
    render_fields first (field k v fs) =
        comma_unless first ++ (write_string k ++ b':' ∷ (render v ++ render_fields false fs))
