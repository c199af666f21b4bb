-- ===== src/Json/Parser/Values.antt =====
-- crates/ls-json/src/parser.rs: `parse`, `value`, `array` and `object`. Each call costs a unit of
-- fuel, and so does each round of their loops; `parse` has three for each byte.
use localsecrets.Common.{
  ℕ, zero, suc, ◌+◌, ◌*◌, Bool, true, false, ◌||◌, [], ◌∷◌, Bytes, Text, codes, length, bytes_eq,
  ◌==◌, if◌then◌else◌,
}
use localsecrets.Common.Results.{Result, ok, err}
use localsecrets.Json.Value.{
  Value, Items, Fields, null, bool, string, array, object, no_items, no_fields, field, push_item,
  push_field, JsonError, unexpected_end, trailing_content, duplicate_key, out_of_fuel,
}
use localsecrets.Json.Printer.{FloatText}
use localsecrets.Json.Parser.{
  Parser, Reader, ◌>>=◌, ◌>>◌, pure, run, fail_with, unexpected_at, at_end, after_white, looking_at,
  bump, expect, skip_whitespace, literal, skip_byte, enter, leave, is_digit,
}
use localsecrets.Json.Parser.Scalars.{read_string, number}

-- `fields.iter().any(|(existing, _)| existing == &name)`.
unfoldable pub has_field : Text → Fields → Bool
unfolding bytes_eq
has_field name no_fields = false
has_field name (field k v fs) = bytes_eq k name || has_field name fs

-- The byte after an element: whether another follows, or this was the last.
unfoldable pub more_after : ℕ → Reader Bool
unfolding bump
more_after close p = run p do
  b ← bump
  if b == b',' then pure true else if b == close then pure false else fail_with (unexpected_at p)

-- The name of a field, which is not among the fields so far.
unfoldable pub field_name : Fields → Reader Text
unfolding looking_at read_string has_field
field_name fields p =
    let named = run p do
      name ← read_string
      if has_field name fields then fail_with (duplicate_key name) else pure name
    in if looking_at b'"' p.rest then named else err (unexpected_at p)

-- What follows the value: white space at most.
unfoldable pub finish : Value → Bytes → Result Value JsonError
unfolding after_white at_end
finish v rest = if at_end (after_white rest) then ok v else err trailing_content

module _ (F : FloatText) where
  unfoldable pub scalar : Reader Value
  unfolding looking_at literal read_string number is_digit
  scalar p = elim p.rest [
    | [] ↦ err unexpected_end
    | b ∷ bs ↦
        if b == b'n'
        then literal (codes "null") null p
        else if b == b't'
        then literal (codes "true") (bool true) p
        else if b == b'f'
        then literal (codes "false") (bool false) p
        else if b == b'"'
        then (run p do s ← read_string; pure (string s))
        else if b == b'-' || is_digit b
        then number F p
        else err (unexpected_at p)
  ]

  unfoldable mutual
    pub value : ℕ → Reader Value
    value zero p = err out_of_fuel
    value (suc f) p =
        let list = (run p do enter; expect b'['; skip_whitespace; array_body f) in
        let pairs = (run p do enter; expect b'{'; skip_whitespace; object_body f) in
        if looking_at b'[' p.rest then list else if looking_at b'{' p.rest then pairs else scalar p

    pub array_body : ℕ → Reader Value
    array_body zero p = err out_of_fuel
    array_body (suc f) p =
        let rounds = (run p do xs ← items f no_items; leave; pure (array xs)) in
        if looking_at b']' p.rest
        then (run p do skip_byte; leave; pure (array no_items))
        else rounds

    pub items : ℕ → Items → Reader Items
    items zero xs p = err out_of_fuel
    items (suc f) xs p = run p do
      skip_whitespace
      v ← value f
      skip_whitespace
      more ← more_after b']'
      let rest = items f (push_item xs v)
      if more then rest else pure (push_item xs v)

    pub object_body : ℕ → Reader Value
    object_body zero p = err out_of_fuel
    object_body (suc f) p =
        let rounds = (run p do fs ← fields f no_fields; leave; pure (object fs)) in
        if looking_at b'}' p.rest
        then (run p do skip_byte; leave; pure (object no_fields))
        else rounds

    pub fields : ℕ → Fields → Reader Fields
    fields zero fs p = err out_of_fuel
    fields (suc f) fs p = run p do
      skip_whitespace
      name ← field_name fs
      skip_whitespace
      expect b':'
      skip_whitespace
      v ← value f
      skip_whitespace
      more ← more_after b'}'
      let rest = fields f (push_field fs name v)
      if more then rest else pure (push_field fs name v)

  unfoldable pub parse : Text → Result Value JsonError
  parse input =
      let start : Parser = record { bytes = input; rest = after_white input; depth = 0 } in
      if at_end start.rest
      then err unexpected_end
      else elim (value (3 * length input + 3) start) [ err e ↦ err e | ok (v, p) ↦ finish v p.rest ]
