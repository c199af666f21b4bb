-- ===== src/Json/Examples.antt =====
-- Documents that the parser of crates/ls-json/src/parser.rs reads or refuses.
use localsecrets.Common.{arith, ◌≢◌, bytes_eq, decimal, ◌≡◌, refl, none, [], ◌∷◌, ◌++◌, codes}
use localsecrets.Common.Int.{negsuc}
use localsecrets.Common.Results.{ok, err}
use localsecrets.Json.Value.{
  push_item, push_field, Value, null, int, string, array, object, no_items, item, no_fields, field,
  unexpected, trailing_content, duplicate_key, out_of_fuel,
}
use localsecrets.Json.Printer.{FloatText, render, show_int, write_string, show_bool}
use localsecrets.Json.Parser.{
  at_end, after_white, enter, expect, skip_whitespace, skip_byte, leave, looking_at,
}
use localsecrets.Json.Parser.Scalars.{read_string, string_loop}
use localsecrets.Json.RoundTrip.Values.{Fits}
use localsecrets.Json.RoundTrip.Whole.{parse-render}
use localsecrets.Json.Sound.Values.{Strict, parse-ne-out_of_fuel, parse-Strict}
use localsecrets.Common.Utf8.{is_utf8}
use localsecrets.Json.Parser.Values.{
  has_field, parse, value, finish, more_after, field_name, scalar,
}

abbrev no_floats : FloatText
no_floats = record { show = λ x. []; read = λ t. none }

abbrev sample : Value
sample = object (
    field (codes "a") (array (item (int (negsuc 11)) (item null no_items))) (
      field (codes "b")
        (object (field (codes "q\"\\") (string (9 ∷ 31 ∷ 0xc3 ∷ 0xa9 ∷ [])) no_fields)) no_fields))

render-sample :
    render no_floats sample
    ≡ codes "{\"a\":[-12,null],\"b\":{\"q\\\"\\\\\":\"\\t\\u001f" ++ 0xc3 ∷ 0xa9 ∷ codes "\"}}"
unfolding render show_int write_string show_bool decimal
render-sample = refl

spaced :
    parse no_floats (codes " { \"a\" : [ -12 , null ] } ")
    ≡ ok
        (object (field (codes "a") (array (item (int (negsuc 11)) (item null no_items))) no_fields))
unfolding parse value read_string string_loop at_end after_white finish enter expect skip_whitespace
    skip_byte leave looking_at more_after field_name scalar push_item push_field
spaced = refl

surrogates :
    parse no_floats (codes "\"\\ud83d\\ude00\"") ≡ ok (string (0xf0 ∷ 0x9f ∷ 0x98 ∷ 0x80 ∷ []))
unfolding parse value read_string string_loop at_end after_white finish enter expect skip_whitespace
    skip_byte leave looking_at more_after field_name scalar push_item push_field
surrogates = refl

twice : parse no_floats (codes "{\"a\":1,\"a\":2}") ≡ err (duplicate_key (codes "a"))
unfolding parse value read_string string_loop at_end after_white finish enter expect skip_whitespace
    skip_byte leave looking_at more_after field_name scalar push_item push_field
twice = refl

leading_zero : parse no_floats (codes "[01]") ≡ err (unexpected 2)
unfolding parse value read_string string_loop at_end after_white finish enter expect skip_whitespace
    skip_byte leave looking_at more_after field_name scalar push_item push_field
leading_zero = refl

trailing : parse no_floats (codes "null,") ≡ err trailing_content
unfolding parse value read_string string_loop at_end after_white finish enter expect skip_whitespace
    skip_byte leave looking_at more_after field_name scalar push_item push_field
trailing = refl

-- The sample fits into JSON.
sample-Fits : Fits 0 sample
unfolding Fits is_utf8 push_field has_field bytes_eq
sample-Fits = (
  omega arith,
  (
    refl,
    refl,
    (omega arith, (omega arith, (tt, tt))),
    (refl, refl, (omega arith, (refl, refl, refl, tt)), tt),
  ),
)

parse-render_example : parse no_floats (render no_floats sample) ≡ ok sample
parse-render_example = parse-render no_floats sample sample-Fits

parse-ne-out_of_fuel_example : parse no_floats (codes "[[[[[{\"a\":") ≢ err out_of_fuel
parse-ne-out_of_fuel_example = parse-ne-out_of_fuel no_floats (codes "[[[[[{\"a\":")

parse-Strict_example : Strict 0 sample
parse-Strict_example = parse-Strict no_floats (render no_floats sample) sample parse-render_example
