-- ===== src/Json/Value.antt =====
-- crates/ls-json/src/value.rs and lib.rs: `Value`, its accessors, and `JsonError`. A `Vec` inside a
-- value is a type of its own, `Items` or `Fields`, in the order of insertion.
use localsecrets.Common.{
  ℕ, ◌-◌, ◌/◌, ◌%◌, ◌^◌, ◌≡◌, refl, ap, Bool, not, Option, none, some, Text, bytes_eq, ◌==◌,
  if◌then◌else◌,
}
use localsecrets.Common.Int.{ℤ}

-- A float is the bit pattern of its `f64`.
mutual
  pub data Value : Type 0 where
    null : Value
    bool : Bool → Value
    int : ℤ → Value
    float : ℕ → Value
    string : Text → Value
    array : Items → Value
    object : Fields → Value

  pub data Items : Type 0 where
    no_items : Items
    item : Value → Items → Items

  pub data Fields : Type 0 where
    no_fields : Fields
    field : Text → Value → Fields → Fields

-- `out_of_fuel` is the model's alone: the parser of the source does not count its steps.
pub data JsonError : Type 0 where
  unexpected_end trailing_content too_deep out_of_fuel : JsonError
  unexpected : (at : ℕ) → JsonError
  duplicate_key : Text → JsonError

abbrev pub max_depth : ℕ
max_depth = 64

-- `f64::is_finite`: the exponent is not all ones.
unfoldable pub is_finite : ℕ → Bool
is_finite bits = not (bits / 2 ^ 52 % 2 ^ 11 == 2 ^ 11 - 1)

-- `Vec::push`.
unfoldable pub push_item : Items → Value → Items
push_item no_items v = item v no_items
push_item (item x xs) v = item x (push_item xs v)

unfoldable pub push_field : Fields → Text → Value → Fields
push_field no_fields k v = field k v no_fields
push_field (field j w fs) k v = field j w (push_field fs k v)

-- `fields.iter().find(|(field, _)| field == name)`, its value.
unfoldable pub find_field : Text → Fields → Option Value
find_field name no_fields = none
find_field name (field k v fs) =
    let rest = find_field name fs in if bytes_eq k name then some v else rest

unfoldable pub get : Value → Text → Option Value
unfolding find_field
get (object fs) name = find_field name fs
get _ name = none

unfoldable pub as_str : Value → Option Text
as_str (string s) = some s
as_str _ = none

unfoldable pub as_i64 : Value → Option ℤ
as_i64 (int i) = some i
as_i64 _ = none

unfoldable pub as_bool : Value → Option Bool
as_bool (bool b) = some b
as_bool _ = none

unfoldable pub as_array : Value → Option Items
as_array (array xs) = some xs
as_array _ = none

-- What is pushed one by one behind `xs`.
unfoldable pub append_items : Items → Items → Items
append_items xs no_items = xs
append_items xs (item y ys) = append_items (push_item xs y) ys

unfoldable pub append_fields : Fields → Fields → Fields
append_fields fs no_fields = fs
append_fields fs (field k v gs) = append_fields (push_field fs k v) gs

append_items_under :
    (x : Value) (xs ys : Items) → append_items (item x xs) ys ≡ item x (append_items xs ys)
unfolding append_items push_item
append_items_under x xs no_items = refl
append_items_under x xs (item y ys) = append_items_under x (push_item xs y) ys

pub no_items-append : (ys : Items) → append_items no_items ys ≡ ys
unfolding append_items push_item
no_items-append no_items = refl
no_items-append (item y ys) = rw append_items_under (ap (item y) (no_items-append ys))

append_fields_under :
    (k : Text) (v : Value) (fs gs : Fields)
    → append_fields (field k v fs) gs ≡ field k v (append_fields fs gs)
unfolding append_fields push_field
append_fields_under k v fs no_fields = refl
append_fields_under k v fs (field j w gs) = append_fields_under k v (push_field fs j w) gs

pub no_fields-append : (gs : Fields) → append_fields no_fields gs ≡ gs
unfolding append_fields push_field
no_fields-append no_fields = refl
no_fields-append (field k v gs) = rw append_fields_under (ap (field k v) (no_fields-append gs))
