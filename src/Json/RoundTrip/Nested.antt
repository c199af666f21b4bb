-- ===== src/Json/RoundTrip/Nested.antt =====
-- Arrays and objects of crates/ls-json/src/value.rs and parser.rs: what is printed reads back.
use localsecrets.Common.{
  ℕ, suc, ◌+◌, ◌≤◌, ◌<◌, ◌≡◌, refl, ap, ◌∙◌, true, false, [], ◌∷◌, ◌++◌, Bytes, Text, arith, length,
}
use localsecrets.Common.Utf8.{is_utf8}
use localsecrets.Common.Results.{ok}
use localsecrets.Json.Value.{
  Value, Items, Fields, array, object, no_items, no_fields, push_item, push_field, max_depth,
}
use localsecrets.Json.Printer.{FloatText, render, write_string}
use localsecrets.Json.Parser.{
  at, pure, run, ◌>>◌, looking_at, skip_whitespace, enter, leave, expect, bump, skip_byte,
}
use localsecrets.Json.Parser.Values.{has_field, value, array_body, items, object_body, fields}
use localsecrets.Json.RoundTrip.Values.{
  Fits, Opens, Opens-append, Opens-render, items_round, fields_round, more_after_comma,
  more_after_close, white_comma, white_bracket, white_brace,
}

length-Opens : (s : Bytes) → Opens s → 1 ≤ length s
length-Opens [] h = absurd h
length-Opens (c ∷ cs) h = omega arith

module _ (F : FloatText) (bytes : Bytes) where
  enter_lem :
      (d : ℕ) (s : Bytes) → d < max_depth → enter (at bytes d s) ≡ ok (tt, at bytes (d + 1) s)
  unfolding enter
  enter_lem d s h = ground arith

  leave_lem : (d : ℕ) (s : Bytes) → leave (at bytes (d + 1) s) ≡ ok (tt, at bytes d s)
  unfolding leave
  leave_lem d s = ap (λ (k : ℕ). ok (tt, at bytes k s)) (omega arith)

  expect_first : (d c : ℕ) (s : Bytes) → expect c (at bytes d (c ∷ s)) ≡ ok (tt, at bytes d s)
  unfolding expect bump
  expect_first d c s = ground arith

  looking_at-Opens :
      (s : Bytes) → Opens s → (looking_at b']' s ≡ false) × (looking_at b'}' s ≡ false)
  unfolding looking_at
  looking_at-Opens [] h = absurd h
  looking_at-Opens (c ∷ cs) h = ground arith

  pub value_bracket :
      (d f : ℕ) (s : Bytes)
      → d < max_depth
      → skip_whitespace (at bytes (d + 1) s) ≡ ok (tt, at bytes (d + 1) s)
      → value F (suc f) (at bytes d (b'[' ∷ s)) ≡ array_body F f (at bytes (d + 1) s)
  value_bracket d f s h skip =
      entered ∙ rw (enter_lem d (b'[' ∷ s) h, expect_first (d + 1) b'[' s, skip)
    where
      entered :
          value F (suc f) (at bytes d (b'[' ∷ s))
          ≡ run
              (at bytes d (b'[' ∷ s))
              (enter >> (expect b'[' >> (skip_whitespace >> array_body F f)))
      entered = unfold value looking_at in refl

  pub array_body_empty :
      (d f : ℕ) (r : Bytes)
      → array_body F (suc f) (at bytes (d + 1) (b']' ∷ r)) ≡ ok (array no_items, at bytes d r)
  array_body_empty d f r = closed ∙ rw (leave_lem d r)
    where
      closed :
          array_body F (suc f) (at bytes (d + 1) (b']' ∷ r))
          ≡ run (at bytes (d + 1) r) (leave >> pure (array no_items))
      closed = unfold array_body looking_at skip_byte in refl

  pub array_body-items :
      (d f : ℕ) (xs : Items) (s r : Bytes)
      → Opens s
      → items F f no_items (at bytes (d + 1) s) ≡ ok (xs, at bytes (d + 1) r)
      → array_body F (suc f) (at bytes (d + 1) s) ≡ ok (array xs, at bytes d r)
  unfolding array_body
  array_body-items d f xs s r opens e = rw ((looking_at-Opens s opens).0, e, leave_lem d r)

  pub value_brace :
      (d f : ℕ) (s : Bytes)
      → d < max_depth
      → skip_whitespace (at bytes (d + 1) s) ≡ ok (tt, at bytes (d + 1) s)
      → value F (suc f) (at bytes d (b'{' ∷ s)) ≡ object_body F f (at bytes (d + 1) s)
  value_brace d f s h skip =
      entered ∙ rw (enter_lem d (b'{' ∷ s) h, expect_first (d + 1) b'{' s, skip)
    where
      entered :
          value F (suc f) (at bytes d (b'{' ∷ s))
          ≡ run
              (at bytes d (b'{' ∷ s))
              (enter >> (expect b'{' >> (skip_whitespace >> object_body F f)))
      entered = unfold value looking_at in refl

  pub object_body_empty :
      (d f : ℕ) (r : Bytes)
      → object_body F (suc f) (at bytes (d + 1) (b'}' ∷ r)) ≡ ok (object no_fields, at bytes d r)
  object_body_empty d f r = closed ∙ rw (leave_lem d r)
    where
      closed :
          object_body F (suc f) (at bytes (d + 1) (b'}' ∷ r))
          ≡ run (at bytes (d + 1) r) (leave >> pure (object no_fields))
      closed = unfold object_body looking_at skip_byte in refl

  pub object_body-fields :
      (d f : ℕ) (fs : Fields) (s r : Bytes)
      → Opens s
      → fields F f no_fields (at bytes (d + 1) s) ≡ ok (fs, at bytes (d + 1) r)
      → object_body F (suc f) (at bytes (d + 1) s) ≡ ok (object fs, at bytes d r)
  unfolding object_body
  object_body-fields d f fs s r opens e = rw ((looking_at-Opens s opens).1, e, leave_lem d r)

  pub length-render_pos : (v : Value) (d : ℕ) → Fits d v → 1 ≤ length (render F v)
  length-render_pos v d fits = length-Opens (render F v) (Opens-render F v d fits)

  -- The rounds over what is left of an array; the list is not empty.
  pub items_last :
      (d f : ℕ) (acc : Items) (v : Value) (r : Bytes)
      → Fits d v
      → value F f (at bytes d (render F v ++ b']' ∷ r)) ≡ ok (v, at bytes d (b']' ∷ r))
      → items F (suc f) acc (at bytes d (render F v ++ b']' ∷ r))
        ≡ ok (push_item acc v, at bytes d r)
  items_last d f acc v r fits e =
      items_round F bytes d f acc v (render F v ++ b']' ∷ r) b']' r
        (Opens-append (render F v) (b']' ∷ r) (Opens-render F v d fits)) white_bracket e
      ∙ rw (more_after_close F bytes d b']' r (λ h. omega arith))

  pub items_next :
      (d f : ℕ) (acc : Items) (v : Value) (r : Bytes)
      → Fits d v
      → value F f (at bytes d (render F v ++ b',' ∷ r)) ≡ ok (v, at bytes d (b',' ∷ r))
      → items F (suc f) acc (at bytes d (render F v ++ b',' ∷ r))
        ≡ items F f (push_item acc v) (at bytes d r)
  items_next d f acc v r fits e =
      items_round F bytes d f acc v (render F v ++ b',' ∷ r) b',' r
        (Opens-append (render F v) (b',' ∷ r) (Opens-render F v d fits)) white_comma e
      ∙ rw (more_after_comma F bytes d b']' r)

  pub fields_last :
      (d f : ℕ) (acc : Fields) (k : Text) (v : Value) (r : Bytes)
      → Fits d v
      → is_utf8 k ≡ true
      → has_field k acc ≡ false
      → value F f (at bytes d (render F v ++ b'}' ∷ r)) ≡ ok (v, at bytes d (b'}' ∷ r))
      → fields F (suc f) acc (at bytes d (write_string k ++ b':' ∷ (render F v ++ b'}' ∷ r)))
        ≡ ok (push_field acc k v, at bytes d r)
  fields_last d f acc k v r fits valid new e =
      fields_round F bytes d f acc k v (render F v ++ b'}' ∷ r) b'}' r
        (Opens-append (render F v) (b'}' ∷ r) (Opens-render F v d fits)) white_brace valid new e
      ∙ rw (more_after_close F bytes d b'}' r (λ h. omega arith))

  pub fields_next :
      (d f : ℕ) (acc : Fields) (k : Text) (v : Value) (r : Bytes)
      → Fits d v
      → is_utf8 k ≡ true
      → has_field k acc ≡ false
      → value F f (at bytes d (render F v ++ b',' ∷ r)) ≡ ok (v, at bytes d (b',' ∷ r))
      → fields F (suc f) acc (at bytes d (write_string k ++ b':' ∷ (render F v ++ b',' ∷ r)))
        ≡ fields F f (push_field acc k v) (at bytes d r)
  fields_next d f acc k v r fits valid new e =
      fields_round F bytes d f acc k v (render F v ++ b',' ∷ r) b',' r
        (Opens-append (render F v) (b',' ∷ r) (Opens-render F v d fits)) white_comma valid new e
      ∙ rw (more_after_comma F bytes d b'}' r)
