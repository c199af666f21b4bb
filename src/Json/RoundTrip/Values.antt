-- ===== src/Json/RoundTrip/Values.antt =====
-- A printed value, read by `value` of crates/ls-json/src/parser.rs.
use localsecrets.Common.{
  ℕ, suc, ◌+◌, ◌<◌, ◌≡◌, ◌≢◌, refl, ◌∙◌, Bool, true, false, [], ◌∷◌, ◌++◌, Bytes, Text, arith,
  has_prefix, if◌then◌else◌,
}
use localsecrets.Common.Results.{ok}
use localsecrets.Common.Int.{ℤ}
use localsecrets.Common.Utf8.{is_utf8}
use localsecrets.Json.Value.{
  Value, Items, Fields, null, bool, int, float, string, array, object, no_items, item, no_fields,
  field, push_item, push_field, max_depth, duplicate_key,
}
use localsecrets.Json.Printer.{FloatText, render, show_int, show_bool, write_string}
use localsecrets.Json.Parser.{
  at, and_then, pure, looking_at, is_white, after_white, skip_whitespace, is_digit, literal, expect,
  bump, fail_with,
}
use localsecrets.Json.Parser.Values.{
  has_field, more_after, scalar, value, items, fields, field_name,
}
use localsecrets.Json.Parser.Scalars.{number, read_string}
use localsecrets.Json.RoundTrip.Numbers.{IsI64, ends, number-show_int, show_int_head, NumberHead}
use localsecrets.Json.RoundTrip.Strings.{read_string-write_string}

-- A value that JSON can carry below `depth` arrays and objects: no floats, texts that are UTF-8,
-- numbers that an `i64` holds, no name twice in an object, and no nesting that is too deep.
-- `FitsFields` takes the fields before those in question.
unfoldable mutual
  pub Fits : ℕ → Value → Type 0
  Fits depth null = Unit
  Fits depth (bool b) = Unit
  Fits depth (int i) = IsI64 i
  Fits depth (float x) = ⊥
  Fits depth (string s) = is_utf8 s ≡ true
  Fits depth (array xs) = (depth < max_depth) × FitsItems (depth + 1) xs
  Fits depth (object fs) = (depth < max_depth) × FitsFields (depth + 1) no_fields fs

  pub FitsItems : ℕ → Items → Type 0
  FitsItems depth no_items = Unit
  FitsItems depth (item v xs) = Fits depth v × FitsItems depth xs

  pub FitsFields : ℕ → Fields → Fields → Type 0
  FitsFields depth before no_fields = Unit
  FitsFields depth before (field k v fs) =
      (is_utf8 k ≡ true)
      × (has_field k before ≡ false)
      × Fits depth v
      × FitsFields depth (push_field before k v) fs

-- A text with a first byte, which is no white space and no closing bracket.
abbrev pub Opens : Bytes → Type 0
Opens [] = ⊥
Opens (c ∷ cs) = (is_white c ≡ false) × (c ≢ b']') × (c ≢ b'}')

pub Opens-append : (s r : Bytes) → Opens s → Opens (s ++ r)
Opens-append [] r h = absurd h
Opens-append (c ∷ cs) r h = h

Opens-number : (s : Text) → NumberHead s → Opens s
unfolding is_white
Opens-number [] h = h
Opens-number (c ∷ cs) h = ground arith

Opens-bool : (b : Bool) → Opens (show_bool b)
unfolding show_bool is_white
Opens-bool true = (refl, λ e. omega arith, λ e. omega arith)
Opens-bool false = (refl, λ e. omega arith, λ e. omega arith)

pub Opens-string : (k : Text) → Opens (write_string k)
unfolding write_string is_white
Opens-string k = (refl, λ e. omega arith, λ e. omega arith)

-- White space is skipped, and there is none in front of what a value begins with.
pub skip_whitespace_stop :
    (bytes : Bytes) (depth : ℕ) (s : Bytes)
    → Opens s
    → skip_whitespace (at bytes depth s) ≡ ok (tt, at bytes depth s)
unfolding skip_whitespace after_white
skip_whitespace_stop bytes depth [] h = absurd h
skip_whitespace_stop bytes depth (c ∷ cs) h = rw h.0

module _ (F : FloatText) (bytes : Bytes) (depth : ℕ) where
  value_number :
      (f : ℕ) (s r : Bytes)
      → NumberHead s
      → value F (suc f) (at bytes depth (s ++ r)) ≡ number F (at bytes depth (s ++ r))
  unfolding value looking_at scalar is_digit
  value_number f [] r h = absurd h
  value_number f (c ∷ cs) r h = ground arith

  pub value-int :
      (f : ℕ) (i : ℤ) (r : Bytes)
      → IsI64 i
      → ends r ≡ true
      → value F (suc f) (at bytes depth (show_int i ++ r)) ≡ ok (int i, at bytes depth r)
  value-int f i r h e =
      value_number f (show_int i) r (show_int_head i) ∙ number-show_int F bytes depth i r h e

  value_quote :
      (f : ℕ) (s r : Bytes)
      → value F (suc f) (at bytes depth (write_string s ++ r))
        ≡ and_then (read_string (at bytes depth (write_string s ++ r))) (λ t. pure (string t))
  unfolding value looking_at scalar is_digit write_string
  value_quote f s r = refl

  pub value-string :
      (f : ℕ) (s r : Bytes)
      → is_utf8 s ≡ true
      → value F (suc f) (at bytes depth (write_string s ++ r)) ≡ ok (string s, at bytes depth r)
  value-string f s r h = value_quote f s r ∙ rw (read_string-write_string bytes depth s r h)

  pub value-null :
      (f : ℕ) (r : Bytes)
      → value F (suc f) (at bytes depth (render F null ++ r)) ≡ ok (null, at bytes depth r)
  unfolding value looking_at scalar literal has_prefix render
  value-null f r = refl

  pub value-bool :
      (f : ℕ) (b : Bool) (r : Bytes)
      → value F (suc f) (at bytes depth (show_bool b ++ r)) ≡ ok (bool b, at bytes depth r)
  unfolding value looking_at scalar literal has_prefix show_bool
  value-bool f true r = refl
  value-bool f false r = refl

module _ (F : FloatText) where
  pub Opens-render : (v : Value) (depth : ℕ) → Fits depth v → Opens (render F v)
  unfolding render Fits is_white
  Opens-render null depth h = (refl, λ e. omega arith, λ e. omega arith)
  Opens-render (bool b) depth h = Opens-bool b
  Opens-render (int i) depth h = Opens-number (show_int i) (show_int_head i)
  Opens-render (float x) depth h = absurd h
  Opens-render (string s) depth h = Opens-string s
  Opens-render (array xs) depth h = (refl, λ e. omega arith, λ e. omega arith)
  Opens-render (object fs) depth h = (refl, λ e. omega arith, λ e. omega arith)

-- What follows an element: a comma or the closing bracket, neither of them white space.
pub skip_whitespace-at :
    (bytes : Bytes) (depth c : ℕ) (s : Bytes)
    → is_white c ≡ false
    → skip_whitespace (at bytes depth (c ∷ s)) ≡ ok (tt, at bytes depth (c ∷ s))
unfolding skip_whitespace after_white
skip_whitespace-at bytes depth c s h = rw h

-- One round over the elements of an array, and over the fields of an object.
module _ (F : FloatText) (bytes : Bytes) (depth : ℕ) where
  pub items_round :
      (f : ℕ) (xs : Items) (v : Value) (s : Bytes) (c : ℕ) (t : Bytes)
      → Opens s
      → is_white c ≡ false
      → value F f (at bytes depth s) ≡ ok (v, at bytes depth (c ∷ t))
      → items F (suc f) xs (at bytes depth s)
        ≡ and_then
            (more_after b']' (at bytes depth (c ∷ t)))
            (λ more. if more then items F f (push_item xs v) else pure (push_item xs v))
  unfolding items
  items_round f xs v s c t opens plain e =
      rw (skip_whitespace_stop bytes depth s opens, e, skip_whitespace-at bytes depth c t plain)

  field_name-write_string :
      (fs : Fields) (k : Text) (s : Bytes)
      → is_utf8 k ≡ true
      → has_field k fs ≡ false
      → field_name fs (at bytes depth (write_string k ++ s)) ≡ ok (k, at bytes depth s)
  field_name-write_string fs k s valid new =
      quoted ∙ rw (read_string-write_string bytes depth k s valid, new)
    where
      quoted :
          field_name fs (at bytes depth (write_string k ++ s))
          ≡ and_then
              (read_string (at bytes depth (write_string k ++ s)))
              (λ name. if has_field name fs then fail_with (duplicate_key name) else pure name)
      quoted = unfold field_name looking_at write_string in refl

  expect_colon : (s : Bytes) → expect b':' (at bytes depth (b':' ∷ s)) ≡ ok (tt, at bytes depth s)
  unfolding expect bump
  expect_colon s = refl

  pub fields_round :
      (f : ℕ) (fs : Fields) (k : Text) (v : Value) (s : Bytes) (c : ℕ) (t : Bytes)
      → Opens s
      → is_white c ≡ false
      → is_utf8 k ≡ true
      → has_field k fs ≡ false
      → value F f (at bytes depth s) ≡ ok (v, at bytes depth (c ∷ t))
      → fields F (suc f) fs (at bytes depth (write_string k ++ b':' ∷ s))
        ≡ and_then
            (more_after b'}' (at bytes depth (c ∷ t)))
            (λ more. if more then fields F f (push_field fs k v) else pure (push_field fs k v))
  unfolding fields
  fields_round f fs k v s c t opens plain valid new e = rw (
    skip_whitespace_stop bytes depth (write_string k ++ b':' ∷ s)
        (Opens-append (write_string k) (b':' ∷ s) (Opens-string k)),
    field_name-write_string fs k (b':' ∷ s) valid new,
    skip_whitespace-at bytes depth b':' s (unfold is_white in refl),
    expect_colon s,
    skip_whitespace_stop bytes depth s opens,
    e,
    skip_whitespace-at bytes depth c t plain,
  )

  pub more_after_comma :
      (close : ℕ) (s : Bytes)
      → more_after close (at bytes depth (b',' ∷ s)) ≡ ok (true, at bytes depth s)
  unfolding more_after bump
  more_after_comma close s = refl

  pub more_after_close :
      (close : ℕ) (s : Bytes)
      → close ≢ b','
      → more_after close (at bytes depth (close ∷ s)) ≡ ok (false, at bytes depth s)
  unfolding more_after bump
  more_after_close close s h = ground arith

pub ends_comma : (s : Bytes) → ends (b',' ∷ s) ≡ true
unfolding ends is_digit
ends_comma s = refl

pub ends_bracket : (s : Bytes) → ends (b']' ∷ s) ≡ true
unfolding ends is_digit
ends_bracket s = refl

pub ends_brace : (s : Bytes) → ends (b'}' ∷ s) ≡ true
unfolding ends is_digit
ends_brace s = refl

pub white_comma : is_white b',' ≡ false
unfolding is_white
white_comma = refl

pub white_bracket : is_white b']' ≡ false
unfolding is_white
white_bracket = refl

pub white_brace : is_white b'}' ≡ false
unfolding is_white
white_brace = refl
