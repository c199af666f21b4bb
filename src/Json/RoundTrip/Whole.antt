-- ===== src/Json/RoundTrip/Whole.antt =====
-- The round trip of crates/ls-json: `parse` of crates/ls-json/src/parser.rs reads back what
-- `Display for Value` prints.
use localsecrets.Common.{
  ℕ, zero, suc, ◌+◌, ◌*◌, ◌≤◌, ◌≡◌, ◌≢◌, refl, ◌∙◌, true, false, [], ◌∷◌, ◌++◌, append_assoc,
  append-nil, Bytes, arith, length, length-append, subst,
}
use localsecrets.Common.Results.{ok}
use localsecrets.Json.Value.{
  Value, Items, Fields, null, bool, int, float, string, array, object, no_items, item, no_fields,
  field, push_item, push_field, append_items, append_fields, no_items-append, no_fields-append,
}
use localsecrets.Json.Printer.{FloatText, render, render_items, render_fields, write_string}
use localsecrets.Json.Parser.{at, after_white, at_end}
use localsecrets.Json.Parser.Values.{value, items, fields, parse, finish}
use localsecrets.Json.RoundTrip.Numbers.{ends}
use localsecrets.Json.RoundTrip.Values.{
  Fits, FitsItems, FitsFields, value-null, white_bracket, white_brace, Opens, Opens-append,
  Opens-render, Opens-string, value-int, value-string, value-bool, ends_comma, ends_bracket,
  ends_brace, skip_whitespace_stop, skip_whitespace-at,
}
use localsecrets.Json.RoundTrip.Nested.{
  value_bracket, array_body_empty, array_body-items, value_brace, object_body_empty,
  object_body-fields, length-render_pos, items_last, items_next, fields_last, fields_next,
}

length-append_bytes : (s t : Bytes) → length (s ++ t) ≡ length s + length t
length-append_bytes = length-append

ruleset lengths = (arith, length-append_bytes)

-- A field is a name, a colon, a value, and what follows.
field_append : (k v s r : Bytes) → (k ++ b':' ∷ (v ++ s)) ++ r ≡ k ++ b':' ∷ (v ++ (s ++ r))
field_append k v s r = simp append_assoc

module _ (F : FloatText) (bytes : Bytes) where
  Opens-items : (v : Value) (d : ℕ) (s r : Bytes) → Fits d v → Opens ((render F v ++ s) ++ r)
  Opens-items v d s r fits =
      Opens-append (render F v ++ s) r (Opens-append (render F v) s (Opens-render F v d fits))

  mutual
    unfolding render Fits append_items append_fields

    value_reads :
        (v : Value) (d f : ℕ) (r : Bytes)
        → Fits d v
        → ends r ≡ true
        → 2 * length (render F v) ≤ f
        → value F f (at bytes d (render F v ++ r)) ≡ ok (v, at bytes d r)
    value_reads v d zero r fits e h = absurd (omega (arith, length-render_pos F bytes v d fits))
    value_reads v d (suc zero) r fits e h =
        absurd (omega (arith, length-render_pos F bytes v d fits))
    value_reads null d (suc (suc f)) r fits e h = value-null F bytes d (suc f) r
    value_reads (bool b) d (suc (suc f)) r fits e h = value-bool F bytes d (suc f) b r
    value_reads (int i) d (suc (suc f)) r fits e h = value-int F bytes d (suc f) i r fits e
    value_reads (float x) d (suc (suc f)) r fits e h = absurd fits
    value_reads (string s) d (suc (suc f)) r fits e h = value-string F bytes d (suc f) s r fits
    value_reads (array no_items) d (suc (suc f)) r fits e h =
        value_bracket F bytes d (suc f) (b']' ∷ r) fits.0
          (skip_whitespace-at bytes (d + 1) b']' r white_bracket)
        ∙ array_body_empty F bytes d f r
    value_reads (array (item v xs)) d (suc (suc f)) r fits e h =
        let inner = render F v ++ render_items F false xs in
        let opens = Opens-items v (d + 1) (render_items F false xs) r fits.1.0 in
        value_bracket F bytes d (suc f) (inner ++ r) fits.0
          (skip_whitespace_stop bytes (d + 1) (inner ++ r) opens)
        ∙ array_body-items F bytes d f (item v xs) (inner ++ r) r opens (
            items_reads (item v xs) (d + 1) f no_items r (λ q. cc) fits.1 (omega arith)
            ∙ rw (no_items-append (item v xs)))
    value_reads (object no_fields) d (suc (suc f)) r fits e h =
        value_brace F bytes d (suc f) (b'}' ∷ r) fits.0
          (skip_whitespace-at bytes (d + 1) b'}' r white_brace)
        ∙ object_body_empty F bytes d f r
    value_reads (object (field k v fs)) d (suc (suc f)) r fits e h =
        let inner = write_string k ++ b':' ∷ (render F v ++ render_fields F false fs) in
        let opens = Opens-append inner r (Opens-append (write_string k) _ (Opens-string k)) in
        value_brace F bytes d (suc f) (inner ++ r) fits.0
          (skip_whitespace_stop bytes (d + 1) (inner ++ r) opens)
        ∙ object_body-fields F bytes d f (field k v fs) (inner ++ r) r opens (
            fields_reads (field k v fs) (d + 1) f no_fields r (λ q. cc) fits.1 (omega arith)
            ∙ rw (no_fields-append (field k v fs)))

    items_reads :
        (xs : Items) (d f : ℕ) (acc : Items) (r : Bytes)
        → xs ≢ no_items
        → FitsItems d xs
        → 2 * length (render_items F true xs) ≤ f
        → items F f acc (at bytes d (render_items F true xs ++ r))
          ≡ ok (append_items acc xs, at bytes d r)
    items_reads no_items d f acc r ne fits h = absurd (ne refl)
    items_reads (item v xs) d zero acc r ne fits h =
        let bound : 2 * length (render F v ++ render_items F false xs) ≤ 0 = h in
        absurd (omega (lengths, length-render_pos F bytes v d fits.0))
    items_reads (item v no_items) d (suc f) acc r ne fits h =
        let bound : 2 * length (render F v ++ b']' ∷ []) ≤ suc f = h in
        rw (append_assoc (render F v) (b']' ∷ []) r) (
          items_last F bytes d f acc v r fits.0
            (value_reads v d f (b']' ∷ r) fits.0 (ends_bracket r) (omega lengths)))
    items_reads (item v (item w xs)) d (suc f) acc r ne fits h =
        let bound : 2 * length (render F v ++ b',' ∷ render_items F true (item w xs)) ≤ suc f = h in
        rw (append_assoc (render F v) (b',' ∷ render_items F true (item w xs)) r) (
          items_next F bytes d f acc v (render_items F true (item w xs) ++ r) fits.0 (
            value_reads v d f (b',' ∷ (render_items F true (item w xs) ++ r)) fits.0 (ends_comma _)
              (omega lengths))
          ∙ items_reads (item w xs) d f (push_item acc v) r (λ q. cc) fits.1 (omega lengths))

    fields_reads :
        (fs : Fields) (d f : ℕ) (acc : Fields) (r : Bytes)
        → fs ≢ no_fields
        → FitsFields d acc fs
        → 2 * length (render_fields F true fs) ≤ f
        → fields F f acc (at bytes d (render_fields F true fs ++ r))
          ≡ ok (append_fields acc fs, at bytes d r)
    fields_reads no_fields d f acc r ne fits h = absurd (ne refl)
    fields_reads (field k v fs) d zero acc r ne fits h =
        let bound : 2 * length (write_string k ++ b':' ∷ (render F v ++ render_fields F false fs))
            ≤ 0 =
          h in
        absurd (omega (lengths, length-render_pos F bytes v d fits.2))
    fields_reads (field k v no_fields) d (suc f) acc r ne fits h =
        let bound : 2 * length (write_string k ++ b':' ∷ (render F v ++ b'}' ∷ [])) ≤ suc f = h in
        rw (field_append (write_string k) (render F v) (b'}' ∷ []) r) (
          fields_last F bytes d f acc k v r fits.2 fits.0 fits.1
            (value_reads v d f (b'}' ∷ r) fits.2 (ends_brace r) (omega lengths)))
    fields_reads (field k v (field j w fs)) d (suc f) acc r ne fits h =
        let bound : 2
              * length (
                  write_string k
                  ++ b':' ∷ (render F v ++ b',' ∷ render_fields F true (field j w fs)))
            ≤ suc f =
          h in
        rw
          (field_append (write_string k) (render F v) (b',' ∷ render_fields F true (field j w fs))
            r)
          (fields_next F bytes d f acc k v (render_fields F true (field j w fs) ++ r) fits.2 fits.0
              fits.1
              (value_reads v d f (b',' ∷ (render_fields F true (field j w fs) ++ r)) fits.2
                (ends_comma _) (omega lengths))
            ∙ fields_reads (field j w fs) d f (push_field acc k v) r (λ q. cc) fits.3
                (omega lengths))

after_white-Opens : (s : Bytes) → Opens s → (after_white s ≡ s) × (at_end s ≡ false)
unfolding after_white at_end
after_white-Opens [] h = absurd h
after_white-Opens (c ∷ cs) h = ground arith

module _ (F : FloatText) where
  value_whole :
      (v : Value) (f : ℕ)
      → Fits 0 v
      → 2 * length (render F v) ≤ f
      → value F f (at (render F v) 0 (render F v)) ≡ ok (v, at (render F v) 0 [])
  value_whole v f fits h =
      subst (λ s. value F f (at (render F v) 0 s) ≡ ok (v, at (render F v) 0 []))
        (append-nil (render F v)) (value_reads F (render F v) v 0 f [] fits (unfold ends in refl) h)

  -- What is printed for a value that JSON can carry parses, and to that value.
  pub parse-render : (v : Value) → Fits 0 v → parse F (render F v) ≡ ok v
  unfolding parse
  parse-render v fits =
      let opens = Opens-render F v 0 fits in
      rw
        (
          (after_white-Opens (render F v) opens).0,
          (after_white-Opens (render F v) opens).1,
          value_whole v (3 * length (render F v) + 3) fits (omega arith),
        )
        (unfold finish after_white at_end in refl)
