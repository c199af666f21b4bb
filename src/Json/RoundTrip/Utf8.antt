-- ===== src/Json/RoundTrip/Utf8.antt =====
-- What crates/ls-json/src/value.rs prints of valid texts is valid UTF-8.
use localsecrets.Common.{
  ℕ, zero, suc, ◌+◌, ◌≤◌, ◌<◌, ◌≡◌, refl, subst, codes, sym, ◌∙◌, inl, inr, Bool, true, false, [],
  ◌∷◌, ◌++◌, Bytes, Text, arith, decimal, AllDigits, AllDigits-decimal, ltb, ltb→lt, Bool-cases,
  Option-cases, some,
}
use localsecrets.Common.Int.{ℤ, pos, negsuc}
use localsecrets.Common.Utf8.{
  Wanted, IsWanted, next_bytes, read_byte, is_utf8_from, is_utf8, valid_next, valid_stop,
  first_byte-ascii, first_byte-IsWanted,
}
use localsecrets.Common.Utf8.Joined.{Ascii, Ascii-is_utf8, is_utf8-append, nothing_wanted}
use localsecrets.Json.Value.{
  Value, Items, Fields, null, bool, int, float, string, array, object, no_items, item, no_fields,
  field, push_field,
}
use localsecrets.Json.Printer.{
  FloatText, escaped, write_chars, write_string, show_int, show_bool, render, render_items,
  render_fields, comma_unless,
}
use localsecrets.Json.RoundTrip.Strings.{escaped_wide, write_chars_cons}
use localsecrets.Json.RoundTrip.Values.{Fits, FitsItems, FitsFields}

pub AllDigits-Ascii : (s : Text) → AllDigits s → Ascii s
AllDigits-Ascii [] h = tt
AllDigits-Ascii (c ∷ cs) h = (omega arith, AllDigits-Ascii cs h.2)

escaped-Ascii : (c : ℕ) → c < 0x80 → Ascii (escaped c)
unfolding escaped
escaped-Ascii c h = ground arith

read_byte-IsWanted : (n low high b : ℕ) (w : Wanted) → read_byte n low high b ≡ some w → IsWanted w
unfolding read_byte
read_byte-IsWanted zero low high b w h = first_byte-IsWanted b w h
read_byte-IsWanted (suc n) low high b w h = ground arith

ascii_read :
    (n low high b : ℕ) (w : Wanted)
    → 0x80 ≤ low
    → b < 0x80
    → read_byte n low high b ≡ some w
    → (n ≡ 0) × (w ≡ next_bytes 0)
unfolding read_byte
ascii_read zero low high b w hl hb h = (refl, cc (first_byte-ascii b hb, h))
ascii_read (suc n) low high b w hl hb h = absurd (ground arith)

is_utf8_start :
    (w : Wanted) (t : Bytes) → w ≡ next_bytes 0 → is_utf8_from w t ≡ true → is_utf8 t ≡ true
unfolding is_utf8
is_utf8_start w t e h = subst (λ (u : Wanted). is_utf8_from u t ≡ true) e h

-- Escaping leaves what was wanted as it was.
write_chars_valid :
    (w : Wanted) (s : Bytes)
    → IsWanted w
    → is_utf8_from w s ≡ true
    → is_utf8_from w (write_chars s) ≡ true
write_chars_valid w [] range h = unfold write_chars in h
write_chars_valid w (c ∷ cs) range h = elim (Option-cases (read_byte w.more w.low w.high c)) [
  | inl none_read ↦ absurd (cc (valid_stop w c cs none_read, h))
  | inr (w', read) ↦
      let behind =
        write_chars_valid w' cs (read_byte-IsWanted w.more w.low w.high c w' read)
          (sym (valid_next w w' c cs read) ∙ h) in
      rw (write_chars_cons c cs) (elim (Bool-cases (ltb c 0x80)) [
        | inl small ↦
            let ascii = ltb→lt c 0x80 small in
            let (zero_more, start) = ascii_read w.more w.low w.high c w' range.0 ascii read in
            nothing_wanted w.more w.low w.high _ (rw zero_more) (
              is_utf8-append (escaped c) (write_chars cs)
                (Ascii-is_utf8 (escaped c) (escaped-Ascii c ascii))
                (is_utf8_start w' (write_chars cs) start behind))
        | inr large ↦
            rw (escaped_wide c (ground arith)) (valid_next w w' c (write_chars cs) read ∙ behind)
      ])
]

chars_valid : (s : Text) → is_utf8 s ≡ true → is_utf8 (write_chars s) ≡ true
unfolding is_utf8
chars_valid s h = write_chars_valid (next_bytes 0) s (omega arith, omega arith) h

-- A character of ASCII in front.
in_front : (c : ℕ) (t : Bytes) → c < 0x80 → is_utf8 t ≡ true → is_utf8 (c ∷ t) ≡ true
in_front c t h ht = is_utf8-append (c ∷ []) t (Ascii-is_utf8 (c ∷ []) (h, tt)) ht

write_string_valid : (s : Text) → is_utf8 s ≡ true → is_utf8 (write_string s) ≡ true
unfolding write_string
write_string_valid s h = in_front b'"' (write_chars s ++ b'"' ∷ []) (omega arith) (
    is_utf8-append (write_chars s) (b'"' ∷ []) (chars_valid s h)
      (Ascii-is_utf8 (b'"' ∷ []) (omega arith)))

show_int_valid : (i : ℤ) → is_utf8 (show_int i) ≡ true
unfolding show_int
show_int_valid (pos n) =
    Ascii-is_utf8 (decimal n) (AllDigits-Ascii (decimal n) (AllDigits-decimal n))
show_int_valid (negsuc n) =
    Ascii-is_utf8 (b'-' ∷ decimal (n + 1))
      (omega arith, AllDigits-Ascii (decimal (n + 1)) (AllDigits-decimal (n + 1)))

show_bool_valid : (b : Bool) → is_utf8 (show_bool b) ≡ true
unfolding show_bool
show_bool_valid true = Ascii-is_utf8 (codes "true") (omega arith)
show_bool_valid false = Ascii-is_utf8 (codes "false") (omega arith)

comma_valid :
    (first : Bool) (t : Bytes) → is_utf8 t ≡ true → is_utf8 (comma_unless first ++ t) ≡ true
comma_valid true t h = h
comma_valid false t h = in_front b',' t (omega arith) h

module _ (F : FloatText) where
  mutual
    unfolding render Fits

    render_valid : (v : Value) (d : ℕ) → Fits d v → is_utf8 (render F v) ≡ true
    render_valid null d h = Ascii-is_utf8 (codes "null") (omega arith)
    render_valid (bool b) d h = show_bool_valid b
    render_valid (int i) d h = show_int_valid i
    render_valid (float x) d h = absurd h
    render_valid (string s) d h = write_string_valid s h
    render_valid (array xs) d h =
        in_front b'[' (render_items F true xs) (omega arith) (items_valid xs true (d + 1) h.1)
    render_valid (object fs) d h =
        in_front b'{' (render_fields F true fs) (omega arith)
          (fields_valid fs true (d + 1) no_fields h.1)

    items_valid :
        (xs : Items) (first : Bool) (d : ℕ)
        → FitsItems d xs
        → is_utf8 (render_items F first xs) ≡ true
    items_valid no_items first d h = Ascii-is_utf8 (b']' ∷ []) (omega arith)
    items_valid (item v xs) first d h = comma_valid first (render F v ++ render_items F false xs) (
        is_utf8-append (render F v) (render_items F false xs) (render_valid v d h.0)
          (items_valid xs false d h.1))

    fields_valid :
        (fs : Fields) (first : Bool) (d : ℕ) (before : Fields)
        → FitsFields d before fs
        → is_utf8 (render_fields F first fs) ≡ true
    fields_valid no_fields first d before h = Ascii-is_utf8 (b'}' ∷ []) (omega arith)
    fields_valid (field k v fs) first d before h =
        comma_valid first (write_string k ++ b':' ∷ (render F v ++ render_fields F false fs)) (
          is_utf8-append (write_string k) (b':' ∷ (render F v ++ render_fields F false fs))
            (write_string_valid k h.0)
            (in_front b':' (render F v ++ render_fields F false fs) (omega arith) (
              is_utf8-append (render F v) (render_fields F false fs) (render_valid v d h.2)
                (fields_valid fs false d (push_field before k v) h.3))))

  -- What is printed is a text.
  pub render-is_utf8 : (v : Value) → Fits 0 v → is_utf8 (render F v) ≡ true
  render-is_utf8 v h = render_valid v 0 h
