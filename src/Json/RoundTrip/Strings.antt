-- ===== src/Json/RoundTrip/Strings.antt =====
-- A printed string, read by `string` of crates/ls-json/src/parser.rs.
use localsecrets.Common.{
  ℕ, zero, suc, ◌+◌, ◌-◌, ◌*◌, ◌/◌, ◌%◌, ◌^◌, ◌≤◌, ◌<◌, ◌≡◌, refl, ap, ◌∙◌, true, none, some, [],
  ◌∷◌, ◌++◌, append_assoc, append-nil, inl, inr, Bytes, Text, arith, length, length-append, ltb,
  Bool-cases, ltb→lt, ◌≢◌,
}
use localsecrets.Common.Results.{ok}
use localsecrets.Common.Utf8.{
  char_from, encode_char, is_continuation, Continuations, is_utf8, NoContinuation, Wanted,
  is_utf8-cons, first_byte, first_byte-is_continuation, is_utf8_ascii, continuation_bytes-append,
  Cut-first, after_continuation-append, is_utf8_first,
}
use localsecrets.Json.Printer.{hex_digit, escaped, write_chars, write_string}
use localsecrets.Json.Parser.{at, bump, expect}
use localsecrets.Json.Parser.Scalars.{
  hex_value, hex_digits, hex4, unicode_escape, escape, string_round, string_loop, read_string,
  wide_char,
}

hex_value-hex_digit : (n : ℕ) → n < 16 → hex_value (hex_digit n) ≡ some n
unfolding hex_value
hex_value-hex_digit n h = ground arith

module _ (bytes : Bytes) (depth : ℕ) where
  abbrev Reads : ℕ → Text → Type 0
  Reads c printed =
      (r : Bytes)
      → string_round (at bytes depth (printed ++ r)) ≡ ok (some (c ∷ []), at bytes depth r)

  Reads-plain : (c : ℕ) → 0x20 ≤ c → c < 0x80 → c ≢ b'"' → c ≢ b'\\' → Reads c (c ∷ [])
  unfolding string_round
  Reads-plain c low high quote slash r = ground arith

  hex_round :
      (start n v digit w b : ℕ) (r : Bytes)
      → hex_value b ≡ some digit
      → v * 2 ^ 4 + digit ≡ w
      → hex_digits start (suc n) v (at bytes depth (b ∷ r))
        ≡ hex_digits start n w (at bytes depth r)
  unfolding hex_digits bump
  hex_round start n v digit w b r e f = ground arith

  control_digits :
      (start c : ℕ) (r : Bytes)
      → c < 0x20
      → hex_digits start 4 0
          (at bytes depth (b'0' ∷ b'0' ∷ hex_digit (c / 16) ∷ hex_digit (c % 16) ∷ r))
        ≡ ok (c, at bytes depth r)
  control_digits start c r h =
      let high : ℕ = hex_digit (c / 16) in
      let low : ℕ = hex_digit (c % 16) in
      hex_round start 3 0 0 0 b'0' (b'0' ∷ high ∷ low ∷ r) (unfold hex_value in refl) refl
      ∙ hex_round start 2 0 0 0 b'0' (high ∷ low ∷ r) (unfold hex_value in refl) refl
      ∙ hex_round start 1 0 (c / 16) (c / 16) high (low ∷ r)
          (hex_value-hex_digit (c / 16) (omega arith)) (omega arith)
      ∙ hex_round start 0 (c / 16) (c % 16) c low r (hex_value-hex_digit (c % 16) (omega arith))
          (omega arith)
      ∙ unfold hex_digits in refl

  hex4_control :
      (c : ℕ) (r : Bytes)
      → c < 0x20
      → hex4 (at bytes depth (b'0' ∷ b'0' ∷ hex_digit (c / 16) ∷ hex_digit (c % 16) ∷ r))
        ≡ ok (c, at bytes depth r)
  unfolding hex4
  hex4_control c r h =
      control_digits
        (length bytes - length (b'0' ∷ b'0' ∷ hex_digit (c / 16) ∷ hex_digit (c % 16) ∷ r)) c r h

  Reads-control :
      (c : ℕ)
      → c < 0x20
      → Reads c (b'\\' ∷ b'u' ∷ b'0' ∷ b'0' ∷ hex_digit (c / 16) ∷ hex_digit (c % 16) ∷ [])
  unfolding string_round bump escape unicode_escape char_from encode_char
  Reads-control c h r = rw (hex4_control c r h) (ground arith)

  Reads-escaped : (c : ℕ) → c < 0x80 → Reads c (escaped c)
  unfolding escaped string_round
  Reads-escaped c h r = ground (arith, Reads-plain c, Reads-control c)

-- No character but a byte of seven bits is escaped.
pub escaped_wide : (c : ℕ) → 0x80 ≤ c → escaped c ≡ c ∷ []
unfolding escaped
escaped_wide c h = ground arith

write_chars_wide : (s t : Bytes) → Continuations s → write_chars (s ++ t) ≡ s ++ write_chars t
unfolding write_chars
write_chars_wide [] t h = refl
write_chars_wide (c ∷ cs) t h = rw (escaped_wide c h.0, write_chars_wide cs t h.2)

-- What is printed behind a character does not go on with it.
escaped-NoContinuation :
    (c : ℕ) (w : Wanted) (r : Bytes) → first_byte c ≡ some w → NoContinuation (escaped c ++ r)
unfolding escaped is_continuation
escaped-NoContinuation c w r e = ground (arith, first_byte-is_continuation c w e)

write_chars-NoContinuation :
    (s r : Bytes) → is_utf8 s ≡ true → NoContinuation (write_chars s ++ b'"' ∷ r)
unfolding write_chars
write_chars-NoContinuation [] r h = unfold is_continuation in refl
write_chars-NoContinuation (c ∷ cs) r h =
    let (w, e, _) = is_utf8-cons c cs h in rw append_assoc (escaped-NoContinuation c w _ e)

escaped_pos : (c : ℕ) → 0 < length (escaped c)
unfolding escaped
escaped_pos c = ground arith

pub write_chars_cons : (c : ℕ) (cs : Bytes) → write_chars (c ∷ cs) ≡ escaped c ++ write_chars cs
unfolding write_chars
write_chars_cons c cs = refl

write_chars_piece :
    (c : ℕ) (cs front back : Bytes)
    → 0x80 ≤ c
    → cs ≡ front ++ back
    → Continuations front
    → write_chars (c ∷ cs) ≡ (c ∷ front) ++ write_chars back
write_chars_piece c cs front back h e cont =
    rw (e, write_chars_cons c (front ++ back), escaped_wide c h, write_chars_wide front back cont)

length-write_chars : (s : Bytes) → length s ≤ length (write_chars s)
unfolding write_chars
length-write_chars [] = omega arith
length-write_chars (c ∷ cs) =
    omega (arith, length-write_chars cs, length-append (escaped c) (write_chars cs), escaped_pos c)

module _ (bytes : Bytes) (depth : ℕ) where
  wide_char_front :
      (start b : ℕ) (front r : Bytes)
      → Continuations front
      → NoContinuation r
      → is_utf8 (b ∷ front) ≡ true
      → wide_char start b (at bytes depth (front ++ r)) ≡ ok (b ∷ front, at bytes depth r)
  unfolding wide_char
  wide_char_front start b front r cs nr valid =
      rw (continuation_bytes-append front r cs nr, after_continuation-append front r cs nr, valid)

  string_round_wide :
      (b : ℕ) (front r : Bytes)
      → 0x80 ≤ b
      → Continuations front
      → NoContinuation r
      → is_utf8 (b ∷ front) ≡ true
      → string_round (at bytes depth (b ∷ front ++ r)) ≡ ok (some (b ∷ front), at bytes depth r)
  unfolding string_round bump
  string_round_wide b front r h cs nr valid =
      ground (arith, wide_char_front (length bytes - length (b ∷ front ++ r)) b front r cs nr valid)

  string_round_quote :
      (r : Bytes) → string_round (at bytes depth (b'"' ∷ r)) ≡ ok (none, at bytes depth r)
  unfolding string_round bump
  string_round_quote r = refl

  string_loop_more :
      (fuel : ℕ) (out text s r : Bytes)
      → string_round (at bytes depth s) ≡ ok (some text, at bytes depth r)
      → string_loop (suc fuel) out (at bytes depth s)
        ≡ string_loop fuel (out ++ text) (at bytes depth r)
  unfolding string_loop
  string_loop_more fuel out text s r e = ground arith

  string_loop_end :
      (fuel : ℕ) (out r : Bytes)
      → string_loop (suc fuel) out (at bytes depth (b'"' ∷ r)) ≡ ok (out, at bytes depth r)
  unfolding string_loop string_round bump
  string_loop_end fuel out r = refl

  -- The loop reads the characters of a valid text one by one.
  string_loop-write_chars :
      (fuel : ℕ) (out s r : Bytes)
      → length s < fuel
      → is_utf8 s ≡ true
      → string_loop fuel out (at bytes depth (write_chars s ++ b'"' ∷ r))
        ≡ ok (out ++ s, at bytes depth r)
  string_loop-write_chars zero out s r h valid = absurd (omega arith)
  string_loop-write_chars (suc fuel) out [] r h valid =
      unfold write_chars in string_loop_end fuel out r ∙ rw append-nil
  string_loop-write_chars (suc fuel) out (c ∷ cs) r h valid = elim (Bool-cases (ltb c 0x80)) [
    | inl small ↦
        let ascii = ltb→lt c 0x80 small in
        rw (ap (λ t. t ++ b'"' ∷ r) (write_chars_cons c cs) ∙ append_assoc (escaped c) _ _) (
          string_loop_more fuel out (c ∷ []) _ _ (Reads-escaped bytes depth c ascii _)
          ∙ string_loop-write_chars fuel (out ++ c ∷ []) cs r (omega arith)
              (is_utf8_ascii c cs ascii valid)
          ∙ rw append_assoc)
    | inr large ↦
        let (w, e, rest_valid) = is_utf8-cons c cs valid in
        let piece = Cut-first c cs w e rest_valid in
        let front = piece.front in
        let back = piece.back in
        let wide : 0x80 ≤ c = ground arith in
        let behind = write_chars back ++ b'"' ∷ r in
        rw
          (
            write_chars_piece c cs front back wide piece.whole piece.continuing,
            append_assoc (c ∷ front) (write_chars back) (b'"' ∷ r),
          )
          (string_loop_more fuel out (c ∷ front) _ behind (
              string_round_wide c front behind wide piece.continuing
                (write_chars-NoContinuation back r piece.back_valid)
                (is_utf8_first c front w e piece.front_valid))
            ∙ string_loop-write_chars fuel (out ++ c ∷ front) back r
                (omega (arith, ap length piece.whole, length-append front back)) piece.back_valid
            ∙ rw (append_assoc, ← piece.whole))
  ]

module _ (bytes : Bytes) (depth : ℕ) where
  -- A printed string is read back, whatever follows it.
  pub read_string-write_string :
      (s r : Bytes)
      → is_utf8 s ≡ true
      → read_string (at bytes depth (write_string s ++ r)) ≡ ok (s, at bytes depth r)
  unfolding read_string write_string expect bump
  read_string-write_string s r valid = rw (append_assoc (write_chars s) (b'"' ∷ []) r) (
      string_loop-write_chars bytes depth (suc (length (write_chars s ++ b'"' ∷ r))) [] s r
        (omega (arith, length-write_chars s, length-append (write_chars s) (b'"' ∷ r))) valid)
