-- ===== src/Json/Sound/Values.antt =====
-- Values of crates/ls-json/src/parser.rs: what `value` accepts is strict, and the fuel suffices.
use localsecrets.Common.{
  ℕ, zero, suc, ◌+◌, ◌*◌, ◌≤◌, ◌<◌, ◌≡◌, ◌≢◌, refl, ◌∙◌, Bool, true, false, ◌||◌, [], ◌∷◌, Bytes,
  Text, codes, arith, length, if◌then◌else◌, ◌==◌, subst,
}
use localsecrets.Common.Results.{Result, ok, err}
use localsecrets.Json.Value.{
  Value, Items, Fields, null, bool, int, float, string, array, object, no_items, item, no_fields,
  field, push_item, push_field, append_fields, no_fields-append, JsonError, out_of_fuel, max_depth,
  trailing_content,
}
use localsecrets.Json.Printer.{FloatText}
use localsecrets.Json.Parser.{Parser, at, looking_at, is_digit, at_end, after_white}
use localsecrets.Json.Parser.Values.{
  has_field, more_after, field_name, finish, scalar, value, array_body, items, object_body, fields,
  parse,
}
use localsecrets.Json.RoundTrip.Numbers.{IsI64}
use localsecrets.Json.Sound.{
  Ensures, holds, refused, Ensures-then, Ensures-if, Ensures-choice, Ensures-weaken, Takes,
  Takes-then, Keeps-pure, Shorter, bump-Ensures, expect-Ensures, skip_whitespace-Ensures,
  skip_byte-Ensures, enter-Ensures, leave-Ensures, literal-Ensures, Ensures-test, unexpected_end,
  length-after_white,
}
use localsecrets.Json.Sound.Numbers.{IsNumber, number-Ensures}
use localsecrets.Json.Sound.Strings.{read_string-Takes}

-- A value below `depth` arrays and objects that has no name twice in an object, no nesting that is
-- too deep, and no whole number that an `i64` cannot hold.
unfoldable mutual
  pub Strict : ℕ → Value → Type 0
  Strict depth null = Unit
  Strict depth (bool b) = Unit
  Strict depth (int i) = IsI64 i
  Strict depth (float x) = Unit
  Strict depth (string s) = Unit
  Strict depth (array xs) = (depth < max_depth) × StrictItems (depth + 1) xs
  Strict depth (object fs) = (depth < max_depth) × StrictFields (depth + 1) no_fields fs

  pub StrictItems : ℕ → Items → Type 0
  StrictItems depth no_items = Unit
  StrictItems depth (item v xs) = Strict depth v × StrictItems depth xs

  pub StrictFields : ℕ → Fields → Fields → Type 0
  StrictFields depth before no_fields = Unit
  StrictFields depth before (field k v fs) =
      (has_field k before ≡ false) × Strict depth v × StrictFields depth (push_field before k v) fs

push_item-StrictItems :
    (d : ℕ) (xs : Items) (v : Value)
    → StrictItems d xs
    → Strict d v
    → StrictItems d (push_item xs v)
unfolding push_item StrictItems
push_item-StrictItems d no_items v hs h = (h, tt)
push_item-StrictItems d (item x xs) v hs h = (hs.0, push_item-StrictItems d xs v hs.1 h)

push_field-StrictFields :
    (d : ℕ) (before fs : Fields) (k : Text) (v : Value)
    → StrictFields d before fs
    → has_field k (append_fields before fs) ≡ false
    → Strict d v
    → StrictFields d before (push_field fs k v)
unfolding push_field StrictFields append_fields
push_field-StrictFields d before no_fields k v hs new h = (new, h, tt)
push_field-StrictFields d before (field j w fs) k v hs new h =
    (hs.0, hs.1, push_field-StrictFields d (push_field before j w) fs k v hs.2 new h)

IsNumber-Strict : (d : ℕ) (v : Value) → IsNumber v → Strict d v
unfolding Strict
IsNumber-Strict d (int i) h = h
IsNumber-Strict d (float x) h = tt
IsNumber-Strict d null h = absurd h
IsNumber-Strict d (bool b) h = absurd h
IsNumber-Strict d (string s) h = absurd h
IsNumber-Strict d (array xs) h = absurd h
IsNumber-Strict d (object fs) h = absurd h

more_after-Takes : (close : ℕ) (p : Parser) → Takes p (more_after close p)
unfolding more_after
more_after-Takes close p = Takes-then p (bump-Ensures p) λ b q.
    Ensures-choice (b == b',') _ _ q (Keeps-pure true q)
      (Ensures-choice (b == close) _ _ q (Keeps-pure false q) (refused (λ e. cc)))

field_name-Ensures :
    (fs : Fields) (p : Parser)
    → Ensures (λ k q. (has_field k fs ≡ false) × Shorter p q) (field_name fs p)
unfolding field_name
field_name-Ensures fs p =
    Ensures-if (looking_at b'"' p.rest)
      (λ _. Ensures-then (read_string-Takes p) λ k q h.
        Ensures-test (has_field k fs) _ _ q (λ _. refused (λ e. cc)) (λ new. holds (new, h)))
      (λ _. refused (λ e. cc))

pushed_sound :
    (d : ℕ) (fs : Fields) (k : Text) (v : Value)
    → StrictFields d no_fields fs
    → has_field k fs ≡ false
    → Strict d v
    → StrictFields d no_fields (push_field fs k v)
pushed_sound d fs k v hs new h =
    push_field-StrictFields d no_fields fs k v hs (rw no_fields-append new) h

-- What a step leaves: the parser at depth `d`, with less than `n` bytes to read.
abbrev Below : ℕ → ℕ → Parser → Type 0
Below d n q = (q.depth ≡ d) × (length q.rest < n)

-- The outcome of `parse`: a strict value, or an error of the source's.
data Accepts : Result Value JsonError → Type 0 where
  accepted : {v : Value} → Strict 0 v → Accepts (ok v)
  rejected : {e : JsonError} → e ≢ out_of_fuel → Accepts (err e)

Accepts-fuel : {r : Result Value JsonError} → Accepts r → r ≢ err out_of_fuel
Accepts-fuel (accepted h) e = cc
Accepts-fuel (rejected {e = x} h) e = h (cc)

Accepts-ok : {r : Result Value JsonError} {v : Value} → Accepts r → r ≡ ok v → Strict 0 v
Accepts-ok (accepted h) e = subst (Strict 0) (cc) h
Accepts-ok (rejected h) e = cc

Accepts-if :
    (b : Bool) (v : Value) → Strict 0 v → Accepts (if b then ok v else err trailing_content)
Accepts-if true v h = accepted h
Accepts-if false v h = rejected (λ e. cc)

Accepts-nonempty :
    (b : Bool) (e : JsonError) {r : Result Value JsonError}
    → e ≢ out_of_fuel
    → Accepts r
    → Accepts (if b then err e else r)
Accepts-nonempty true e ne h = rejected ne
Accepts-nonempty false e ne h = h

Accepts-finish :
    (d n : ℕ) {r : Result (Value × Parser) JsonError}
    → Ensures (λ v q. Strict 0 v × Below d n q) r
    → Accepts (
        let a : Result Value JsonError = elim r [ err e ↦ err e | ok (v, q) ↦ finish v q.rest ] in
        a)
unfolding finish
Accepts-finish d n (holds {a} {p} h) = Accepts-if (at_end (after_white p.rest)) a h.0
Accepts-finish d n (refused h) = rejected h

module _ (F : FloatText) where
  scalar-at :
      (bytes : Bytes) (d : ℕ) (s : Bytes)
      → Ensures (λ v q. Strict d v × Shorter (at bytes d s) q) (scalar F (at bytes d s))
  unfolding scalar Strict
  scalar-at bytes d [] = refused (λ e. cc)
  scalar-at bytes d (b ∷ bs) =
      Ensures-if (b == b'n') (λ _. literal-Ensures b'n' (codes "ull") null bytes d b bs tt)
        λ _.
          Ensures-if (b == b't')
            (λ _. literal-Ensures b't' (codes "rue") (bool true) bytes d b bs tt)
            λ _.
              Ensures-if (b == b'f')
                (λ _. literal-Ensures b'f' (codes "alse") (bool false) bytes d b bs tt)
                λ _.
                  Ensures-if (b == b'"')
                    (λ _.
                      Ensures-then (read_string-Takes (at bytes d (b ∷ bs))) λ s q h. holds (tt, h))
                    λ _.
                      Ensures-if (b == b'-' || is_digit b)
                        (λ _.
                          Ensures-weaken (number-Ensures F (at bytes d (b ∷ bs)))
                            λ v q h. (IsNumber-Strict d v h.0, h.1))
                        λ _. refused (λ e. cc)

  scalar-Ensures : (p : Parser) → Ensures (λ v q. Strict p.depth v × Shorter p q) (scalar F p)
  scalar-Ensures p = scalar-at p.bytes p.depth p.rest

  mutual
    unfolding value array_body items object_body fields Strict

    value_sound :
        (f d : ℕ) (p : Parser)
        → p.depth ≡ d
        → 3 * length p.rest + 1 ≤ f
        → Ensures (λ v q. Strict d v × Below d (length p.rest) q) (value F f p)
    value_sound zero d p e h = absurd (omega arith)
    value_sound (suc f) d p e h =
        Ensures-if (looking_at b'[' p.rest)
          (λ _. Ensures-then (enter-Ensures p) λ _ q₁ h₁.
            Ensures-then (expect-Ensures b'[' q₁) λ _ q₂ h₂.
              Ensures-then (skip_whitespace-Ensures q₂) λ _ q₃ h₃.
                Ensures-weaken (array_body_sound f d q₃ (omega arith) (omega arith) (omega arith))
                  λ v q k. (k.0, (k.1.0, omega arith)))
          λ _.
            Ensures-if (looking_at b'{' p.rest)
              (λ _. Ensures-then (enter-Ensures p) λ _ q₁ h₁.
                Ensures-then (expect-Ensures b'{' q₁) λ _ q₂ h₂.
                  Ensures-then (skip_whitespace-Ensures q₂) λ _ q₃ h₃.
                    Ensures-weaken
                      (object_body_sound f d q₃ (omega arith) (omega arith) (omega arith))
                      λ v q k. (k.0, (k.1.0, omega arith)))
              λ _.
                Ensures-weaken (scalar-Ensures p)
                  λ v q k. (subst (λ (n : ℕ). Strict n v) e k.0, (k.1.0 ∙ e, k.1.1))

    array_body_sound :
        (f d : ℕ) (p : Parser)
        → p.depth ≡ d + 1
        → d < max_depth
        → 3 * length p.rest + 3 ≤ f
        → Ensures (λ v q. Strict d v × Below d (suc (length p.rest)) q) (array_body F f p)
    array_body_sound zero d p e deep h = absurd (omega arith)
    array_body_sound (suc f) d p e deep h =
        Ensures-if (looking_at b']' p.rest)
          (λ _. Ensures-then (skip_byte-Ensures p) λ _ q₁ h₁.
            Ensures-then (leave-Ensures q₁)
              λ _ q₂ h₂. holds ((deep, tt), (omega arith, omega arith)))
          λ _. Ensures-then (items_sound f (d + 1) no_items p e tt (omega arith)) λ xs q₁ h₁.
            Ensures-then (leave-Ensures q₁)
              λ _ q₂ h₂. holds ((deep, h₁.0), (omega arith, omega arith))

    items_sound :
        (f d : ℕ) (xs : Items) (p : Parser)
        → p.depth ≡ d
        → StrictItems d xs
        → 3 * length p.rest + 2 ≤ f
        → Ensures (λ ys q. StrictItems d ys × Below d (length p.rest) q) (items F f xs p)
    items_sound zero d xs p e hs h = absurd (omega arith)
    items_sound (suc f) d xs p e hs h = Ensures-then (skip_whitespace-Ensures p) λ _ q₁ h₁.
        Ensures-then (value_sound f d q₁ (omega arith) (omega arith)) λ v q₂ h₂.
          Ensures-then (skip_whitespace-Ensures q₂) λ _ q₃ h₃.
            Ensures-then (more_after-Takes b']' q₃) λ more q₄ h₄.
              Ensures-choice more _ _ q₄
                (Ensures-weaken
                  (items_sound f d (push_item xs v) q₄ (omega arith)
                    (push_item-StrictItems d xs v hs h₂.0) (omega arith))
                  λ ys q k. (k.0, (k.1.0, omega arith)))
                (holds (push_item-StrictItems d xs v hs h₂.0, (omega arith, omega arith)))

    object_body_sound :
        (f d : ℕ) (p : Parser)
        → p.depth ≡ d + 1
        → d < max_depth
        → 3 * length p.rest + 3 ≤ f
        → Ensures (λ v q. Strict d v × Below d (suc (length p.rest)) q) (object_body F f p)
    object_body_sound zero d p e deep h = absurd (omega arith)
    object_body_sound (suc f) d p e deep h =
        Ensures-if (looking_at b'}' p.rest)
          (λ _. Ensures-then (skip_byte-Ensures p) λ _ q₁ h₁.
            Ensures-then (leave-Ensures q₁)
              λ _ q₂ h₂. holds ((deep, tt), (omega arith, omega arith)))
          λ _. Ensures-then (fields_sound f (d + 1) no_fields p e tt (omega arith)) λ fs q₁ h₁.
            Ensures-then (leave-Ensures q₁)
              λ _ q₂ h₂. holds ((deep, h₁.0), (omega arith, omega arith))

    fields_sound :
        (f d : ℕ) (fs : Fields) (p : Parser)
        → p.depth ≡ d
        → StrictFields d no_fields fs
        → 3 * length p.rest + 2 ≤ f
        → Ensures
            (λ gs q. StrictFields d no_fields gs × Below d (length p.rest) q)
            (fields F f fs p)
    fields_sound zero d fs p e hs h = absurd (omega arith)
    fields_sound (suc f) d fs p e hs h = Ensures-then (skip_whitespace-Ensures p) λ _ q₁ h₁.
        Ensures-then (field_name-Ensures fs q₁) λ name q₂ h₂.
          Ensures-then (skip_whitespace-Ensures q₂) λ _ q₃ h₃.
            Ensures-then (expect-Ensures b':' q₃) λ _ q₄ h₄.
              Ensures-then (skip_whitespace-Ensures q₄) λ _ q₅ h₅.
                Ensures-then (value_sound f d q₅ (omega arith) (omega arith)) λ v q₆ h₆.
                  let pushed = pushed_sound d fs name v hs h₂.0 h₆.0 in
                  Ensures-then (skip_whitespace-Ensures q₆) λ _ q₇ h₇.
                    Ensures-then (more_after-Takes b'}' q₇) λ more q₈ h₈.
                      Ensures-choice more _ _ q₈
                        (Ensures-weaken
                          (fields_sound f d (push_field fs name v) q₈ (omega arith) pushed
                            (omega arith))
                          λ gs q k. (k.0, (k.1.0, omega arith)))
                        (holds (pushed, (omega arith, omega arith)))

module _ (F : FloatText) where
  parse_sound : (input : Text) → Accepts (parse F input)
  unfolding parse
  parse_sound input =
      let start : Parser = record { bytes = input; rest = after_white input; depth = 0 } in
      Accepts-nonempty (at_end start.rest) unexpected_end (λ h. cc)
        (Accepts-finish 0 (length start.rest) (
          value_sound F (3 * length input + 3) 0 start refl
            (omega (arith, length-after_white input))))

  -- The fuel that `parse` has is enough for every input.
  pub parse-ne-out_of_fuel : (input : Text) → parse F input ≢ err out_of_fuel
  parse-ne-out_of_fuel input = Accepts-fuel (parse_sound input)

  -- What is accepted repeats no name, nests no deeper than allowed, and holds no integer that an
  -- `i64` does not.
  pub parse-Strict : (input : Text) (v : Value) → parse F input ≡ ok v → Strict 0 v
  parse-Strict input v h = Accepts-ok (parse_sound input) h
