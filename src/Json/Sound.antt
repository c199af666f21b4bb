-- ===== src/Json/Sound.antt =====
-- What the parser of crates/ls-json/src/parser.rs promises on every input: postconditions of its
-- small steps. The children Strings and Numbers have these, Values the nested values.
pub mod Strings
pub mod Numbers
pub mod Values
use localsecrets.Common.{
  ℕ, suc, ◌+◌, ◌-◌, ◌≤◌, ◌<◌, ◌≡◌, ◌≢◌, refl, ◌∙◌, Bool, true, false, Option, none, some, [], ◌∷◌,
  Bytes, Text, arith, length, length-drop, drop, ltb, has_prefix, if◌then◌else◌, ◌==◌,
}
use localsecrets.Common.Results.{Result, ok, err}
use localsecrets.Json.Value.{Value, JsonError, out_of_fuel, max_depth, unexpected, unexpected_end}
use localsecrets.Json.Parser.{
  pure, ok_or, at, Parser, Reader, and_then, bump, expect, after_white, is_white, skip_whitespace,
  enter, leave, skip_byte, literal,
}

-- The run did not give up, and `P` holds of its value and of the parser that it leaves.
pub data Ensures {ℓ κ} {A : Type ℓ} (P : A → Parser → Type κ)
    : Result (A × Parser) JsonError → Type (ℓ ⊔ κ) where
  holds : {a : A} {p : Parser} → P a p → Ensures P (ok (a, p))
  refused : {e : JsonError} → e ≢ out_of_fuel → Ensures P (err e)

module _ {ℓ κ} {A : Type ℓ} {P : A → Parser → Type κ} where
  pub Ensures-then {ℓ' κ'} :
      {B : Type ℓ'} {Q : B → Parser → Type κ'} {r : Result (A × Parser) JsonError}
      {f : A → Reader B}
      → Ensures P r
      → ((a : A) (p : Parser) → P a p → Ensures Q (f a p))
      → Ensures Q (and_then r f)
  Ensures-then (holds {a} {p} h) k = k a p h
  Ensures-then (refused h) k = refused h

  pub Ensures-if :
      (b : Bool) {x y : Result (A × Parser) JsonError}
      → (b ≡ true → Ensures P x)
      → (b ≡ false → Ensures P y)
      → Ensures P (if b then x else y)
  Ensures-if true hx hy = hx refl
  Ensures-if false hx hy = hy refl

  -- The test chooses a reader.
  pub Ensures-choice :
      (b : Bool) (m k : Reader A) (p : Parser)
      → Ensures P (m p)
      → Ensures P (k p)
      → Ensures P ((if b then m else k) p)
  Ensures-choice true m k p hm hk = hm
  Ensures-choice false m k p hm hk = hk

  pub Ensures-test :
      (b : Bool) (m k : Reader A) (p : Parser)
      → (b ≡ true → Ensures P (m p))
      → (b ≡ false → Ensures P (k p))
      → Ensures P ((if b then m else k) p)
  Ensures-test true m k p hm hk = hm refl
  Ensures-test false m k p hm hk = hk refl

  pub Ensures-fuel : {r : Result (A × Parser) JsonError} → Ensures P r → r ≢ err out_of_fuel
  Ensures-fuel (holds h) e = cc
  Ensures-fuel (refused {e = x} h) e = h (cc)

pub Ensures-weaken {ℓ κ κ'} :
    {A : Type ℓ} {P : A → Parser → Type κ} {Q : A → Parser → Type κ'}
    {r : Result (A × Parser) JsonError}
    → Ensures P r
    → ((a : A) (p : Parser) → P a p → Q a p)
    → Ensures Q r
Ensures-weaken (holds {a} {p} h) k = holds (k a p h)
Ensures-weaken (refused h) k = refused h

-- An option that is there, or a refusal.
module _ {ℓ κ} {A : Type ℓ} {P : A → Parser → Type κ} where
  pub Ensures-ok_or :
      (e : JsonError) (o : Option A) (p : Parser)
      → e ≢ out_of_fuel
      → ((a : A) → o ≡ some a → P a p)
      → Ensures P (ok_or e o p)
  Ensures-ok_or e none p h k = refused h
  Ensures-ok_or e (some a) p h k = holds (k a refl)

-- How far a step moves: at the same depth, with less left to read, or no more than before.
abbrev pub Shorter : Parser → Parser → Type 0
Shorter p q = (q.depth ≡ p.depth) × (length q.rest < length p.rest)

abbrev pub NotLonger : Parser → Parser → Type 0
NotLonger p q = (q.depth ≡ p.depth) × (length q.rest ≤ length p.rest)

abbrev pub Keeps {ℓ} : {A : Type ℓ} → Parser → Result (A × Parser) JsonError → Type ℓ
Keeps p r = Ensures (λ _ q. NotLonger p q) r

abbrev pub Takes {ℓ} : {A : Type ℓ} → Parser → Result (A × Parser) JsonError → Type ℓ
Takes p r = Ensures (λ _ q. Shorter p q) r

module _ {ℓ} {A : Type ℓ} where
  pub Keeps-after :
      (p q : Parser) (r : Result (A × Parser) JsonError) → NotLonger p q → Keeps q r → Keeps p r
  Keeps-after p q r h (holds k) = holds (k.0 ∙ h.0, omega arith)
  Keeps-after p q r h (refused k) = refused k

  pub Takes-after :
      (p q : Parser) (r : Result (A × Parser) JsonError) → Shorter p q → Keeps q r → Takes p r
  Takes-after p q r h (holds k) = holds (k.0 ∙ h.0, omega arith)
  Takes-after p q r h (refused k) = refused k

  pub after_Takes :
      (p q : Parser) (r : Result (A × Parser) JsonError) → NotLonger p q → Takes q r → Takes p r
  after_Takes p q r h (holds k) = holds (k.0 ∙ h.0, omega arith)
  after_Takes p q r h (refused k) = refused k

  pub Takes-Keeps : (p : Parser) {r : Result (A × Parser) JsonError} → Takes p r → Keeps p r
  Takes-Keeps p (holds k) = holds (k.0, omega arith)
  Takes-Keeps p (refused k) = refused k

  pub Keeps-pure : (a : A) (p : Parser) → Keeps p (ok (a, p))
  Keeps-pure a p = holds (refl, omega arith)

  pub Keeps-ok_or :
      (e : JsonError) (o : Option A) (p : Parser) → e ≢ out_of_fuel → Keeps p (ok_or e o p)
  Keeps-ok_or e o p h = Ensures-ok_or e o p h (λ _ _. (refl, omega arith))

-- One step after another.
module _ {ℓ κ} {A : Type ℓ} {B : Type κ} (p : Parser) {r : Result (A × Parser) JsonError}
    {f : A → Reader B} where
  pub Keeps-then : Keeps p r → ((a : A) (q : Parser) → Keeps q (f a q)) → Keeps p (and_then r f)
  Keeps-then h k = Ensures-then h λ a q step. Keeps-after p q (f a q) step (k a q)

  pub Takes-then : Takes p r → ((a : A) (q : Parser) → Keeps q (f a q)) → Takes p (and_then r f)
  Takes-then h k = Ensures-then h λ a q step. Takes-after p q (f a q) step (k a q)

  pub then_Takes : Keeps p r → ((a : A) (q : Parser) → Takes q (f a q)) → Takes p (and_then r f)
  then_Takes h k = Ensures-then h λ a q step. after_Takes p q (f a q) step (k a q)

bump-at :
    (bytes : Bytes) (d : ℕ) (s : Bytes)
    → Ensures (λ b q. Shorter (at bytes d s) q) (bump (at bytes d s))
unfolding bump
bump-at bytes d [] = refused (λ h. cc)
bump-at bytes d (c ∷ cs) = holds (refl, omega arith)

pub bump-Ensures : (p : Parser) → Ensures (λ b q. Shorter p q) (bump p)
bump-Ensures p = bump-at p.bytes p.depth p.rest

expect-at :
    (c : ℕ) (bytes : Bytes) (d : ℕ) (s : Bytes)
    → Ensures (λ _ q. Shorter (at bytes d s) q) (expect c (at bytes d s))
unfolding expect bump
expect-at c bytes d [] = refused (λ h. cc)
expect-at c bytes d (b ∷ bs) =
    Ensures-if (b == c) (λ _. holds (refl, omega arith)) (λ _. refused (λ h. cc))

pub expect-Ensures : (c : ℕ) (p : Parser) → Ensures (λ _ q. Shorter p q) (expect c p)
expect-Ensures c p = expect-at c p.bytes p.depth p.rest

pub length-after_white : (s : Bytes) → length (after_white s) ≤ length s
unfolding after_white
length-after_white [] = omega arith
length-after_white (c ∷ cs) = ground (arith, length-after_white cs)

pub skip_whitespace-Ensures : (p : Parser) → Ensures (λ _ q. NotLonger p q) (skip_whitespace p)
unfolding skip_whitespace
skip_whitespace-Ensures p = holds (refl, length-after_white p.rest)

pub skip_byte-Ensures : (p : Parser) → Ensures (λ _ q. NotLonger p q) (skip_byte p)
unfolding skip_byte
skip_byte-Ensures p = holds (refl, omega (arith, length-drop 1 p.rest))

pub enter-Ensures :
    (p : Parser)
    → Ensures
        (λ _ q. (q.depth ≡ p.depth + 1) × (p.depth < max_depth) × (length q.rest ≤ length p.rest))
        (enter p)
unfolding enter
enter-Ensures p =
    Ensures-if (ltb max_depth (p.depth + 1)) (λ _. refused (λ h. cc))
      (λ h. holds (refl, ground arith, omega arith))

pub leave-Ensures :
    (p : Parser)
    → Ensures (λ _ q. (q.depth ≡ p.depth - 1) × (length q.rest ≤ length p.rest)) (leave p)
unfolding leave
leave-Ensures p = holds (refl, omega arith)

-- A word with a first letter, where there is a byte to read.
pub literal-Ensures {κ} :
    {P : Value → Type κ} (c : ℕ) (word : Text) (v : Value) (bytes : Bytes) (d b : ℕ) (s : Bytes)
    → P v
    → Ensures
        (λ w q. P w × Shorter (at bytes d (b ∷ s)) q)
        (literal (c ∷ word) v (at bytes d (b ∷ s)))
unfolding literal
literal-Ensures c word v bytes d b s h =
    Ensures-if (has_prefix (c ∷ word) (b ∷ s))
      (λ _. holds (h, (refl, omega (arith, length-drop (length word) s)))) (λ _. refused (λ h. cc))
