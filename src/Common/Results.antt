-- ===== src/Common/Results.antt =====
-- Errors as values: Rust's `Result`, with `?` as its bind.
use localsecrets.Common.{◌≡◌, refl, ◌⊎◌, inl, inr}

pub data Result {ℓ} (A : Type ℓ) (E : Type 0) : Type ℓ where
  ok : A → Result A E
  err : E → Result A E

infixl 5 ◌>>=◌ ◌>>◌
abbrev pub ◌>>=◌ {ℓ μ} :
    {E : Type 0} {A : Type ℓ} {B : Type μ} (r : Result A E) (next : A → Result B E) → Result B E
ok x >>= next = next x
err e >>= next = err e

abbrev pub ◌>>◌ {ℓ} :
    {E : Type 0} {B : Type ℓ} (first : Result (Unit {0}) E) (next : Result B E) → Result B E
first >> next = first >>= λ _. next

pub Result-cases {ℓ} :
    {E : Type 0} {A : Type ℓ} (r : Result A E) → ((a : A) × (r ≡ ok a)) ⊎ ((e : E) × (r ≡ err e))
Result-cases (ok a) = inl (a, refl)
Result-cases (err e) = inr (e, refl)

pub >>=-ok {ℓ} : {E : Type 0} {A : Type ℓ} (m : Result A E) → (m >>= λ a. ok a) ≡ m
>>=-ok (ok a) = refl
>>=-ok (err e) = refl

pub >>=_assoc {ℓ} :
    {E : Type 0} {A B C : Type ℓ} (m : Result A E) (f : A → Result B E) (g : B → Result C E)
    → ((m >>= f) >>= g) ≡ (m >>= λ a. f a >>= g)
>>=_assoc (ok a) f g = refl
>>=_assoc (err e) f g = refl

-- Inversion of a successful step, handing the value on as a variable.
pub ok_elim {ℓ μ ν} :
    {E : Type 0} {A : Type ℓ} {B : Type μ} {P : Type ν} (m : Result A E) (f : A → Result B E)
    {b : B}
    → (m >>= f) ≡ ok b
    → ((a : A) → m ≡ ok a → f a ≡ ok b → P)
    → P
ok_elim (ok a) f h k = k a refl h
ok_elim (err e) f h k = cc
