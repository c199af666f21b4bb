-- ===== src/Common/Finds.antt =====
-- `iter().find`, `iter().filter` and `iter_mut().find` with an update in place.
use mathlib.Core.Path.{◌≡◌, refl}
use mathlib.Core.Logic.{◌⊎◌}
use mathlib.Core.Bool.{Bool, true}
use mathlib.Core.List.{List, [], ◌∷◌, ◌++◌}
use mathlib.Core.Option.{Option, none, some}
use native.Mathlib.Omega.{arith}
use localsecrets.Common.Tests.{if◌then◌else◌}

module _ {ℓ} {A : Type ℓ} where
  unfoldable pub find : (A → Bool) → List A → Option A
  find p [] = none
  find p (x ∷ xs) = let rest = find p xs in if p x then some x else rest

  -- `iter().filter(p).collect()`, and what `retain` keeps.
  unfoldable pub keep : (A → Bool) → List A → List A
  keep p [] = []
  keep p (x ∷ xs) = let rest = keep p xs in if p x then x ∷ rest else rest

  -- `if let Some(x) = iter_mut().find(p) { *x = f(x) }`
  unfoldable pub update_first : (A → Bool) → (A → A) → List A → List A
  update_first p f [] = []
  update_first p f (x ∷ xs) = let rest = update_first p f xs in if p x then f x ∷ xs else x ∷ rest

  pub find-append_some :
      (p : A → Bool) (xs ys : List A) {a : A} → find p xs ≡ some a → find p (xs ++ ys) ≡ some a
  unfolding find
  find-append_some p [] ys h = cc
  find-append_some p (x ∷ xs) ys {a} h = ground (arith, find-append_some p xs ys {a = a})

  pub find-append_none :
      (p : A → Bool) (xs ys : List A) → find p xs ≡ none → find p (xs ++ ys) ≡ find p ys
  unfolding find
  find-append_none p [] ys h = refl
  find-append_none p (x ∷ xs) ys h = ground (arith, find-append_none p xs ys)

  pub find-keep-none : (p q : A → Bool) (xs : List A) → find q xs ≡ none → find q (keep p xs) ≡ none
  unfolding find keep
  find-keep-none p q [] h = refl
  find-keep-none p q (x ∷ xs) h = ground (arith, find-keep-none p q xs)

  pub find-update_none :
      (p q : A → Bool) (f : A → A) (xs : List A)
      → ((x : A) → q (f x) ≡ q x)
      → find q xs ≡ none
      → find q (update_first p f xs) ≡ none
  unfolding find update_first
  find-update_none p q f [] same h = refl
  find-update_none p q f (x ∷ xs) same h = ground (arith, find-update_none p q f xs same, same x)

  -- An update in place leaves what a search finds, or updates it.
  pub find-update_some :
      (p q : A → Bool) (f : A → A) (xs : List A) (a : A)
      → ((x : A) → q (f x) ≡ q x)
      → find q xs ≡ some a
      → (find q (update_first p f xs) ≡ some a) ⊎ (find q (update_first p f xs) ≡ some (f a))
  unfolding find update_first
  find-update_some p q f [] a same h = cc
  find-update_some p q f (x ∷ xs) a same h =
      ground (arith, find-update_some p q f xs a same, same x)

  -- What a search finds passes its test.
  pub find-holds : (p : A → Bool) (xs : List A) (a : A) → find p xs ≡ some a → p a ≡ true
  unfolding find
  find-holds p [] a h = cc
  find-holds p (x ∷ xs) a h = ground (arith, find-holds p xs a)

  -- An update in place at what a search finds first.
  pub find-update_self :
      (p q : A → Bool) (f : A → A) (xs : List A) (a : A)
      → ((x : A) → q (f x) ≡ q x)
      → find p xs ≡ some a
      → find q xs ≡ some a
      → find q (update_first p f xs) ≡ some (f a)
  unfolding find update_first
  find-update_self p q f [] a same hp hq = cc
  find-update_self p q f (x ∷ xs) a same hp hq =
      ground (arith, find-update_self p q f xs a same, same x, find-holds p xs a, find-holds q xs a)
