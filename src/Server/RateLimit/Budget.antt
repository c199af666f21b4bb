-- ===== src/Server/RateLimit/Budget.antt =====
-- How often crates/ls-server/src/rate_limit.rs lets an attempt through, and how much it remembers.
use localsecrets.Common.{
  ℕ, ◌+◌, ◌^◌, ◌≤◌, ◌<◌, ◌≡◌, refl, ap, ap₂, ◌∙◌, inl, inr, Bool, true, some, List, [], ◌∷◌, Text,
  length, length-append, leb, find, keep, update_first, find-update_self, arith, Option-cases,
}
use localsecrets.Core.Time.{Timestamp}
use localsecrets.Server.RateLimit.{
  Window, RateLimiter, max_tracked, normalise, is_current, has_key, evict, bump, count,
  contains_key, admit, allow,
}

length-keep : (p : Window → Bool) (ws : List Window) → length (keep p ws) ≤ length ws
unfolding keep
length-keep p [] = omega arith
length-keep p (w ∷ ws) = ground (arith, length-keep p ws)

length-update :
    (p : Window → Bool) (f : Window → Window) (ws : List Window)
    → length (update_first p f ws) ≡ length ws
unfolding update_first
length-update p f [] = refl
length-update p f (w ∷ ws) = ground (arith, length-update p f ws)

find-keep-some :
    (p q : Window → Bool) (ws : List Window) (a : Window)
    → find q ws ≡ some a
    → p a ≡ true
    → find q (keep p ws) ≡ some a
unfolding find keep
find-keep-some p q [] a h held = cc
find-keep-some p q (w ∷ ws) a h held = ground (arith, find-keep-some p q ws a)

length-evict : (now : Timestamp) (ws : List Window) → length (evict now ws) ≤ length ws
unfolding evict
length-evict now ws = ground (arith, length-keep (is_current now) ws)

length-admit :
    (budget : ℕ) (key : Text) (now : Timestamp) (ws : List Window)
    → length ws ≤ max_tracked
    → length (admit budget key now ws).1 ≤ max_tracked
unfolding admit count contains_key
length-admit budget key now ws small = elim (Option-cases (find (has_key key) ws)) [
  | inl new ↦
      ground (arith, length-append ws (record { key = key; started = now; attempts = 1 } ∷ []))
  | inr (w, there) ↦ ground (arith, length-update (has_key key) (bump now) ws)
]

-- However many keys are tried, no more than `max_tracked` are ever remembered.
pub length-allow :
    (key : Text) (now : Timestamp) (l : RateLimiter)
    → length l.windows ≤ max_tracked
    → length (allow key now l).1.windows ≤ max_tracked
unfolding allow
length-allow key now l small =
    length-admit l.budget (normalise key) now (evict now l.windows)
      (omega (arith, length-evict now l.windows, small))

same_key : (key : Text) (now : Timestamp) (w : Window) → has_key key (bump now w) ≡ has_key key w
unfolding bump
same_key key now w = ground arith

find-evict :
    (key : Text) (now : Timestamp) (ws : List Window) (w : Window)
    → find (has_key key) ws ≡ some w
    → is_current now w ≡ true
    → find (has_key key) (evict now ws) ≡ some w
unfolding evict
find-evict key now ws w there current =
    ground (arith, find-keep-some (is_current now) (has_key key) ws w)

bump-current :
    (now : Timestamp) (w : Window)
    → is_current now w ≡ true
    → w.attempts + 1 < 2 ^ 32
    → bump now w ≡ record w { attempts = w.attempts + 1 }
unfolding bump
bump-current now w current small = rw current (ap (λ n. record w { attempts = n }) (omega arith))

admit-there :
    (budget : ℕ) (key : Text) (now : Timestamp) (ws : List Window) (w : Window)
    → find (has_key key) ws ≡ some w
    → admit budget key now ws
      ≡ (leb (bump now w).attempts budget, update_first (has_key key) (bump now) ws)
unfolding admit contains_key count
admit-there budget key now ws w there = ground (arith, there)

-- One more attempt in the window of a key.
admit-current :
    (budget : ℕ) (key : Text) (now : Timestamp) (ws : List Window) (w : Window)
    → find (has_key key) ws ≡ some w
    → is_current now w ≡ true
    → w.attempts + 1 < 2 ^ 32
    → ((admit budget key now ws).0 ≡ leb (w.attempts + 1) budget)
      × (find (has_key key) (admit budget key now ws).1
          ≡ some (record w { attempts = w.attempts + 1 }))
admit-current budget key now ws w there current small =
    let bumped = bump-current now w current small in
    rw (admit-there budget key now ws w there) (
      ap (λ x. leb x.attempts budget) bumped,
      find-update_self (has_key key) (has_key key) (bump now) ws w (same_key key now) there there
          ∙ ap (λ x. some x) bumped,
    )

-- The answers to attempts one after another.
unfoldable pub allow_all : Text → List Timestamp → RateLimiter → List Bool
allow_all key [] l = []
allow_all key (now ∷ times) l =
    let answer = allow key now l in answer.0 ∷ allow_all key times answer.1

-- What they are to be, after so many attempts: yes as long as the budget is not spent.
unfoldable pub answers : ℕ → ℕ → List Timestamp → List Bool
answers budget n [] = []
answers budget n (now ∷ times) = leb (n + 1) budget ∷ answers budget (n + 1) times

abbrev pub AllCurrent : List Timestamp → Window → Type 0
AllCurrent [] w = Unit
AllCurrent (now ∷ times) w = (is_current now w ≡ true) × AllCurrent times w

AllCurrent-attempts :
    (times : List Timestamp) (w : Window) (n : ℕ)
    → AllCurrent times w
    → AllCurrent times (record w { attempts = n })
unfolding is_current
AllCurrent-attempts [] w n h = tt
AllCurrent-attempts (now ∷ times) w n h = (h.0, AllCurrent-attempts times w n h.1)

-- Within the window of a key, attempts in any spelling of it are let through exactly as long as the
-- budget lasts, and each of them is counted.
pub allow_all-answers :
    (key : Text) (times : List Timestamp) (l : RateLimiter) (w : Window)
    → find (has_key (normalise key)) l.windows ≡ some w
    → AllCurrent times w
    → w.attempts + length times < 2 ^ 32
    → allow_all key times l ≡ answers l.budget w.attempts times
unfolding allow_all answers
allow_all-answers key [] l w there current small = refl
allow_all-answers key (now ∷ times) l w there current small =
    let kept = find-evict (normalise key) now l.windows w there current.0 in
    let (answer, next) =
      admit-current l.budget (normalise key) now (evict now l.windows) w kept current.0
        (omega arith) in
    ap₂ (λ x xs. x ∷ xs) (unfold allow in answer)
      (allow_all-answers key times (allow key now l).1 (record w { attempts = w.attempts + 1 })
          (unfold allow in next) (AllCurrent-attempts times w (w.attempts + 1) current.1)
          (omega arith)
        ∙ unfold allow in refl)
