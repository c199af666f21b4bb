-- ===== src/Server/RateLimit.antt =====
-- crates/ls-server/src/rate_limit.rs. The map is a list of entries with one entry per key; the
-- clock reading is an argument; the `u32` count wraps.
pub mod Budget
mod Examples
use localsecrets.Common.{
  ℕ, zero, suc, ◌+◌, ◌*◌, ◌%◌, ◌^◌, Bool, true, false, not, ◌&&◌, Option, none, some, List, [], ◌∷◌,
  ◌++◌, Text, length, ltb, leb, bytes_eq, if◌then◌else◌, find, keep, update_first, trim,
  to_ascii_lowercase,
}
use localsecrets.Common.Int.{ℤ, pos, ltb_ℤ, ◌-ℤ◌}
use localsecrets.Core.Time.{Timestamp}

abbrev pub max_attempts : ℕ
max_attempts = 10

abbrev pub window_seconds : ℕ
window_seconds = 60

abbrev pub max_tracked : ℕ
max_tracked = 4096

-- `Window`, with the key that the map holds it under.
pub record Window : Type 0 where
  pub key : Text
  pub started : Timestamp
  pub attempts : ℕ

pub record RateLimiter : Type 0 where
  pub windows : List Window
  pub budget : ℕ

-- `with_budget`, and `Default` at `max_attempts`.
abbrev pub with_budget : ℕ → RateLimiter
with_budget budget = record { windows = []; budget = budget }

unfoldable pub normalise : Text → Text
normalise key = to_ascii_lowercase (trim key)

-- `now - window.started < WINDOW_SECONDS`
unfoldable pub is_current : Timestamp → Window → Bool
is_current now w = ltb_ℤ (now -ℤ w.started) (pos window_seconds)

abbrev pub has_key : Text → Window → Bool
has_key key w = bytes_eq w.key key

-- The windows that are kept, when there are too many.
unfoldable pub evict : Timestamp → List Window → List Window
evict now windows =
    if ltb (length windows) max_tracked then windows else keep (is_current now) windows

-- A window after one more attempt, started again if it is over.
unfoldable pub bump : Timestamp → Window → Window
bump now w =
    if is_current now w
    then record w { attempts = (w.attempts + 1) % 2 ^ 32 }
    else record w { started = now; attempts = 1 }

-- `entry(key).or_insert(..)` and the count: the answer, and the windows after it.
unfoldable pub count : ℕ → Text → Timestamp → List Window → Bool × List Window
count budget key now windows = elim (find (has_key key) windows) [
  | some w ↦ (leb (bump now w).attempts budget, update_first (has_key key) (bump now) windows)
  | none ↦ (leb 1 budget, windows ++ record { key = key; started = now; attempts = 1 } ∷ [])
]

-- `contains_key`.
unfoldable pub contains_key : Text → List Window → Bool
contains_key key windows = elim (find (has_key key) windows) [ none ↦ false | some w ↦ true ]

-- `allow`, once the key is normalised and what has expired is dropped.
unfoldable pub admit : ℕ → Text → Timestamp → List Window → Bool × List Window
admit budget key now windows =
    if not (ltb (length windows) max_tracked) && not (contains_key key windows)
    then (false, windows)
    else count budget key now windows

unfoldable pub allow : Text → Timestamp → RateLimiter → Bool × RateLimiter
allow key now limiter =
    let answer = admit limiter.budget (normalise key) now (evict now limiter.windows) in
    (answer.0, record limiter { windows = answer.1 })

unfoldable pub succeeded : Text → RateLimiter → RateLimiter
succeeded key limiter = record limiter {
  windows = keep (λ w. not (has_key (normalise key) w)) limiter.windows;
}
