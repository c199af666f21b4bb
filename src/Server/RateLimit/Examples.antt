-- ===== src/Server/RateLimit/Examples.antt =====
-- Small runs of crates/ls-server/src/rate_limit.rs.
use localsecrets.Common.{
  ◌≤◌, ◌≡◌, refl, arith, true, [], ◌∷◌, Text, codes, length, find, bytes_eq, trim, lower,
}
use localsecrets.Common.Int.{pos, ◌-ℤ◌}
use localsecrets.Server.RateLimit.{
  RateLimiter, with_budget, max_tracked, normalise, is_current, evict, count, contains_key, admit,
  allow,
}
use localsecrets.Server.RateLimit.Budget.{length-allow, allow_all, answers, allow_all-answers}

abbrev address : Text
address = codes " A@x"

abbrev tried_once : RateLimiter
tried_once = record {
  windows = record { key = codes "a@x"; started = pos 5; attempts = 1 } ∷ [];
  budget = 2;
}

first_attempt : allow address (pos 5) (with_budget 2) ≡ (true, tried_once)
unfolding allow admit evict count contains_key normalise find trim lower
first_attempt = refl

allow_all-answers_example :
    allow_all address (pos 6 ∷ pos 64 ∷ []) tried_once ≡ answers 2 1 (pos 6 ∷ pos 64 ∷ [])
allow_all-answers_example =
    allow_all-answers address (pos 6 ∷ pos 64 ∷ []) tried_once
      (record { key = codes "a@x"; started = pos 5; attempts = 1 })
      (unfold normalise trim lower find bytes_eq in refl)
      (unfold is_current ◌-ℤ◌ in (refl, (refl, tt))) (omega arith)

length-allow_example : length (allow address (pos 5) (with_budget 2)).1.windows ≤ max_tracked
length-allow_example = length-allow address (pos 5) (with_budget 2) (omega arith)
