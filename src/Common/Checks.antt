-- ===== src/Common/Checks.antt =====
-- Tables over a small range, checked by evaluation.
use Prim.Native.Nat.{ℕ, zero, suc, ◌<◌}
use mathlib.Core.Path.{◌≡◌}
use mathlib.Core.Bool.{Bool, true, ◌&&◌}
use native.Mathlib.Omega.{arith}

unfoldable pub holds_below : (ℕ → Bool) → ℕ → Bool
holds_below test zero = true
holds_below test (suc k) = holds_below test k && test k

pub holds_below_at : (test : ℕ → Bool) (k n : ℕ) → n < k → holds_below test k ≡ true → test n ≡ true
unfolding holds_below
holds_below_at test zero n below all = absurd (omega arith)
holds_below_at test (suc k) n below all = ground (arith, holds_below_at test k n)
