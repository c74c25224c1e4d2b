-- ===== src/Common/Bits.antt =====
-- Facts about one byte, checked at all 256 values by evaluation.
use Prim.Native.Nat.{ℕ, zero, suc, ◌<◌}
use mathlib.Core.Path.{◌≡◌}
use mathlib.Core.Bool.{Bool, true, ◌&&◌}
use native.Mathlib.Omega.{arith}

unfoldable pub holds_up_to : (ℕ → Bool) → ℕ → Bool
holds_up_to test zero = true
holds_up_to test (suc k) = holds_up_to test k && test k

pub holds_up_to_lem :
    (test : ℕ → Bool) (k b : ℕ) → b < k → holds_up_to test k ≡ true → test b ≡ true
unfolding holds_up_to
holds_up_to_lem test zero b b_lt all = absurd (omega arith)
holds_up_to_lem test (suc k) b b_lt all = ground (arith, holds_up_to_lem test k b)
