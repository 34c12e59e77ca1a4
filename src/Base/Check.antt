-- ===== src/Base/Check.antt =====
-- Properties of all numbers below a bound, checked by evaluation.
use Prim.Native.Nat.{ℕ, zero, suc, ◌<◌}
use mathlib.Core.Path.{◌≡◌}
use mathlib.Core.Bool.{Bool, true, ◌&&◌}
use native.Mathlib.Omega.{arith}

unfoldable pub all_below : ℕ → (ℕ → Bool) → Bool
all_below zero test = true
all_below (suc last) test = test last && all_below last test

pub all_below_sound :
    (limit : ℕ) (test : ℕ → Bool) (k : ℕ) → all_below limit test ≡ true → k < limit → test k ≡ true
unfolding all_below
all_below_sound (suc last) test k passed inside = ground (arith, all_below_sound last test k)
all_below_sound zero test k passed inside = absurd (omega arith)
