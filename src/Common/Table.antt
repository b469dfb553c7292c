-- ===== src/Common/Table.antt =====
-- Checks over every value of a small range, by evaluation.
use Prim.Native.Nat.{ℕ, zero, suc, ◌<◌}
use mathlib.Core.Path.{◌≡◌}
use mathlib.Core.Bool.{Bool, true, false}
use native.Mathlib.Omega.{arith}
use esk.Common.Tests.{if◌then◌else◌}

unfoldable pub each_below : ℕ → (ℕ → Bool) → Bool
each_below zero test = true
each_below (suc bound) test = let rest = each_below bound test in if test bound then rest else false

-- A test that passes the whole table passes at any of its entries.
pub each_below_at :
    (bound : ℕ) (test : ℕ → Bool) (k : ℕ) (table : each_below bound test ≡ true) (below : k < bound)
    → test k ≡ true
unfolding each_below
each_below_at zero test k table below = absurd (omega arith)
each_below_at (suc bound) test k table below = ground (arith, each_below_at bound test k)
