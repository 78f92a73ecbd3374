-- ===== src/Prelude/Below.antt =====
-- A Boolean test of all the numbers below a bound, and its use as a proof.
use Prim.Native.Nat.{ℕ, zero, suc, ◌<◌}
use mathlib.Core.Path.{◌≡◌}
use mathlib.Core.Bool.{Bool, true, ◌&&◌}
use native.Mathlib.Omega.{arith}

abbrev pub all_below : ℕ → (ℕ → Bool) → Bool
all_below zero p = true
all_below (suc n) p = p n && all_below n p

pub all_below-lt : (n : ℕ) (p : ℕ → Bool) (x : ℕ) → all_below n p ≡ true → x < n → p x ≡ true
all_below-lt zero p x h lt = absurd (omega arith)
all_below-lt (suc n) p x h lt = ground (arith, all_below-lt n p x)
