-- ===== src/Prelude/Below.antt =====
-- A test of every number below a bound, by computation.
use Prim.Native.Nat.{ℕ, zero, suc, ◌<◌}
use mathlib.Core.Path.{◌≡◌}
use mathlib.Core.Bool.{Bool, true, ◌&&◌}
use native.Mathlib.Decide.{dec_lt}
use native.Mathlib.Omega.{arith}

abbrev pub all_below : ℕ → (ℕ → Bool) → Bool
all_below zero f = true
all_below (suc n) f = f n && all_below n f

pub all_below_lem : (n : ℕ) (f : ℕ → Bool) → all_below n f ≡ true → (i : ℕ) → i < n → f i ≡ true
all_below_lem zero f h i l = absurd (omega arith)
all_below_lem (suc n) f h i l = elim (dec_lt i n) [
  | yes below ↦ all_below_lem n f (ground arith) i below
  | no at ↦ let e : i ≡ n = omega arith in rw e (ground arith)
]
