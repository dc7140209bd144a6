-- ===== src/Verba/Decimal/Divide.antt =====
-- The divisions of src/verba_scribo by a product are divisions.
use mmgr.Prelude.{ℕ, ◌/◌, ◌^◌, ◌<◌, ◌≡◌, arith}
use mmgr.Verba.Decimal.{div100, cut8}

-- On 32 bits the product and its shift divide by a hundred.
pub div100_lem : (value : ℕ) → value < 2 ^ 32 → div100 value ≡ value / 100
unfolding div100
div100_lem value small = omega arith

-- On 64 bits the high word of the product, shifted, is the quotient by 10 ^ 8.
pub cut8_lem : (value : ℕ) → value < 2 ^ 64 → cut8 value ≡ value / 10 ^ 8
unfolding cut8
cut8_lem value small = omega arith
