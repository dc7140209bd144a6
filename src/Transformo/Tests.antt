-- ===== src/Transformo/Tests.antt =====
-- Runs of src/transformo on numbers of 128 bits.
use mmgr.Carcer.Word.{add64}
use mmgr.Prelude.{ℕ, ◌+◌, ◌-◌, ◌*◌, ◌/◌, ◌%◌, ◌^◌, ◌≤◌, ◌≡◌, refl, arith, false, not, ◌||◌, ◌==◌}
use mmgr.Prelude.Int.{ℤ, ◌-ℤ◌}
use mmgr.Transformo.{Scaled, mul_power, norm, to_u64_by}
use mmgr.Transformo.Product.{mul_power-floor}
use mmgr.Transformo.Normal.{norm-normal}

abbrev scaled : Scaled
scaled = record { hi = 0; lo = 2 ^ 63 + 12345; fe2 = ℤ.negsuc 51; rest = false }

mul_power-floor_example :
    let value = (0 * 2 ^ 64 + (2 ^ 63 + 12345)) * 10 ^ 18 in
    let r = mul_power scaled (10 ^ 18) in
    (r.hi * 2 ^ 64 + r.lo ≡ value / 2 ^ 64) × (r.rest ≡ (false || not (value % 2 ^ 64 == 0)))
mul_power-floor_example = mul_power-floor scaled (10 ^ 18) (omega arith) (omega arith) (omega arith)

norm-normal_example :
    (k : ℕ) × ((norm scaled).hi * 2 ^ 64 + (norm scaled).lo
      ≡ (0 * 2 ^ 64 + (2 ^ 63 + 12345)) * 2 ^ k)
    × (2 ^ 63 ≤ (norm scaled).hi)
    × ((norm scaled).fe2 ≡ ℤ.negsuc 51 -ℤ ℤ.pos k)
norm-normal_example = norm-normal scaled (omega arith) (omega arith) (omega arith)

-- The number that rounds to 2 ^ 64 is told as 0.
past_word : to_u64_by (2 ^ 64 - 1) (2 ^ 63) 0 ≡ 0
unfolding to_u64_by add64
past_word = refl
