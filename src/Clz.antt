-- ===== src/Clz.antt =====
-- src/clz: the counts of leading and trailing zeros of a 64-bit value, in the arm without the
-- builtins. The counts are small numbers, and are not negative.
pub mod Laws
mod Tests
use mmgr.Prelude.{
  ℕ, ◌+◌, ◌-◌, ◌*◌, ◌/◌, ◌%◌, ◌^◌, bit_and, bit_or, Bool, true, false, if◌then◌else◌, ◌==◌,
}

-- One step of `clz_lead`: where the top half of what is left is empty, it is shifted away and its
-- width counted. `width` is 32, 16, 8, 4, 2.
pub record Search : Type 0 where
  pub remaining : ℕ
  pub zeros : ℕ

unfoldable pub halve : ℕ → Search → Search
halve width s =
    let shift = if s.remaining / 2 ^ (64 - width) == 0 then width else 0 in
    record { remaining = s.remaining * 2 ^ shift % 2 ^ 64; zeros = s.zeros + shift }

-- `clz_lead`.
unfoldable pub lead : ℕ → ℕ
unfolding halve
lead val =
    let s =
      halve 2 (halve 4 (halve 8 (halve 16 (halve 32 (record { remaining = val; zeros = 0 }))))) in
    s.zeros + (if s.remaining / 2 ^ 63 == 0 then 1 else 0)

-- `clz_trail`: the lowest bit set, by the value with its top bit set and that one's negation.
unfoldable pub lowest_bit : ℕ → ℕ
lowest_bit val =
    let with_floor = bit_or val (2 ^ 63) in bit_and with_floor ((2 ^ 64 - with_floor) % 2 ^ 64)

unfoldable pub trail : ℕ → ℕ
unfolding lead lowest_bit
trail val = 63 - lead (lowest_bit val)
