-- ===== src/Prelude/Bits/Power.antt =====
-- The test `c & (c - 1) == 0` finds the powers of 2.
use Prim.Native.Nat.{ℕ, zero, suc, ◌-◌, ◌/◌, ◌%◌, ◌^◌, ◌≤◌, ◌<◌, bit_and}
use mathlib.Core.Path.{◌≡◌, refl}
use native.Mathlib.Nat.{pow-suc, pow-le-pow_right}
use native.Mathlib.Decide.{dec_lt}
use native.Mathlib.Omega.{arith}
use mmgr.Prelude.Bits.Step.{bit_and_step}

bit_and_self : (fuel a : ℕ) → a ≤ fuel → bit_and a a ≡ a
bit_and_self zero a h = let e : a ≡ 0 = omega arith in rw e refl
bit_and_self (suc fuel) a h = elim (dec_lt 0 a) [
  | yes some ↦ omega (arith, bit_and_step a a, bit_and_self fuel (a / 2) (omega arith))
  | no none ↦ let e : a ≡ 0 = omega arith in rw e refl
]

power_of : (fuel c : ℕ) → c ≤ fuel → 0 < c → bit_and c (c - 1) ≡ 0 → (k : ℕ) × (c ≡ 2 ^ k)
power_of zero c h some e = absurd (omega arith)
power_of (suc fuel) c h some e = elim (dec_lt (c % 2) 1) [
  | yes even ↦
      let half : (c - 1) / 2 ≡ c / 2 - 1 = omega arith in
      let step = rw half at (bit_and_step c (c - 1)) in
      let (k, p) = power_of fuel (c / 2) (omega arith) (omega arith) (omega arith) in
      (suc k, omega (arith, pow-suc 2 k))
  | no odd ↦
      let half : (c - 1) / 2 ≡ c / 2 = omega arith in
      let step = rw half at (bit_and_step c (c - 1)) in
      (0, omega (arith, bit_and_self (c / 2) (c / 2) (omega arith)))
]

-- A word that the test finds is a power of 2 below 2 ^ 64.
pub power_of_test :
    (c : ℕ) → 0 < c → c < 2 ^ 64 → bit_and c (c - 1) ≡ 0 → (k : ℕ) × (c ≡ 2 ^ k) × (k < 64)
power_of_test c some small e =
    let (k, p) = power_of c c (omega arith) some e in
    (
      k,
      p,
      elim (dec_lt k 64) [
        | yes l ↦ l
        | no l ↦
            absurd
              (omega (arith, pow-le-pow_right {n = 2} (omega arith) {i = 64} {j = k} (omega arith)))
      ],
    )
