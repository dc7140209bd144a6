-- ===== src/Prelude/Bits/Step.antt =====
-- `&` and `|` by their lowest digit. The native ones are `bitwise`, which recurses on digits with
-- the first operand as its fuel: more fuel than that operand changes nothing.
use Prim.Native.Nat.{ℕ, zero, suc, ◌+◌, ◌-◌, ◌*◌, ◌/◌, ◌%◌, ◌≤◌, min, max, digits, bitwise}
use Prim.Native.Nat.{
  bit_and, bit_or, bit_xor, bit_and-bitwise, bit_or-bitwise, bit_xor-bitwise, differ,
}
use mathlib.Core.Path.{◌≡◌, refl, ap, ◌∙◌, sym}
use native.Mathlib.Omega.{arith}

module _ (alone : ℕ → ℕ) (joined : ℕ → ℕ → ℕ) where
  -- At no digits, any fuel gives what stands alone.
  digits-zero : (fuel b : ℕ) → digits alone joined fuel 0 b ≡ alone b
  digits-zero zero b = refl
  digits-zero (suc fuel) b = refl

  digits_slack :
      (extra fuel a b : ℕ)
      → a ≤ fuel
      → digits alone joined (fuel + extra) a b ≡ digits alone joined fuel a b
  digits_slack extra fuel zero b h = digits-zero (fuel + extra) b ∙ sym (digits-zero fuel b)
  digits_slack extra zero (suc a) b h = absurd (omega arith)
  digits_slack extra (suc fuel) (suc a) b h =
      let more : suc fuel + extra ≡ suc (fuel + extra) = omega arith in
      rw more (
        ap (λ upper. upper * 2 + joined (suc a % 2) (b % 2))
          (digits_slack extra fuel (suc a / 2) (b / 2) (omega arith)))

  -- The step at an operand that is not 0.
  bitwise_lowest :
      (a b : ℕ)
      → bitwise alone joined (suc a) b
        ≡ bitwise alone joined (suc a / 2) (b / 2) * 2 + joined (suc a % 2) (b % 2)
  bitwise_lowest a b =
      let half = suc a / 2 in
      let spare : half + (a - half) ≡ a = omega arith in
      let enough : digits alone joined a half (b / 2) ≡ digits alone joined half half (b / 2) =
        ap (λ fuel. digits alone joined fuel half (b / 2)) (sym spare)
        ∙ digits_slack (a - half) half half (b / 2) (omega arith) in
      ap (λ upper. upper * 2 + joined (suc a % 2) (b % 2)) enough

pub bit_and_step : (a b : ℕ) → bit_and a b ≡ bit_and (a / 2) (b / 2) * 2 + min (a % 2) (b % 2)
bit_and_step (suc a) b = simp bit_and-bitwise (bitwise_lowest (λ rest. 0) min a b)
bit_and_step zero b =
    let none = bit_and-bitwise 0 (b / 2) in omega (arith, bit_and-bitwise 0 b, none)

pub bit_or_step : (a b : ℕ) → bit_or a b ≡ bit_or (a / 2) (b / 2) * 2 + max (a % 2) (b % 2)
bit_or_step (suc a) b = simp bit_or-bitwise (bitwise_lowest (λ rest. rest) max a b)
bit_or_step zero b = let rest = bit_or-bitwise 0 (b / 2) in omega (arith, bit_or-bitwise 0 b, rest)

pub bit_xor_step : (a b : ℕ) → bit_xor a b ≡ bit_xor (a / 2) (b / 2) * 2 + differ (a % 2) (b % 2)
bit_xor_step (suc a) b = simp bit_xor-bitwise (bitwise_lowest (λ rest. rest) differ a b)
bit_xor_step zero b =
    let rest = bit_xor-bitwise 0 (b / 2) in
    let whole = bit_xor-bitwise 0 b in omega (arith, rest, whole)
