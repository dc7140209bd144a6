-- ===== src/Verba/Numbers/Trim.antt =====
-- The trailing zeros that src/verba_scribo drops from a number's digits, with no division.
use mmgr.Prelude.{
  ℕ, zero, suc, ◌-◌, ◌*◌, ◌/◌, ◌%◌, ◌^◌, ◌≤◌, ◌<◌, ◌≡◌, ◌≢◌, ◌⊎◌, refl, arith, ap, ◌∙◌, sym, inl,
  inr,
}
use mmgr.Prelude.{◌==◌, ltb, Bool-cases, bit_and}
use native.Mathlib.Nat.{pow-suc, mul_comm, mul_assoc}
use mmgr.Prelude.Bits.{bit_and_mask}
use mmgr.Verba.Numbers.{g_trim, inv5, fifth_max}

low_bit : (mant : ℕ) → bit_and mant 1 ≡ mant % 2
low_bit mant = bit_and_mask 1 mant

-- For an even number, the product is small just where five divides it, and is then the quotient.
fifth_of : (x : ℕ) → x < 2 ^ 63 → x * inv5 % 2 ^ 64 ≤ fifth_max → x ≡ 5 * (x * inv5 % 2 ^ 64)
fifth_of x small h = omega arith

fifth_not : (x : ℕ) → x < 2 ^ 63 → fifth_max < x * inv5 % 2 ^ 64 → x % 5 ≢ 0
fifth_not x small h = ground arith

-- What is left: the digits, how many, and that they end in no zero but where one is left.
abbrev IsTrimmed : ℕ → ℕ → ℕ × ℕ → Type 0
IsTrimmed mant digits (left, count) =
    (mant ≡ left * 10 ^ (digits - count))
    × (1 ≤ count)
    × (count ≤ digits)
    × ((count ≡ 1) ⊎ (left % 10 ≢ 0))

unchanged :
    (mant digits : ℕ)
    → 1 ≤ digits
    → (digits ≡ 1) ⊎ (mant % 10 ≢ 0)
    → IsTrimmed mant digits (mant, digits)
unchanged mant digits some_digit h =
    let z : digits - digits ≡ 0 = omega arith in
    (sym (ap (λ k. mant * 10 ^ k) z ∙ omega arith), some_digit, omega arith, h)

one_less :
    (mant digits : ℕ) (r : ℕ × ℕ)
    → mant % 2 ≡ 0
    → mant / 2 ≡ 5 * (mant / 2 * inv5 % 2 ^ 64)
    → IsTrimmed (mant / 2 * inv5 % 2 ^ 64) (suc digits) r
    → IsTrimmed mant (suc (suc digits)) r
one_less mant digits (left, count) even fifth (value, some_digit, few, last) =
    let e : suc (suc digits) - count ≡ suc (suc digits - count) = omega arith in
    let ten : mant ≡ 10 * (left * 10 ^ (suc digits - count)) = omega arith in
    let step : left * 10 ^ suc (suc digits - count) ≡ 10 * (left * 10 ^ (suc digits - count)) =
      ap (λ p. left * p) (pow-suc 10 (suc digits - count))
      ∙ sym (mul_assoc left (10 ^ (suc digits - count)) 10)
      ∙ mul_comm (left * 10 ^ (suc digits - count)) 10 in
    (ten ∙ sym (ap (λ k. left * 10 ^ k) e ∙ step), some_digit, omega arith, last)

-- The digits of a number of 64 bits, of which there is one at least, with the zeros at their end dropped:
-- the number is what is left times as many tens as were dropped, and what is left ends in no zero, or is
-- one digit.
pub g_trim-trims :
    (digits mant : ℕ)
    → mant < 2 ^ 64
    → 1 ≤ digits
    → let left = (g_trim mant digits).0 in
      let count = (g_trim mant digits).1 in
      (mant ≡ left * 10 ^ (digits - count))
      × (1 ≤ count)
      × (count ≤ digits)
      × ((count ≡ 1) ⊎ (left % 10 ≢ 0))
unfolding g_trim
g_trim-trims zero mant small h = absurd (omega arith)
g_trim-trims (suc zero) mant small h = unchanged mant 1 h (inl refl)
g_trim-trims (suc (suc digits)) mant small h =
    let fifth = mant / 2 * inv5 % 2 ^ 64 in
    let low = low_bit mant in
    elim (Bool-cases (bit_and mant 1 == 0)) [
      | inr odd ↦ rw odd (unchanged mant (suc (suc digits)) h (inr (ground arith)))
      | inl even ↦
          let e : mant % 2 ≡ 0 = ground arith in
          elim (Bool-cases (ltb fifth_max fifth)) [
            | inl over ↦
                let n = fifth_not (mant / 2) (omega arith) (ground arith) in
                rw (even, over) (unchanged mant (suc (suc digits)) h (inr (ground arith)))
            | inr under ↦
                let exact = fifth_of (mant / 2) (omega arith) (ground arith) in
                rw (even, under)
                  (one_less mant digits (g_trim fifth (suc digits)) e exact
                    (g_trim-trims (suc digits) fifth (omega arith) (omega arith)))
          ]
    ]
