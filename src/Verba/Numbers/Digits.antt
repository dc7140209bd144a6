-- ===== src/Verba/Numbers/Digits.antt =====
-- The digits that src/verba_scribo takes from a value by shifts are those of the base, and their count
-- the least that holds the value.
use mmgr.Prelude.{
  ℕ, zero, suc, ◌+◌, ◌-◌, ◌*◌, ◌/◌, ◌%◌, ◌^◌, ◌≤◌, ◌<◌, ◌≡◌, ◌⊎◌, refl, arith, ap, ◌∙◌, sym, inl,
  inr,
}
use mmgr.Prelude.{false, ◌==◌, Bool-cases, bit_and}
use native.Mathlib.Nat.{pow-suc, div-lt_iff_lt-mul, le-div_iff_mul-le, one-le-pow, pow-zero}
use native.Mathlib.Decide.{dec_lt}
use mmgr.Prelude.Bits.{bit_and_mask}
use mmgr.Prelude.Store.{update}
use mmgr.Verba.Text.{placed, digit, hex_char}
use mmgr.Verba.Numbers.{shift_digits, shift_count}

last_at :
    (m : ℕ → ℕ) (to n c j : ℕ) (f g : ℕ → ℕ)
    → ((i : ℕ) → i < n → f i ≡ g i)
    → c ≡ g n
    → placed (update m (to + n) c) to n f j ≡ placed m to (suc n) g j
unfolding placed
last_at m to n c j f g upper last = elim (dec_lt (j - to) n) [
  | yes before ↦ let here = upper (j - to) before in ground arith
  | no past ↦ elim (Bool-cases (j == to + n)) [
    | inl t ↦ let at : j - to ≡ n = ground arith in rw at (ground arith)
    | inr t ↦ ground arith
  ]
]

nothing : (m : ℕ → ℕ) (to : ℕ) (f : ℕ → ℕ) (j : ℕ) → m j ≡ placed m to 0 f j
unfolding placed
nothing m to f j = ground arith

digit_char :
    (b n value i : ℕ)
    → i < n
    → hex_char (digit b n (value / b) i) ≡ hex_char (digit b (suc n) value i)
unfolding digit
digit_char b n value i h = let t : (i == n) ≡ false = ground arith in rw t refl

digit_end : (b n value : ℕ) → digit b (suc n) value n ≡ value % b
unfolding digit
digit_end b n value = ground arith

pub shift_digits-digit :
    (n bits : ℕ) (m : ℕ → ℕ) (to value : ℕ)
    → shift_digits n bits m to value ≡ placed m to n (λ i. hex_char (digit (2 ^ bits) n value i))
unfolding shift_digits
shift_digits-digit zero bits m to value =
    λ i j. nothing m to (λ i. hex_char (digit (2 ^ bits) 0 value i)) j i
shift_digits-digit (suc n) bits m to value =
    let c = hex_char (bit_and value (2 ^ bits - 1)) in
    let same : c ≡ hex_char (digit (2 ^ bits) (suc n) value n) =
      ap hex_char (bit_and_mask bits value ∙ sym (digit_end (2 ^ bits) n value)) in
    shift_digits-digit n bits (update m (to + n) c) to (value / 2 ^ bits) ∙ λ i j.
    last_at m to n c j (λ i. hex_char (digit (2 ^ bits) n (value / 2 ^ bits) i))
      (λ i. hex_char (digit (2 ^ bits) (suc n) value i)) (digit_char (2 ^ bits) n value) same i

-- The least count of digits of a base that holds a value, 1 for a value of 0.
abbrev pub IsLeast : ℕ → ℕ → ℕ → Type 0
IsLeast b value k = (value < b ^ k) × ((k ≡ 1) ⊎ (b ^ (k - 1) ≤ value)) × (1 ≤ k)

more_digits :
    (b value k : ℕ) → 0 < b → 0 < value / b → IsLeast b (value / b) k → IsLeast b value (1 + k)
more_digits b value k pos more (fits, least, some_digit) =
    let e : 1 + k ≡ suc k = omega arith in
    let upper : value < b ^ suc k =
      rw (pow-suc b k) ((div-lt_iff_lt-mul {k = b} {x = value} {y = b ^ k} pos).0 fits) in
    let lower : b ^ (k - 1) ≤ value / b = elim least [
      | inl one ↦ rw (one, pow-zero b) more
      | inr low ↦ low
    ] in
    let step : b ^ (k - 1) * b ≤ value =
      (le-div_iff_mul-le {k = b} {x = b ^ (k - 1)} {y = value} pos).0 lower in
    let f : suc k - 1 ≡ suc (k - 1) = omega arith in
    rw (e, f) (upper, inr (rw (pow-suc b (k - 1)) step), omega arith)

pub shift_count-IsLeast :
    (fuel bits value : ℕ)
    → value < (2 ^ bits) ^ suc fuel
    → IsLeast (2 ^ bits) value (shift_count fuel bits value)
unfolding shift_count
shift_count-IsLeast zero bits value h = (h, inl refl, omega arith)
shift_count-IsLeast (suc fuel) bits value h =
    let b = 2 ^ bits in
    let pos : 0 < b = one-le-pow bits 2 (omega arith) in
    let fits : value / b < b ^ suc fuel =
      (div-lt_iff_lt-mul {k = b} {x = value} {y = b ^ suc fuel} pos).1
        (rw (← pow-suc b (suc fuel)) h) in
    elim (Bool-cases (value / b == 0)) [
      | inl t ↦
          let none_left : value / b < 1 = ground arith in
          let below : value / b < b ^ 0 = rw (pow-zero b) none_left in
          let one : value < b ^ 1 =
            rw (pow-suc b 0) ((div-lt_iff_lt-mul {k = b} {x = value} {y = b ^ 0} pos).0 below) in
          rw t (one, inl refl, omega arith)
      | inr t ↦ rw t (
          more_digits b value _ pos (ground arith) (shift_count-IsLeast fuel bits (value / b) fits))
    ]
