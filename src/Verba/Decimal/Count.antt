-- ===== src/Verba/Decimal/Count.antt =====
-- The count of decimal digits of src/verba_scribo is the least that holds the value.
use mmgr.Prelude.{
  ℕ, zero, suc, ◌+◌, ◌-◌, ◌*◌, ◌/◌, ◌%◌, ◌^◌, ◌≤◌, ◌<◌, ◌≡◌, ◌⊎◌, refl, arith, ap, ◌∙◌, bit_or, inl,
  inr,
}
use mmgr.Prelude.{Bool, true, if◌then◌else◌, leb, get_or, ◌&&◌, ◌||◌, ◌==◌, Bool-cases}
use mmgr.Prelude.Below.{all_below, all_below_lem}
use mmgr.Prelude.Bits.{bit_or_step, bit_or-zero, two-pow-add}
use native.Mathlib.Nat.{lt_of_mul-lt-mul_right, mul-lt-mul_of_pos_right, one-le-pow, pow-suc}
use native.Mathlib.Decide.{dec_lt}
use mmgr.Clz.{lead}
use mmgr.Clz.Laws.{lead_range}
use mmgr.Verba.Decimal.{digits10, pow10}

forced : (v : ℕ) → bit_or v 1 ≡ v - v % 2 + 1
forced v = ground (arith, bit_or_step v 1, bit_or-zero (v / 2))

-- For each count of bits: the estimate, and the powers of ten about it.
is_estimate : ℕ → Bool
is_estimate bits =
    let est = bits * 1233 / 2 ^ 12 in
    (bits == 0)
    || (leb (2 ^ bits) (10 ^ (est + 1))
        && leb est 19
        && (get_or pow10 est 0 == 10 ^ est)
        && ((est == 0) || leb (10 ^ (est - 1)) (2 ^ (bits - 1))))

estimates : all_below 65 is_estimate ≡ true
unfolding is_estimate
estimates = refl

below_bits : (v z : ℕ) → z < 64 → v * 2 ^ z < 2 ^ 64 → v < 2 ^ (64 - z)
below_bits v z few h =
    let whole : 2 ^ 64 ≡ 2 ^ (64 - z) * 2 ^ z =
      ap (λ k. 2 ^ k) {x = 64} {y = 64 - z + z} (omega arith) ∙ two-pow-add (64 - z) z in
    lt_of_mul-lt-mul_right (2 ^ z) {m = v} {n = 2 ^ (64 - z)} (rw (← whole) h)

from_bits : (v z : ℕ) → z < 64 → 2 ^ 63 ≤ v * 2 ^ z → 2 ^ (63 - z) ≤ v
from_bits v z few h = elim (dec_lt v (2 ^ (63 - z))) [
  | yes l ↦
      let whole : 2 ^ 63 ≡ 2 ^ (63 - z) * 2 ^ z =
        ap (λ k. 2 ^ k) {x = 63} {y = 63 - z + z} (omega arith) ∙ two-pow-add (63 - z) z in
      absurd (
        omega (
          arith,
          mul-lt-mul_of_pos_right {m = v} {n = 2 ^ (63 - z)} {k = 2 ^ z} l
              (one-le-pow z 2 (omega arith)),
        ))
  | no n ↦ omega arith
]

read_estimate :
    (bits est p q : ℕ)
    → 0 < bits
    → ((bits == 0)
        || (leb (2 ^ bits) q
            && leb est 19
            && (p == 10 ^ est)
            && ((est == 0) || leb (10 ^ (est - 1)) (2 ^ (bits - 1)))))
      ≡ true
    → (2 ^ bits ≤ q) × (est ≤ 19) × (p ≡ 10 ^ est) × ((est ≡ 0) ⊎ (10 ^ (est - 1) ≤ 2 ^ (bits - 1)))
read_estimate bits est p q some_bits h = ground arith

even_power : (e : ℕ) → 1 ≤ e → 10 ^ e % 2 ≡ 0
even_power zero h = absurd (omega arith)
even_power (suc e) h = omega (arith, pow-suc 10 e)

-- What holds of a count of digits.
abbrev IsCount : ℕ → ℕ → Type 0
IsCount v k = (v < 10 ^ k) × ((k ≡ 1) ⊎ (10 ^ (k - 1) ≤ v)) × (1 ≤ k) × (k ≤ 20)

IsCount-up :
    (v e : ℕ) → v - v % 2 + 1 < 10 ^ (e + 1) → 10 ^ e ≤ v - v % 2 + 1 → e ≤ 19 → IsCount v (e + 1)
IsCount-up v zero high low few = (omega arith, inl refl, omega arith, omega arith)
IsCount-up v (suc e) high low few =
    let one_less : 10 ^ (suc e + 1 - 1) ≡ 10 ^ suc e = ap (λ (k : ℕ). 10 ^ k) (omega arith) in
    (omega arith, inr (omega (arith, even_power (suc e) (omega arith))), omega arith, omega arith)

IsCount-at :
    (v e : ℕ)
    → v - v % 2 + 1 < 10 ^ e
    → (e ≡ 0) ⊎ (10 ^ (e - 1) ≤ v - v % 2 + 1)
    → e ≤ 19
    → IsCount v (e + 0)
IsCount-at v zero high low few = absurd (omega arith)
IsCount-at v (suc zero) high low few = (omega arith, inl refl, omega arith, omega arith)
IsCount-at v (suc (suc e)) high low few =
    let same : suc (suc e) + 0 ≡ suc (suc e) = omega arith in
    let even = even_power (suc e) (omega arith) in
    let one_less : 10 ^ (suc (suc e) - 1) ≡ 10 ^ suc e = ap (λ (k : ℕ). 10 ^ k) (omega arith) in
    rw same (omega arith, inr (omega arith), omega arith, omega arith)

counted_least :
    (v w e p : ℕ)
    → w ≡ v - v % 2 + 1
    → p ≡ 10 ^ e
    → e ≤ 19
    → w < 10 ^ (e + 1)
    → (e ≡ 0) ⊎ (10 ^ (e - 1) ≤ w)
    → IsCount v (e + (if leb p w then 1 else 0))
counted_least v w e p ew ep few high low = elim (Bool-cases (leb p w)) [
  | inl t ↦
      let above : p ≤ w = ground arith in rw t (IsCount-up v e (omega arith) (omega arith) few)
  | inr t ↦
      let below : w < p = ground arith in
      rw t
        (IsCount-at v e (omega arith) (elim low [ inl z ↦ inl z | inr l ↦ inr (omega arith) ]) few)
]

-- The count of decimal digits of a 64-bit value is the least that holds it, 1 for a value of 0.
pub digits10-least :
    (v : ℕ)
    → v < 2 ^ 64
    → (v < 10 ^ digits10 v)
      × ((digits10 v ≡ 1) ⊎ (10 ^ (digits10 v - 1) ≤ v))
      × (1 ≤ digits10 v)
      × (digits10 v ≤ 20)
unfolding digits10 is_estimate
digits10-least v small =
    let w = bit_or v 1 in
    let odd = forced v in
    let r = lead_range w (omega arith) (omega arith) in
    let z = lead w in
    let bits = 64 - z in
    let e = bits * 1233 / 2 ^ 12 in
    let p = get_or pow10 e 0 in
    let less : bits - 1 ≡ 63 - z = omega arith in
    let lower : 2 ^ (bits - 1) ≤ w = rw less (from_bits w z r.2 r.0) in
    let upper = below_bits w z r.2 r.1 in
    let est =
      read_estimate bits e p (10 ^ (e + 1)) (omega arith)
        (all_below_lem 65 is_estimate estimates bits (omega arith)) in
    counted_least v w e p odd est.2 est.1 (omega arith)
      (elim est.3 [ inl z ↦ inl z | inr l ↦ inr (omega arith) ])
