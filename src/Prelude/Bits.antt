-- ===== src/Prelude/Bits.antt =====
-- `&` and `|` of fields and masks as arithmetic, at every width.
pub mod Digit
pub mod Power
pub mod Xor
mod Step
pub use Step.{bit_or_step, bit_and_step}
use Prim.Native.Nat.{ℕ, zero, suc, ◌+◌, ◌-◌, ◌*◌, ◌/◌, ◌%◌, ◌^◌, ◌≤◌, ◌<◌, bit_and, bit_or}
use Prim.Native.Nat.{bit_and-bitwise, bit_or-bitwise}
use mathlib.Core.Path.{◌≡◌, refl, sym, ap, ◌∙◌}
use native.Mathlib.Nat.{pow-suc, one-le-pow, div-div-eq-div-mul}
use native.Mathlib.Omega.{arith}

two-pow-suc : (k : ℕ) → 2 ^ suc k ≡ 2 * 2 ^ k
two-pow-suc k = omega (arith, pow-suc 2 k)

div-two-pow-suc : (a k : ℕ) → a / 2 ^ suc k ≡ a / 2 / 2 ^ k
div-two-pow-suc a k = rw two-pow-suc (sym (div-div-eq-div-mul a 2 (2 ^ k)))

pub zero-bit_or : (b : ℕ) → bit_or 0 b ≡ b
zero-bit_or b = bit_or-bitwise 0 b

pub zero-bit_and : (b : ℕ) → bit_and 0 b ≡ 0
zero-bit_and b = bit_and-bitwise 0 b

-- Against 0, up to any bound on the first operand.
against_zero : (bound a : ℕ) → a ≤ bound → (bit_or a 0 ≡ a) × (bit_and a 0 ≡ 0)
against_zero bound zero h = (zero-bit_or 0, zero-bit_and 0)
against_zero zero (suc a) h = absurd (omega arith)
against_zero (suc bound) (suc a) h =
    let half = against_zero bound (suc a / 2) (omega arith) in
    (omega (arith, bit_or_step (suc a) 0), omega (arith, bit_and_step (suc a) 0))

pub bit_or-zero : (a : ℕ) → bit_or a 0 ≡ a
bit_or-zero a = (against_zero a a (omega arith)).0

pub bit_and-zero : (a : ℕ) → bit_and a 0 ≡ 0
bit_and-zero a = (against_zero a a (omega arith)).1

-- One bit more of a field's place.
placed-suc : (k v : ℕ) → v * 2 ^ suc k ≡ 2 * (v * 2 ^ k)
placed-suc k v = omega (arith, ap (λ weight. v * weight) (pow-suc 2 k))

-- A field beside a lower part that fits below it, in both orders of the operands.
fields_joined :
    (k high low : ℕ)
    → low < 2 ^ k
    → (bit_or (high * 2 ^ k) low ≡ high * 2 ^ k + low)
      × (bit_or low (high * 2 ^ k) ≡ high * 2 ^ k + low)
fields_joined zero high low small =
    let none : low ≡ 0 = omega arith in
    let whole : high * 1 ≡ high = omega arith in
    rw (none, whole) (bit_or-zero high ∙ omega arith, zero-bit_or high ∙ omega arith)
fields_joined (suc k) high low small =
    let place = placed-suc k high in
    let ih = fields_joined k high (low / 2) (omega (arith, pow-suc 2 k)) in
    let left = bit_or_step (high * 2 ^ suc k) low in
    let right = bit_or_step low (high * 2 ^ suc k) in (ground arith, ground arith)

pub bit_or_fields : (k q r : ℕ) → r < 2 ^ k → bit_or (q * 2 ^ k) r ≡ q * 2 ^ k + r
bit_or_fields k q r fits = (fields_joined k q r fits).0

pub bit_or_fields_swap : (k q r : ℕ) → r < 2 ^ k → bit_or r (q * 2 ^ k) ≡ q * 2 ^ k + r
bit_or_fields_swap k q r fits = (fields_joined k q r fits).1

-- What a mask of low bits leaves of a value: the digits below its width.
masked : (k value : ℕ) → bit_and value (2 ^ k - 1) ≡ value - value / 2 ^ k * 2 ^ k
masked zero value = rw bit_and-zero (omega arith)
masked (suc k) value =
    let weight = pow-suc 2 k in
    let some_bit = one-le-pow k 2 in
    let lowest = bit_and_step value (2 ^ suc k - 1) in
    let ih = masked k (value / 2) in
    let halves : value / 2 ^ suc k ≡ value / 2 / 2 ^ k = div-two-pow-suc value k in
    let place = placed-suc k (value / 2 / 2 ^ k) in
    let below : value / 2 / 2 ^ k * 2 ^ k ≤ value / 2 = omega arith in rw halves (ground arith)

-- A mask of `k` low bits is the remainder by `2 ^ k`.
pub bit_and_mask : (k a : ℕ) → bit_and a (2 ^ k - 1) ≡ a % 2 ^ k
bit_and_mask k a = let m = masked k a in let some_bit = one-le-pow k 2 in ground arith

-- A mask whose `k` low bits are clear keeps them out.
pub bit_and_shift : (k a m : ℕ) → bit_and a (m * 2 ^ k) ≡ bit_and (a / 2 ^ k) m * 2 ^ k
bit_and_shift zero a m =
    let e : m * 1 ≡ m = omega arith in let f : a / 1 ≡ a = omega arith in rw e (rw f (omega arith))
bit_and_shift (suc k) a m = ground (
  arith,
  bit_and_step a (m * 2 ^ suc k),
  placed-suc k m,
  div-two-pow-suc a k,
  bit_and_shift k (a / 2) m,
  placed-suc k (bit_and (a / 2 / 2 ^ k) m),
)

-- Setting a clear bit adds its weight, and setting a set bit changes nothing.
pub bit_or_bit_clear : (k w : ℕ) → w / 2 ^ k % 2 ≡ 0 → bit_or w (2 ^ k) ≡ w + 2 ^ k
bit_or_bit_clear zero w h =
    let e : w / 1 ≡ w = omega arith in
    let h' : w % 2 ≡ 0 = rw e at h in omega (arith, bit_or_step w 1, bit_or-zero (w / 2))
bit_or_bit_clear (suc k) w h = ground (
  arith,
  bit_or_step w (2 ^ suc k),
  two-pow-suc k,
  div-two-pow-suc w k,
  bit_or_bit_clear k (w / 2) (rw (← div-two-pow-suc w k) h),
)

pub bit_or_bit_set : (k w : ℕ) → w / 2 ^ k % 2 ≡ 1 → bit_or w (2 ^ k) ≡ w
bit_or_bit_set zero w h =
    let e : w / 1 ≡ w = omega arith in
    let h' : w % 2 ≡ 1 = rw e at h in omega (arith, bit_or_step w 1, bit_or-zero (w / 2))
bit_or_bit_set (suc k) w h = ground (
  arith,
  bit_or_step w (2 ^ suc k),
  two-pow-suc k,
  div-two-pow-suc w k,
  bit_or_bit_set k (w / 2) (rw (← div-two-pow-suc w k) h),
)

pub two-pow-add : (a b : ℕ) → 2 ^ (a + b) ≡ 2 ^ a * 2 ^ b
two-pow-add a zero = let e : a + 0 ≡ a = omega arith in rw e (omega arith)
two-pow-add a (suc b) =
    let e : a + suc b ≡ suc (a + b) = omega arith in
    let ih : 2 ^ a * (2 * 2 ^ b) ≡ 2 * 2 ^ (a + b) = omega (arith, two-pow-add a b) in
    rw e (two-pow-suc (a + b) ∙ sym ih ∙ ap (λ (t : ℕ). 2 ^ a * t) (sym (two-pow-suc b)))

-- `&` and `|` act on a low field and on what stands above it apart.
fields_apart :
    (k high low high' low' : ℕ)
    → low < 2 ^ k
    → low' < 2 ^ k
    → (bit_and (high * 2 ^ k + low) (high' * 2 ^ k + low')
        ≡ bit_and high high' * 2 ^ k + bit_and low low')
      × (bit_or (high * 2 ^ k + low) (high' * 2 ^ k + low')
          ≡ bit_or high high' * 2 ^ k + bit_or low low')
fields_apart zero high low high' low' h h' =
    let none : low ≡ 0 = omega arith in
    let none' : low' ≡ 0 = omega arith in
    let whole : high * 1 + 0 ≡ high = omega arith in
    let whole' : high' * 1 + 0 ≡ high' = omega arith in
    rw (none, none', whole, whole') (omega (arith, zero-bit_and 0), omega (arith, zero-bit_or 0))
fields_apart (suc k) high low high' low' h h' =
    let weight = pow-suc 2 k in
    let place = placed-suc k high in
    let place' = placed-suc k high' in
    let ih = fields_apart k high (low / 2) high' (low' / 2) (omega arith) (omega arith) in
    let a = high * 2 ^ suc k + low in
    let a' = high' * 2 ^ suc k + low' in
    let half : a / 2 ≡ high * 2 ^ k + low / 2 = omega arith in
    let half' : a' / 2 ≡ high' * 2 ^ k + low' / 2 = omega arith in
    let odd : a % 2 ≡ low % 2 = omega arith in
    let odd' : a' % 2 ≡ low' % 2 = omega arith in
    let and_step = bit_and_step a a' in
    let or_step = bit_or_step a a' in
    let and_low = bit_and_step low low' in
    let or_low = bit_or_step low low' in
    let and_place = placed-suc k (bit_and high high') in
    let or_place = placed-suc k (bit_or high high') in
    (
      rw (and_step, half, half', odd, odd', ih.0) (omega arith),
      rw (or_step, half, half', odd, odd', ih.1) (omega arith),
    )

pub bit_and-fields :
    (k high low high' low' : ℕ)
    → low < 2 ^ k
    → low' < 2 ^ k
    → bit_and (high * 2 ^ k + low) (high' * 2 ^ k + low')
      ≡ bit_and high high' * 2 ^ k + bit_and low low'
bit_and-fields k high low high' low' h h' = (fields_apart k high low high' low' h h').0

pub bit_or-fields :
    (k high low high' low' : ℕ)
    → low < 2 ^ k
    → low' < 2 ^ k
    → bit_or (high * 2 ^ k + low) (high' * 2 ^ k + low')
      ≡ bit_or high high' * 2 ^ k + bit_or low low'
bit_or-fields k high low high' low' h h' = (fields_apart k high low high' low' h h').1
