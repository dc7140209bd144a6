-- ===== src/Prelude/Bits/Digit.antt =====
-- The binary digits of a number, and those of `&`, `|` and the complement.
use Prim.Native.Nat.{ℕ, zero, suc, ◌-◌, ◌*◌, ◌/◌, ◌%◌, ◌^◌, ◌≤◌, ◌<◌, bit_and, bit_or, min, max}
use mathlib.Core.Path.{◌≡◌, refl, sym, ap, ◌∙◌}
use mathlib.Core.Logic.{◌≢◌}
use native.Mathlib.Nat.{pow-suc, div-div-eq-div-mul, zero-div}
use native.Mathlib.Omega.{arith}
use mmgr.Prelude.Bits.Step.{bit_and_step, bit_or_step}
use mmgr.Prelude.Bits.{bit_and_shift, bit_and_mask, zero-bit_and}
use native.Mathlib.Decide.{dec_lt}

abbrev pub digit : ℕ → ℕ → ℕ
digit k w = w / 2 ^ k % 2

digit-suc : (k w : ℕ) → digit (suc k) w ≡ digit k (w / 2)
digit-suc k w =
    let p : 2 ^ suc k ≡ 2 * 2 ^ k = omega (arith, pow-suc 2 k) in
    rw p (ap (λ x. x % 2) (sym (div-div-eq-div-mul w 2 (2 ^ k))))

pub digit-bit_and : (k a b : ℕ) → digit k (bit_and a b) ≡ min (digit k a) (digit k b)
digit-bit_and zero a b = omega (arith, bit_and_step a b)
digit-bit_and (suc k) a b =
    let half : bit_and a b / 2 ≡ bit_and (a / 2) (b / 2) = omega (arith, bit_and_step a b) in
    rw (digit-suc, digit-suc, digit-suc, half) (digit-bit_and k (a / 2) (b / 2))

pub digit-bit_or : (k a b : ℕ) → digit k (bit_or a b) ≡ max (digit k a) (digit k b)
digit-bit_or zero a b = omega (arith, bit_or_step a b)
digit-bit_or (suc k) a b =
    let half : bit_or a b / 2 ≡ bit_or (a / 2) (b / 2) = omega (arith, bit_or_step a b) in
    rw (digit-suc, digit-suc, digit-suc, half) (digit-bit_or k (a / 2) (b / 2))

pub digit-not : (k n w : ℕ) → k < n → w < 2 ^ n → digit k (2 ^ n - 1 - w) ≡ 1 - digit k w
digit-not k zero w h fits = absurd (omega arith)
digit-not zero (suc n) w h fits = omega (arith, pow-suc 2 n)
digit-not (suc k) (suc n) w h fits =
    let p : 2 ^ suc n ≡ 2 * 2 ^ n = omega (arith, pow-suc 2 n) in
    let half : (2 ^ suc n - 1 - w) / 2 ≡ 2 ^ n - 1 - w / 2 = omega arith in
    rw (digit-suc, digit-suc, half) (digit-not k n (w / 2) (omega arith) (omega arith))

pub digit-power : (k : ℕ) → digit k (2 ^ k) ≡ 1
digit-power zero = refl
digit-power (suc k) =
    let p : 2 ^ suc k / 2 ≡ 2 ^ k = omega (arith, pow-suc 2 k) in rw (digit-suc, p) (digit-power k)

pub bit_and-power : (k w : ℕ) → bit_and w (2 ^ k) ≡ digit k w * 2 ^ k
bit_and-power k w =
    let e : 1 * 2 ^ k ≡ 2 ^ k = omega arith in
    let f = rw e at (bit_and_shift k w 1) in f ∙ ap (λ x. x * 2 ^ k) (bit_and_mask 1 (w / 2 ^ k))

pub digit-power_other : (j k : ℕ) → j ≢ k → digit j (2 ^ k) ≡ 0
digit-power_other zero zero h = absurd (h refl)
digit-power_other zero (suc k) h = omega (arith, pow-suc 2 k)
digit-power_other (suc j) zero h =
    let z : digit j 0 ≡ 0 = ap (λ x. x % 2) (zero-div (2 ^ j)) in rw digit-suc z
digit-power_other (suc j) (suc k) h =
    let p : 2 ^ suc k / 2 ≡ 2 ^ k = omega (arith, pow-suc 2 k) in
    rw (digit-suc, p) (digit-power_other j k (λ e. h (ap suc e)))

bit_and_most : (fuel a b : ℕ) → a ≤ fuel → bit_and a b ≤ a
bit_and_most zero a b h = let e : a ≡ 0 = omega arith in rw e (omega (arith, zero-bit_and b))
bit_and_most (suc fuel) a b h = elim (dec_lt 0 a) [
  | yes more ↦ omega (arith, bit_and_step a b, bit_and_most fuel (a / 2) (b / 2) (omega arith))
  | no less ↦ let e : a ≡ 0 = omega arith in rw e (omega (arith, zero-bit_and b))
]

pub bit_and-le : (a b : ℕ) → bit_and a b ≤ a
bit_and-le a b = bit_and_most a a b (omega arith)
