-- ===== src/Prelude/Bits/Xor.antt =====
-- The exclusive or of fields, and when it is 0.
use Prim.Native.Nat.{ℕ, zero, suc, ◌+◌, ◌*◌, ◌/◌, ◌%◌, ◌^◌, ◌≤◌, ◌<◌, bit_xor, differ}
use mathlib.Core.Path.{◌≡◌, refl, sym, ap}
use native.Mathlib.Nat.{pow-suc}
use native.Mathlib.Decide.{dec_lt}
use native.Mathlib.Omega.{arith}
use mmgr.Prelude.Bits.Step.{bit_xor_step}

differ_self : (x : ℕ) → differ x x ≡ 0
differ_self zero = refl
differ_self (suc x) = differ_self x

differ-eq : (x y : ℕ) → differ x y ≡ 0 → x ≡ y
differ-eq zero y h = sym h
differ-eq (suc x) zero h = h
differ-eq (suc x) (suc y) h = ap suc (differ-eq x y h)

differ-lt : (x y n : ℕ) → x < n → y < n → differ x y < n
differ-lt zero y n h l = l
differ-lt (suc x) zero n h l = h
differ-lt (suc x) (suc y) n h l = differ-lt x y n (omega arith) (omega arith)

xor_zero : bit_xor 0 0 ≡ 0
xor_zero = refl

self_most : (fuel a : ℕ) → a ≤ fuel → bit_xor a a ≡ 0
self_most zero a h = let e : a ≡ 0 = omega arith in rw e refl
self_most (suc fuel) a h = elim (dec_lt 0 a) [
  | yes more ↦
      omega (arith, bit_xor_step a a, differ_self (a % 2), self_most fuel (a / 2) (omega arith))
  | no less ↦ let e : a ≡ 0 = omega arith in rw e refl
]

pub bit_xor_self : (a : ℕ) → bit_xor a a ≡ 0
bit_xor_self a = self_most a a (omega arith)

differ-zero : (x : ℕ) → differ x 0 ≡ x
differ-zero zero = refl
differ-zero (suc x) = refl

zero_most : (fuel a : ℕ) → a ≤ fuel → bit_xor a 0 ≡ a
zero_most zero a h = let e : a ≡ 0 = omega arith in rw e refl
zero_most (suc fuel) a h = elim (dec_lt 0 a) [
  | yes more ↦
      omega (arith, bit_xor_step a 0, differ-zero (a % 2), zero_most fuel (a / 2) (omega arith))
  | no less ↦ let e : a ≡ 0 = omega arith in rw e refl
]

pub bit_xor-zero : (a : ℕ) → bit_xor a 0 ≡ a
bit_xor-zero a = zero_most a a (omega arith)

eq_most : (fuel a b : ℕ) → a ≤ fuel → b ≤ fuel → bit_xor a b ≡ 0 → a ≡ b
eq_most zero a b h l e = omega arith
eq_most (suc fuel) a b h l e =
    let step = bit_xor_step a b in
    let high : a / 2 ≡ b / 2 =
      eq_most fuel (a / 2) (b / 2) (omega arith) (omega arith) (omega arith) in
    let low : a % 2 ≡ b % 2 = differ-eq (a % 2) (b % 2) (omega arith) in omega arith

pub bit_xor-eq : (a b : ℕ) → bit_xor a b ≡ 0 → a ≡ b
bit_xor-eq a b e = eq_most (a + b) a b (omega arith) (omega arith) e

pub bit_xor-lt : (k a b : ℕ) → a < 2 ^ k → b < 2 ^ k → bit_xor a b < 2 ^ k
bit_xor-lt zero a b h l =
    let e : a ≡ 0 = omega arith in let f : b ≡ 0 = omega arith in rw (e, f) (omega arith)
bit_xor-lt (suc k) a b h l =
    let p = pow-suc 2 k in
    let rest = bit_xor-lt k (a / 2) (b / 2) (omega arith) (omega arith) in
    let low = differ-lt (a % 2) (b % 2) 2 (omega arith) (omega arith) in
    omega (arith, bit_xor_step a b)

pub bit_xor-fields :
    (k high low high' low' : ℕ)
    → low < 2 ^ k
    → low' < 2 ^ k
    → bit_xor (high * 2 ^ k + low) (high' * 2 ^ k + low')
      ≡ bit_xor high high' * 2 ^ k + bit_xor low low'
bit_xor-fields zero high low high' low' h h' =
    let none : low ≡ 0 = omega arith in
    let none' : low' ≡ 0 = omega arith in
    let whole : high * 1 + 0 ≡ high = omega arith in
    let whole' : high' * 1 + 0 ≡ high' = omega arith in
    rw (none, none', whole, whole') (omega (arith, xor_zero))
bit_xor-fields (suc k) high low high' low' h h' =
    let p = pow-suc 2 k in
    let place : high * 2 ^ suc k ≡ 2 * (high * 2 ^ k) = rw p (omega arith) in
    let place' : high' * 2 ^ suc k ≡ 2 * (high' * 2 ^ k) = rw p (omega arith) in
    let ih = bit_xor-fields k high (low / 2) high' (low' / 2) (omega arith) (omega arith) in
    let a = high * 2 ^ suc k + low in
    let a' = high' * 2 ^ suc k + low' in
    let half : a / 2 ≡ high * 2 ^ k + low / 2 = omega arith in
    let half' : a' / 2 ≡ high' * 2 ^ k + low' / 2 = omega arith in
    let odd : a % 2 ≡ low % 2 = omega arith in
    let odd' : a' % 2 ≡ low' % 2 = omega arith in
    let step = bit_xor_step a a' in
    let low_step = bit_xor_step low low' in
    let last : bit_xor high high' * 2 ^ suc k ≡ 2 * (bit_xor high high' * 2 ^ k) =
      rw p (omega arith) in
    rw (step, half, half', odd, odd', ih) (omega arith)
