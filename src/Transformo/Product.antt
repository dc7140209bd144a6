-- ===== src/Transformo/Product.antt =====
-- The products of src/transformo are the products of the numbers.
use mmgr.Prelude.{
  ℕ, ◌+◌, ◌-◌, ◌*◌, ◌/◌, ◌%◌, ◌^◌, ◌≤◌, ◌<◌, ◌≡◌, ◌⊎◌, refl, arith, ◌∙◌, sym, bit_or,
}
use mmgr.Prelude.{true, false, not, ◌||◌, if◌then◌else◌, ◌==◌, ltb, Bool-cases, inl, inr}
use mathlib.Core.Path.{ap₂}
use native.Mathlib.Nat.{mul-le-mul}
use mmgr.Prelude.Bits.{bit_or_fields_swap}
use mmgr.Carcer.Word.{add64, sub64, shl64}
use mmgr.Transformo.{take, mul, mul_power, Scaled, mant_max}

-- Four products of halves, with what their sums carry.
halves_lem :
    (a b c d : ℕ)
    → a ≤ (2 ^ 32 - 1) * (2 ^ 32 - 1)
    → b ≤ (2 ^ 32 - 1) * (2 ^ 32 - 1)
    → c ≤ (2 ^ 32 - 1) * (2 ^ 32 - 1)
    → d ≤ (2 ^ 32 - 1) * (2 ^ 32 - 1)
    → let mid = (a / 2 ^ 32 + b % 2 ^ 32 + c % 2 ^ 32) % 2 ^ 64 in
      (d + b / 2 ^ 32 + c / 2 ^ 32 + mid / 2 ^ 32) % 2 ^ 64 * 2 ^ 64
        + (mid * 2 ^ 32 % 2 ^ 64 + a % 2 ^ 32)
      ≡ d * 2 ^ 64 + (b + c) * 2 ^ 32 + a
halves_lem a b c d ha hb hc hd = omega arith

expand :
    (x y z w : ℕ)
    → (x * 2 ^ 32 + y) * (z * 2 ^ 32 + w) ≡ x * z * 2 ^ 64 + (y * z + x * w) * 2 ^ 32 + y * w
expand x y z w = grind arith

half_most : (x y : ℕ) → x < 2 ^ 32 → y < 2 ^ 32 → x * y ≤ (2 ^ 32 - 1) * (2 ^ 32 - 1)
half_most x y hx hy =
    mul-le-mul {n₁ = x} {m₁ = y} {n₂ = 2 ^ 32 - 1} {m₂ = 2 ^ 32 - 1} (omega arith) (omega arith)

fits_word : (p : ℕ) → p ≤ (2 ^ 32 - 1) * (2 ^ 32 - 1) → p % 2 ^ 64 ≡ p
fits_word p h = omega arith

-- The two words of a product of words of 64 bits are the product.
pub mul-product :
    (left right : ℕ)
    → left < 2 ^ 64
    → right < 2 ^ 64
    → ((mul left right).0 * 2 ^ 64 + (mul left right).1 ≡ left * right)
      × ((mul left right).0 < 2 ^ 64)
      × ((mul left right).1 < 2 ^ 64)
unfolding mul shl64
mul-product left right hl hr =
    let ll = left % 2 ^ 32 in
    let lh = left / 2 ^ 32 in
    let rl = right % 2 ^ 32 in
    let rh = right / 2 ^ 32 in
    let a = half_most ll rl (omega arith) (omega arith) in
    let b = half_most ll rh (omega arith) (omega arith) in
    let c = half_most lh rl (omega arith) (omega arith) in
    let d = half_most lh rh (omega arith) (omega arith) in
    let mid = (ll * rl / 2 ^ 32 + ll * rh % 2 ^ 32 + lh * rl % 2 ^ 32) % 2 ^ 64 in
    let low : mid * 2 ^ 32 % 2 ^ 64 ≡ mid % 2 ^ 32 * 2 ^ 32 = omega arith in
    let join : bit_or (ll * rl % 2 ^ 32) (mid * 2 ^ 32 % 2 ^ 64)
        ≡ mid * 2 ^ 32 % 2 ^ 64 + ll * rl % 2 ^ 32 =
      rw low (bit_or_fields_swap 32 (mid % 2 ^ 32) (ll * rl % 2 ^ 32) (omega arith)) in
    let sum = halves_lem (ll * rl) (ll * rh) (lh * rl) (lh * rh) a b c d in
    let el : left ≡ lh * 2 ^ 32 + ll = omega arith in
    let er : right ≡ rh * 2 ^ 32 + rl = omega arith in
    let whole : left * right ≡ lh * rh * 2 ^ 64 + (ll * rh + lh * rl) * 2 ^ 32 + ll * rl =
      ap₂ ◌*◌ el er ∙ expand lh ll rh rl in
    rw
      (
        fits_word (ll * rl) a,
        fits_word (ll * rh) b,
        fits_word (lh * rl) c,
        fits_word (lh * rh) d,
        join,
      )
      (sum ∙ sym whole, omega arith, omega arith)

-- A mantissa of 64 bits takes a decimal digit exactly, or is left as it is; it is refused where a digit
-- of 9 would not fit.
pub take-fits :
    (mant d : ℕ)
    → mant < 2 ^ 64
    → d < 10
    → let taken = take mant (b'0' + d) in
      ((taken.1 ≡ true) × (taken.0 ≡ mant * 10 + d) × (mant * 10 + 9 < 2 ^ 64))
      ⊎ ((taken.1 ≡ false) × (taken.0 ≡ mant) × (2 ^ 64 ≤ mant * 10 + 9))
unfolding take add64 sub64
take-fits mant d small h = elim (Bool-cases (ltb mant_max mant)) [
  | inl t ↦ let over : mant_max < mant = ground arith in rw t (inr (refl, refl, omega arith))
  | inr t ↦
      let under : mant ≤ mant_max = ground arith in rw t (inl (refl, omega arith, omega arith))
]

-- Two columns of a product by a word, summed.
columns :
    (hh_h hh_l lh_h lh_l hh lh : ℕ)
    → hh_h * 2 ^ 64 + hh_l ≡ hh
    → lh_h * 2 ^ 64 + lh_l ≡ lh
    → hh_l < 2 ^ 64
    → lh_h < 2 ^ 64
    → lh_l < 2 ^ 64
    → hh ≤ (2 ^ 64 - 1) * (2 ^ 64 - 1)
    → let col = (hh_l + lh_h) % 2 ^ 64 in
      ((hh_h + (if ltb col hh_l then 1 else 0)) % 2 ^ 64 * 2 ^ 64 + col
        ≡ (hh * 2 ^ 64 + lh) / 2 ^ 64)
      × (lh_l ≡ (hh * 2 ^ 64 + lh) % 2 ^ 64)
columns hh_h hh_l lh_h lh_l hh lh eh el bl bh bll most = (ground arith, omega arith)

-- A number of 128 bits times a word of 64: the high 128 bits of the product are kept, and what is
-- dropped is marked.
pub mul_power-floor :
    (s : Scaled) (right : ℕ)
    → s.hi < 2 ^ 64
    → s.lo < 2 ^ 64
    → right < 2 ^ 64
    → let value = (s.hi * 2 ^ 64 + s.lo) * right in
      let r = mul_power s right in
      (r.hi * 2 ^ 64 + r.lo ≡ value / 2 ^ 64) × (r.rest ≡ (s.rest || not (value % 2 ^ 64 == 0)))
unfolding mul_power add64
mul_power-floor s right hh hl hr =
    let h = mul-product s.hi right hh hr in
    let l = mul-product s.lo right hl hr in
    let most : s.hi * right ≤ (2 ^ 64 - 1) * (2 ^ 64 - 1) =
      mul-le-mul {n₁ = s.hi} {m₁ = right} {n₂ = 2 ^ 64 - 1} {m₂ = 2 ^ 64 - 1} (omega arith)
        (omega arith) in
    let c =
      columns (mul s.hi right).0 (mul s.hi right).1 (mul s.lo right).0 (mul s.lo right).1
        (s.hi * right) (s.lo * right) h.0 l.0 h.2 l.1 l.2 most in
    let e : (s.hi * 2 ^ 64 + s.lo) * right ≡ s.hi * right * 2 ^ 64 + s.lo * right = grind arith in
    rw (e, ← c.1) (c.0, refl)
