-- ===== src/Fractio/Laws.antt =====
-- The fields of a double that src/fractio takes are its digits, and it puts them together again.
use mmgr.Prelude.{ℕ, ◌+◌, ◌*◌, ◌/◌, ◌%◌, ◌^◌, ◌<◌, ◌≡◌, arith}
use mmgr.Prelude.Bits.{bit_and_mask, bit_and_shift, bit_or_fields}
use mmgr.Carcer.Word.{shl64}
use mmgr.Fractio.{sign, exp, mant, merge}

pub sign_lem : (bits : ℕ) → bits < 2 ^ 64 → sign bits ≡ bits / 2 ^ 63
unfolding sign
sign_lem bits small = omega (arith, bit_and_shift 63 bits 1, bit_and_mask 1 (bits / 2 ^ 63))

pub exp_lem : (bits : ℕ) → exp bits ≡ bits / 2 ^ 52 % 2 ^ 11
unfolding exp
exp_lem bits = omega (arith, bit_and_shift 52 bits 0x7FF, bit_and_mask 11 (bits / 2 ^ 52))

pub mant_lem : (bits : ℕ) → mant bits ≡ bits % 2 ^ 52
unfolding mant
mant_lem bits = omega (arith, bit_and_mask 52 bits)

-- Three fields merged are the bits that they make; what is past a field's width is dropped.
pub merge_lem : (s e m : ℕ) → merge s e m ≡ s % 2 * 2 ^ 63 + e % 2 ^ 11 * 2 ^ 52 + m % 2 ^ 52
unfolding merge shl64
merge_lem s e m =
    let a = bit_and_mask 1 s in
    let b = bit_and_mask 11 e in
    let c = bit_and_mask 52 m in
    let f : e % 2 ^ 11 * 2 ^ 52 % 2 ^ 64 ≡ e % 2 ^ 11 * 2 ^ 52 = omega arith in
    let g : s % 2 * 2 ^ 63 % 2 ^ 64 ≡ s % 2 * 2 ^ 63 = omega arith in
    let one = bit_or_fields 63 (s % 2) (e % 2 ^ 11 * 2 ^ 52) (omega arith) in
    let e2 : s % 2 * 2 ^ 63 + e % 2 ^ 11 * 2 ^ 52 ≡ (s % 2 * 2 ^ 11 + e % 2 ^ 11) * 2 ^ 52 =
      omega arith in
    rw (a, b, c, f, g, one, e2)
      (bit_or_fields 52 (s % 2 * 2 ^ 11 + e % 2 ^ 11) (m % 2 ^ 52) (omega arith))

-- A double of 64 bits is put together again from its sign, its exponent and its mantissa, and the
-- fields of what is merged from fields that fit are those.
pub merge-fields :
    (bits s e m : ℕ)
    → bits < 2 ^ 64
    → s < 2
    → e < 2 ^ 11
    → m < 2 ^ 52
    → (merge (sign bits) (exp bits) (mant bits) ≡ bits)
      × (sign (merge s e m) ≡ s)
      × (exp (merge s e m) ≡ e)
      × (mant (merge s e m) ≡ m)
merge-fields bits s e m small hs he hm =
    let w = merge_lem s e m in
    let sb = sign_lem bits small in
    let eb = exp_lem bits in
    let mb = mant_lem bits in
    let all = merge_lem (sign bits) (exp bits) (mant bits) in
    let fits : merge s e m < 2 ^ 64 = omega arith in
    (
      omega arith,
      omega (arith, sign_lem (merge s e m) fits),
      omega (arith, exp_lem (merge s e m)),
      omega (arith, mant_lem (merge s e m)),
    )
