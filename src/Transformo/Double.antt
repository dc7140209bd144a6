-- ===== src/Transformo/Double.antt =====
-- The doubles that src/transformo makes, as the words of their bits.
use mmgr.Prelude.{ℕ, zero, suc, ◌+◌, ◌-◌, ◌/◌, ◌^◌, bit_and}
use mmgr.Prelude.{Bool, not, ◌&&◌, ◌||◌, if◌then◌else◌, ◌==◌, ltb, leb}
use mmgr.Prelude.Int.{ℤ, ◌+ℤ◌, ◌-ℤ◌, ltz, natural}
use mmgr.Fractio.{merge, mant_mask, mant_bits, bias, exp_all}
use mmgr.Transformo.{Scaled, seat, apply_pow10, pow5_max}

-- MMGR_MUTO_EXACT_POW10.
abbrev pub exact_pow10 : ℕ
exact_pow10 = 22

-- The bits of 0.0 and of an infinity, with their sign.
abbrev pub zero_bits : Bool → ℕ
zero_bits neg = if neg then 2 ^ 63 else 0

abbrev pub infinite_bits : Bool → ℕ
infinite_bits neg = zero_bits neg + 0x7FF0000000000000

-- The mantissa of a double, its half bit, and whether bits are below that.
pub record Rounding : Type 0 where
  pub mant : ℕ
  pub half : ℕ
  pub rest : Bool

-- The loop of `muto_round` for a number below the least exponent.
unfoldable pub denormal : ℕ → Rounding → Rounding
denormal zero r = r
denormal (suc shift) r =
    denormal shift
      (record { mant = r.mant / 2; half = bit_and r.mant 1; rest = r.rest || not (r.half == 0) })

-- The rounding to nearest, ties to even, of a mantissa with its exponent: one more, carried into it.
unfoldable pub round_up : Rounding → ℕ → ℕ × ℕ
round_up r be =
    let up = not (r.half == 0) && (r.rest || not (bit_and r.mant 1 == 0)) in
    let mant = r.mant + 1 in
    if not up
    then (r.mant, be)
    else if not (mant / 2 ^ 53 == 0)
    then (mant / 2, be + 1)
    else if (be == 0) && not (mant / 2 ^ mant_bits == 0)
    then (mant, 1)
    else (mant, be)

unfoldable pub packed : Bool → ℕ × ℕ → ℕ
packed neg (mant, be) =
    if leb exp_all be
    then infinite_bits neg
    else merge (if neg then 1 else 0) be (bit_and mant mant_mask)

-- `muto_round`.
unfoldable pub round : Scaled → Bool → ℕ
round s neg =
    let r : Rounding = record {
      mant = s.hi / 2 ^ 11;
      half = bit_and (s.hi / 2 ^ 10) 1;
      rest = s.rest || not (s.lo == 0) || not (bit_and s.hi 0x3FF == 0);
    } in
    let be = s.fe2 +ℤ ℤ.pos (75 + mant_bits + bias) in
    let shift = natural (ℤ.pos 1 -ℤ be) in
    if (s.hi == 0) && (s.lo == 0)
    then zero_bits neg
    else if ltz (ℤ.pos 0) be
    then packed neg (round_up r (natural be))
    else if ltb 60 shift
    then zero_bits neg
    else packed neg (round_up (denormal shift r) 0)

-- `muto_scale`: what the hardware makes of a whole number, of two doubles' product and quotient, and of
-- one negated, and the table of the powers of ten as doubles, are parameters.
module _ (of_whole ten : ℕ → ℕ) (product quotient : ℕ → ℕ → ℕ) (minus : ℕ → ℕ) where
  unfoldable pub scale : ℕ → ℤ → Bool → Bool → ℕ
  scale mant ex dropped neg =
      let exact : ℕ = elim ex [
        | ℤ.pos zero ↦ of_whole mant
        | ℤ.pos (suc e) ↦ product (of_whole mant) (ten (suc e))
        | ℤ.negsuc e ↦ quotient (of_whole mant) (ten (e + 1))
      ] in
      if mant == 0
      then zero_bits neg
      else if not dropped
          && ltb mant (2 ^ 53)
          && not (ltz ex (ℤ.negsuc (exact_pow10 - 1)))
          && not (ltz (ℤ.pos exact_pow10) ex)
      then if neg then minus exact else exact
      else if ltz (ℤ.pos pow5_max) ex
      then infinite_bits neg
      else if ltz ex (ℤ.negsuc (pow5_max - 1))
      then zero_bits neg
      else round (apply_pow10 (seat mant (ℤ.pos 0) dropped) ex) neg
