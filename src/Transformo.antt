-- ===== src/Transformo.antt =====
-- src/transformo: a mantissa times a power of ten, as a rounded 64-bit integer or as the bits of a double.
-- The tables of src/pow5 are listed here. What the hardware computes with doubles is a parameter of `scale`.
mod Tests
pub mod Product
pub mod Round
pub mod Normal
pub mod Double
use mmgr.Prelude.{ℕ, zero, suc, ◌+◌, ◌-◌, ◌*◌, ◌/◌, ◌%◌, ◌^◌, bit_and, bit_or}
use mmgr.Prelude.{
  List, [], ◌∷◌, get_or, Bool, true, false, not, ◌&&◌, ◌||◌, if◌then◌else◌, ◌==◌, ltb, leb,
}
use mmgr.Prelude.Int.{ℤ, ◌+ℤ◌, ◌-ℤ◌, negative, ltz, natural, is_negative}
use mmgr.Carcer.Word.{add64, sub64, shl64}
use mmgr.Clz.{lead}

-- MMGR_MUTO_MANT_MAX.
abbrev pub mant_max : ℕ
mant_max = (2 ^ 64 - 1 - 9) / 10

-- `muto_take`: the mantissa, and whether the digit was taken into it. The digit is '0' to '9'.
unfoldable pub take : ℕ → ℕ → ℕ × Bool
take mant digit =
    if ltb mant_max mant
    then (mant, false)
    else (add64 (mant * 10 % 2 ^ 64) (sub64 digit b'0'), true)

-- `muto_mul`: the high word and the low word of a product, by four products of halves.
unfoldable pub mul : ℕ → ℕ → ℕ × ℕ
mul left right =
    let left_lo = left % 2 ^ 32 in
    let left_hi = left / 2 ^ 32 in
    let right_lo = right % 2 ^ 32 in
    let right_hi = right / 2 ^ 32 in
    let p00 = left_lo * right_lo % 2 ^ 64 in
    let p01 = left_lo * right_hi % 2 ^ 64 in
    let p10 = left_hi * right_lo % 2 ^ 64 in
    let p11 = left_hi * right_hi % 2 ^ 64 in
    let mid = (p00 / 2 ^ 32 + p01 % 2 ^ 32 + p10 % 2 ^ 32) % 2 ^ 64 in
    let plo = bit_or (p00 % 2 ^ 32) (shl64 mid 32) in
    ((p11 + p01 / 2 ^ 32 + p10 / 2 ^ 32 + mid / 2 ^ 32) % 2 ^ 64, plo)

-- What `MutoCtx` carries: 128 bits in two words, the power of two they are scaled by, and whether bits
-- were dropped below them.
pub record Scaled : Type 0 where
  pub hi : ℕ
  pub lo : ℕ
  pub fe2 : ℤ
  pub rest : Bool

-- `muto_norm`.
unfoldable pub norm : Scaled → Scaled
norm s =
    let seated = if s.hi == 0 then record s { hi = s.lo; lo = 0; fe2 = s.fe2 -ℤ ℤ.pos 64 } else s in
    let shift = lead seated.hi in
    let shifted = record seated {
      hi = bit_or (shl64 seated.hi shift) (seated.lo / 2 ^ (64 - shift));
      lo = shl64 seated.lo shift;
      fe2 = seated.fe2 -ℤ ℤ.pos shift;
    } in
    if (s.hi == 0) && (s.lo == 0) then s else if shift == 0 then seated else shifted

-- `MmgrPow5`, and its table of the negative powers.
pub record Pow5 : Type 0 where
  pub hi : ℕ
  pub lo : ℕ
  pub e2 : ℤ

abbrev power : ℕ → ℕ → ℕ → Pow5
power h l minus = record { hi = h; lo = l; e2 = ℤ.negsuc (minus - 1) }

abbrev pub pow5_down : List Pow5
pow5_down =
    power 0xCCCCCCCCCCCCCCCC 0xCCCCCCCCCCCCCCCC 130
    ∷ power 0xA3D70A3D70A3D70A 0x3D70A3D70A3D70A3 132
    ∷ power 0xD1B71758E219652B 0xD3C36113404EA4A8 137
    ∷ power 0xABCC77118461CEFC 0xFDC20D2B36BA7C3D 146
    ∷ power 0xE69594BEC44DE15B 0x4C2EBE687989A9B3 165
    ∷ power 0xCFB11EAD453994BA 0x67DE18EDA5814AF2 202
    ∷ power 0xA87FEA27A539E9A5 0x3F2398D747B36224 276
    ∷ power 0xDDD0467C64BCE4A0 0xAC7CB3F6D05DDBDE 425
    ∷ power 0xC0314325637A1939 0xFA911155FEFB5308 722
    ∷ []

-- MMGR_POW5_STEPS and MMGR_POW5_MAX.
abbrev pub pow5_steps : ℕ
pow5_steps = 9

abbrev pub pow5_max : ℕ
pow5_max = 511

abbrev carry_of : ℕ → ℕ → ℕ
carry_of sum addend = if ltb sum addend then 1 else 0

-- `muto_mul_pow5`: the high 128 bits of the product.
unfoldable pub mul_pow5 : Scaled → Pow5 → Scaled
mul_pow5 s pow =
    let (hh_h, hh_l) = mul s.hi pow.hi in
    let (hl_h, hl_l) = mul s.hi pow.lo in
    let (lh_h, lh_l) = mul s.lo pow.hi in
    let (ll_h, ll_l) = mul s.lo pow.lo in
    let col1 = add64 ll_h hl_l in
    let col1b = add64 col1 lh_l in
    let carry = carry_of col1 ll_h + carry_of col1b col1 in
    let col2 = add64 hh_l hl_h in
    let col2b = add64 col2 lh_h in
    let col2c = add64 col2b carry in
    let carry2 = carry_of col2 hh_l + carry_of col2b col2 + carry_of col2c col2b in
    norm (record {
      hi = add64 hh_h carry2;
      lo = col2c;
      fe2 = s.fe2 +ℤ pow.e2 +ℤ ℤ.pos 128;
      rest = s.rest || not (ll_l == 0) || not (col1b == 0);
    })

-- MMGR_MUTO_EXACT_U64_POW10; `mmgr_muto_pow10` holds the powers of ten up to it.
abbrev pub exact_u64_pow10 : ℕ
exact_u64_pow10 = 18

-- `muto_mul_pow10`, by a power of ten of 64 bits, ahead of its `muto_norm`.
unfoldable pub mul_power : Scaled → ℕ → Scaled
mul_power s right =
    let (hh_h, hh_l) = mul s.hi right in
    let (lh_h, lh_l) = mul s.lo right in
    let col = add64 hh_l lh_h in
    let carry = carry_of col hh_l in
    record {
      hi = add64 hh_h carry;
      lo = col;
      fe2 = s.fe2 +ℤ ℤ.pos 64;
      rest = s.rest || not (lh_l == 0);
    }

unfoldable pub mul_pow10 : Scaled → ℕ → Scaled
mul_pow10 s right = norm (mul_power s right)

-- The loop of `muto_apply_pow10` up: 18 powers a round at most.
unfoldable pub apply_up : ℕ → Scaled → ℕ → Scaled
apply_up zero s left = s
apply_up (suc fuel) s left =
    let step = if ltb exact_u64_pow10 left then exact_u64_pow10 else left in
    let rest = apply_up fuel (mul_pow10 s (10 ^ step)) (left - step) in
    if left == 0 then s else rest

-- The loop down: a power of the table for each bit of the magnitude.
unfoldable pub apply_down : List Pow5 → Scaled → ℕ → Scaled
apply_down [] s magnitude = s
apply_down (p ∷ ps) s magnitude =
    let taken = if bit_and magnitude 1 == 0 then s else mul_pow5 s p in
    let rest = apply_down ps taken (magnitude / 2) in if magnitude == 0 then s else rest

-- `muto_apply_pow10`. A round up takes one power at least, and so `ex` rounds are enough.
unfoldable pub apply_pow10 : Scaled → ℤ → Scaled
apply_pow10 s (ℤ.pos ex) =
    let down = apply_down pow5_down s ex in
    if ex == 0
    then record down { fe2 = down.fe2 +ℤ ℤ.pos ex }
    else if leb ex exact_u64_pow10
    then mul_pow10 s (10 ^ ex)
    else apply_up ex s ex
apply_pow10 s (ℤ.negsuc k) =
    let down = apply_down pow5_down s (k + 1) in record down { fe2 = down.fe2 +ℤ ℤ.negsuc k }

-- `muto_seat`.
unfoldable pub seat : ℕ → ℤ → Bool → Scaled
seat mant e2 dropped = norm (record { hi = mant; lo = 0; fe2 = e2 -ℤ ℤ.pos 64; rest = dropped })

-- `muto_to_u64`, by the shift down that the power of two asks for.
unfoldable pub to_u64_by : ℕ → ℕ → ℕ → ℕ
to_u64_by hi lo word_shift =
    let whole =
      if word_shift == 0 then hi else if ltb word_shift 64 then hi / 2 ^ word_shift else 0 in
    let half =
      if word_shift == 0
      then bit_and (lo / 2 ^ 63) 1
      else if ltb word_shift 64
      then bit_and (hi / 2 ^ (word_shift - 1)) 1
      else hi / 2 ^ 63 in
    if half == 0 then whole else add64 whole 1

unfoldable pub to_u64 : Scaled → ℕ
to_u64 s =
    let total_shift = negative s.fe2 in
    if (s.hi == 0) && (s.lo == 0)
    then 0
    else if ltz (ℤ.pos 128) total_shift
    then 0
    else if ltz total_shift (ℤ.pos 64)
    then 2 ^ 64 - 1
    else to_u64_by s.hi s.lo (natural total_shift - 64)

-- `muto_scale_to_u64`; the callers give no dropped bits.
unfoldable pub scale_to_u64 : ℕ → ℤ → ℤ → ℕ
scale_to_u64 mant e2 ex = if mant == 0 then 0 else to_u64 (apply_pow10 (seat mant e2 false) ex)
