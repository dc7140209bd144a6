-- ===== src/Fractio.antt =====
-- src/fractio: the fields of a double, which is here the word of its bits.
pub mod Laws
use mmgr.Prelude.{ℕ, ◌+◌, ◌-◌, ◌*◌, ◌/◌, ◌%◌, ◌^◌, bit_and, bit_or}
use mmgr.Carcer.Word.{shl64}

-- MMGR_DBL_SIGN_MASK, MMGR_DBL_EXP_MASK, MMGR_DBL_MANT_MASK, MMGR_DBL_SIGN_SHIFT, MMGR_DBL_MANT_BITS,
-- MMGR_DBL_SIGN_ONE, MMGR_DBL_EXP_ALL and MMGR_DBL_BIAS.
abbrev pub sign_mask : ℕ
sign_mask = 0x8000000000000000

abbrev pub exp_mask : ℕ
exp_mask = 0x7FF0000000000000

abbrev pub mant_mask : ℕ
mant_mask = 0x000FFFFFFFFFFFFF

abbrev pub sign_shift : ℕ
sign_shift = 63

abbrev pub mant_bits : ℕ
mant_bits = 52

abbrev pub sign_one : ℕ
sign_one = 1

abbrev pub exp_all : ℕ
exp_all = 0x7FF

abbrev pub bias : ℕ
bias = 1023

unfoldable pub sign : ℕ → ℕ
sign bits = bit_and bits sign_mask / 2 ^ sign_shift

unfoldable pub exp : ℕ → ℕ
exp bits = bit_and bits exp_mask / 2 ^ mant_bits

unfoldable pub mant : ℕ → ℕ
mant bits = bit_and bits mant_mask

unfoldable pub merge : ℕ → ℕ → ℕ → ℕ
merge s e m =
    bit_or (bit_or (shl64 (bit_and s sign_one) sign_shift) (shl64 (bit_and e exp_all) mant_bits))
      (bit_and m mant_mask)
