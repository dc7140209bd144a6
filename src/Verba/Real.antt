-- ===== src/Verba/Real.antt =====
-- The doubles that src/verba_scribo writes. A double is the word of its bits; its negative has the other
-- sign bit.
use mmgr.Prelude.{ℕ, zero, suc, ◌+◌, ◌-◌, ◌*◌, ◌/◌, ◌%◌, ◌^◌, bit_or, bit_xor}
use mmgr.Prelude.{
  [], ◌∷◌, get_or, Bool, not, ◌&&◌, ◌||◌, if◌then◌else◌, ◌==◌, ltb, leb, Option, none, some,
}
use mmgr.Prelude.Int.{
  ℤ, ◌+ℤ◌, ◌-ℤ◌, difference, negative, times, shift_down, ltz, natural, is_negative,
}
use mmgr.Clz.{lead}
use mmgr.Fractio.{sign, exp, mant, sign_mask, mant_bits, bias, exp_all}
use mmgr.Transformo.{scale_to_u64}
use mmgr.Verba.{Verba, ch, put_literal}
use mmgr.Verba.Decimal.{pow10}
use mmgr.Verba.Numbers.{uint, zeros, digits, g_trim}

-- `verba_sign_bit`, `verba_is_inf` and `verba_is_nan`.
unfoldable pub sign_bit : ℕ → Bool
sign_bit real = not (sign real == 0)

unfoldable pub is_inf : ℕ → Bool
is_inf real = (exp real == exp_all) && (mant real == 0)

unfoldable pub is_nan : ℕ → Bool
is_nan real = (exp real == exp_all) && not (mant real == 0)

-- `verba_non_finite`.
unfoldable pub non_finite : Verba → ℕ → Verba
non_finite v bits =
    let signed = if not (sign bits == 0) then ch v b'-' else v in
    if not (mant bits == 0)
    then put_literal v (b'n' ∷ b'a' ∷ b'n' ∷ [])
    else put_literal signed (b'i' ∷ b'n' ∷ b'f' ∷ [])

-- MMGR_G_MAX_SIG and MMGR_FIXED_MAX_DECIMALS.
abbrev pub g_max_sig : ℕ
g_max_sig = 18

abbrev pub fixed_max_decimals : ℕ
fixed_max_decimals = 18

-- The mantissa of a finite double with its implied bit, and the power of two that it is scaled by.
unfoldable pub full_mant : ℕ → ℕ
full_mant bits = if exp bits == 0 then mant bits else bit_or (mant bits) (2 ^ mant_bits)

unfoldable pub scale_of : ℕ → ℤ
scale_of bits =
    if exp bits == 0
    then ℤ.pos 1 -ℤ ℤ.pos (bias + mant_bits)
    else difference (exp bits) (bias + mant_bits)

-- The loop of `verba_g` that corrects the estimate of the exponent, on fuel: the digits, and the exponent.
unfoldable pub g_fit : ℕ → ℕ → ℤ → ℕ → ℤ → ℤ → Option (ℕ × ℤ)
g_fit zero mantissa scale limit exponent cursor = none
g_fit (suc fuel) mantissa scale limit exponent cursor =
    let m = scale_to_u64 mantissa scale cursor in
    let rest = g_fit fuel mantissa scale limit (exponent +ℤ ℤ.pos 1) (cursor -ℤ ℤ.pos 1) in
    if leb limit m then rest else some (m, exponent)

-- The four forms of `verba_g`.
unfoldable pub g_form : Verba → ℕ → ℕ × ℕ → ℤ → Verba
g_form v sig (m, count) exponent =
    let marked = ch (ch (digits v m count 1) b'e') (if is_negative exponent then b'-' else b'+') in
    let magnitude = natural (if is_negative exponent then negative exponent else exponent) in
    if ltz exponent (ℤ.negsuc 3) || not (ltz exponent (ℤ.pos sig))
    then uint marked magnitude 10 2
    else if not (ltz exponent (difference count 1))
    then zeros (digits v m count 0) (natural (exponent -ℤ ℤ.pos count +ℤ ℤ.pos 1))
    else if not (is_negative exponent)
    then digits v m count (natural exponent + 1)
    else digits (zeros (put_literal v (b'0' ∷ b'.' ∷ [])) (natural (negative exponent -ℤ ℤ.pos 1)))
        m count 0

-- `verba_g`, on fuel for its loop.
unfoldable pub g : ℕ → Verba → ℕ → ℕ → Option Verba
g fuel v bits asked =
    let sig = if asked == 0 then 1 else if ltb g_max_sig asked then g_max_sig else asked in
    let signed = if not (sign bits == 0) then ch v b'-' else v in
    let mantissa = full_mant bits in
    let scale = scale_of bits in
    let exponent = shift_down (times (difference 63 (lead mantissa) +ℤ scale) 78913) 18 in
    let cursor = difference sig 1 -ℤ exponent in
    if exp bits == exp_all
    then some (non_finite v bits)
    else if (exp bits == 0) && (mant bits == 0)
    then some (ch signed b'0')
    else elim (g_fit fuel mantissa scale (get_or pow10 sig 0) exponent cursor) [
      | some (m, e) ↦ some (g_form signed sig (g_trim m sig) e)
      | none ↦ none
    ]

-- The whole part of a double below 2 ^ 64 and what is left of its mantissa.
unfoldable pub parts : ℕ → ℤ → ℕ × ℕ
parts m (ℤ.pos up) = (m * 2 ^ up % 2 ^ 64, 0)
parts m (ℤ.negsuc k) =
    let shift = k + 1 in
    let int_part = m / 2 ^ shift in
    if ltb shift 64 then (int_part, m - int_part * 2 ^ shift) else (0, m)

-- The two numbers of `verba_fixed`.
unfoldable pub fixed_form : Verba → ℕ → ℕ → ℕ → Verba
fixed_form v decimals int_part frac =
    let whole = uint v int_part 10 1 in
    if decimals == 0 then whole else uint (ch whole b'.') frac 10 decimals

-- `verba_fixed`.
unfoldable pub fixed : ℕ → Verba → ℕ → ℕ → Option Verba
fixed fuel v bits asked =
    let negated = not (sign bits == 0) in
    let value = if negated then bit_xor bits sign_mask else bits in
    let signed = if negated then ch v b'-' else v in
    let decimals = if ltb fixed_max_decimals asked then fixed_max_decimals else asked in
    let exp2 = scale_of bits in
    let (int_part, rem) = parts (full_mant bits) exp2 in
    let frac = scale_to_u64 rem exp2 (ℤ.pos decimals) in
    if exp bits == exp_all
    then some (non_finite v bits)
    else if leb (bias + 64) (exp bits)
    then g fuel signed value 10
    else if leb (get_or pow10 decimals 0) frac
    then some (fixed_form signed decimals ((int_part + 1) % 2 ^ 64) 0)
    else some (fixed_form signed decimals int_part frac)
