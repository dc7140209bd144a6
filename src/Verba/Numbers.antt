-- ===== src/Verba/Numbers.antt =====
-- The numbers that src/verba_scribo writes: in three bases, signed, in columns, with a point.
pub mod Digits
pub mod Uint
pub mod Trim
pub mod Padded
use mmgr.Prelude.{ℕ, zero, suc, ◌+◌, ◌-◌, ◌*◌, ◌/◌, ◌%◌, ◌^◌, bit_and}
use mmgr.Prelude.{Bool, true, false, not, ◌&&◌, if◌then◌else◌, ◌==◌, ltb, leb}
use mmgr.Prelude.Store.{update}
use mmgr.Prelude.Int.{ℤ}
use mmgr.Verba.{Verba, room, ch}
use mmgr.Verba.Text.{hex_char}
use mmgr.Verba.Decimal.{digits10, emit20}

-- The spaces of `verba_u64_clip`, from the last down.
unfoldable pub spaces : ℕ → (ℕ → ℕ) → ℕ → ℕ → ℕ
spaces zero m to = m
spaces (suc index) m to = spaces index (update m (to + index) b' ') to

-- `verba_u64_clip`.
unfoldable pub u64_clip : Verba → ℕ → ℕ → Verba
u64_clip v val columns =
    let digits = digits10 val in
    let width = if ltb digits columns then columns else digits in
    let pad = width - digits in
    let m = spaces pad v.memory (v.out + v.at) in
    if not (room v width)
    then v
    else record v { memory = emit20 m (v.out + v.at + pad) val digits; at = v.at + width }

-- The count of `verba_uint` where the base is a power of two: rounds of `probe >>= bits_per_digit`. A
-- 64-bit value takes no more than 21 of them.
unfoldable pub shift_count : ℕ → ℕ → ℕ → ℕ
shift_count zero bits_per_digit probe = 1
shift_count (suc fuel) bits_per_digit probe =
    let shifted = probe / 2 ^ bits_per_digit in
    let rest = shift_count fuel bits_per_digit shifted in if shifted == 0 then 1 else 1 + rest

-- Its digits there, from the last down.
unfoldable pub shift_digits : ℕ → ℕ → (ℕ → ℕ) → ℕ → ℕ → ℕ → ℕ
shift_digits zero bits_per_digit m to value = m
shift_digits (suc index) bits_per_digit m to value =
    shift_digits index bits_per_digit
      (update m (to + index) (hex_char (bit_and value (2 ^ bits_per_digit - 1)))) to
      (value / 2 ^ bits_per_digit)

-- The bits of a digit: 0 where the base is not a power of two.
unfoldable pub bits_per_digit : ℕ → ℕ
bits_per_digit base = if base == 16 then 4 else if base == 8 then 3 else 0

-- The digits that `verba_uint` writes.
unfoldable pub uint_digits : ℕ → ℕ → ℕ → ℕ
uint_digits val base min =
    let bits = bits_per_digit base in
    let digits = if bits == 0 then digits10 val else shift_count 22 bits val in
    if ltb digits min then min else digits

-- `verba_uint`.
unfoldable pub uint : Verba → ℕ → ℕ → ℕ → Verba
uint v val base min =
    let bits = bits_per_digit base in
    let digits = uint_digits val base min in
    let to = v.out + v.at in
    let written =
      if bits == 0
      then emit20 v.memory to val digits
      else shift_digits digits bits v.memory to val in
    if not (room v digits)
    then record v { at = v.cap }
    else record v { memory = written; at = v.at + digits }

-- `verba_u32w`, `verba_hex`, `verba_u32` and `verba_u64`.
unfoldable pub u32w : Verba → ℕ → ℕ → Verba
u32w v val min = uint v val 10 min

unfoldable pub hex : Verba → ℕ → ℕ → Verba
hex v val min = uint v val 16 min

unfoldable pub u32 : Verba → ℕ → Verba
u32 v val = uint v val 10 1

unfoldable pub u64 : Verba → ℕ → Verba
u64 v val = uint v val 10 1

-- `verba_i64`; the magnitude of a negative value is that of `-(value + 1)`, and 1.
unfoldable pub i64 : Verba → ℤ → Verba
i64 v (ℤ.pos n) = uint v n 10 1
i64 v (ℤ.negsuc k) = uint (ch v b'-') (k + 1) 10 1

-- The loop of `verba_zeros`.
unfoldable pub zeros_from : ℕ → (ℕ → ℕ) → ℕ → ℕ → ℕ
zeros_from zero m to = m
zeros_from (suc n) m to = zeros_from n (update m to b'0') (to + 1)

unfoldable pub zeros : Verba → ℕ → Verba
zeros v want =
    if not (room v want)
    then record v { at = v.cap }
    else record v { memory = zeros_from want v.memory (v.out + v.at); at = v.at + want }

-- The loop of `verba_digits`: the digits ahead of the point, a byte back each, the lowest first.
unfoldable pub back_one : ℕ → (ℕ → ℕ) → ℕ → ℕ → ℕ
back_one zero m to = m
back_one (suc n) m to = back_one n (update m to (m (to + 1))) (to + 1)

-- `verba_digits`.
unfoldable pub digits : Verba → ℕ → ℕ → ℕ → Verba
digits v mant count point_after =
    let has_point = not (point_after == 0) && ltb point_after count in
    let width = count + (if has_point then 1 else 0) in
    let to = v.out + v.at in
    let moved = back_one point_after (emit20 v.memory (to + 1) mant count) to in
    let written =
      if has_point then update moved (to + point_after) b'.' else emit20 v.memory to mant count in
    if not (room v width)
    then record v { at = v.cap }
    else record v { memory = written; at = v.at + width }

-- `verba_g_trim`: the digits left, and how many they are. MMGR_VERBA_INV5, MMGR_VERBA_FIFTH_MAX.
abbrev pub inv5 : ℕ
inv5 = 0xCCCCCCCCCCCCCCCD

abbrev pub fifth_max : ℕ
fifth_max = 0x3333333333333333

unfoldable pub g_trim : ℕ → ℕ → ℕ × ℕ
g_trim mant zero = (mant, 0)
g_trim mant (suc zero) = (mant, 1)
g_trim mant (suc (suc left)) =
    let fifth = mant / 2 * inv5 % 2 ^ 64 in
    let rest = g_trim fifth (suc left) in
    if not (bit_and mant 1 == 0)
    then (mant, suc (suc left))
    else if ltb fifth_max fifth
    then (mant, suc (suc left))
    else rest
