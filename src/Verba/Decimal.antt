-- ===== src/Verba/Decimal.antt =====
-- The decimal digits of src/verba_scribo: their count, the divisions by a product, and the two writers
-- of digits.
pub mod Divide
pub mod Count
pub mod Emit
use mmgr.Prelude.{ℕ, zero, suc, ◌+◌, ◌-◌, ◌*◌, ◌/◌, ◌%◌, ◌^◌, bit_or}
use mmgr.Prelude.{List, [], ◌∷◌, Bool, true, false, if◌then◌else◌, leb, get_or}
use mmgr.Prelude.Store.{update}
use mmgr.Carcer.Word.{add64, sub64}
use mmgr.Clz.{lead}

-- `mmgr_verba_pow10`.
abbrev pub pow10 : List ℕ
pow10 =
    1 ∷ 10 ∷ 100 ∷ 1000 ∷ 10000 ∷ 100000 ∷ 1000000 ∷ 10000000 ∷ 100000000 ∷ 1000000000 ∷ 10000000000
    ∷ 100000000000 ∷ 1000000000000 ∷ 10000000000000 ∷ 100000000000000 ∷ 1000000000000000
    ∷ 10000000000000000 ∷ 100000000000000000 ∷ 1000000000000000000 ∷ 10000000000000000000 ∷ []

-- `mmgr_verba_pairs`: the characters of the pairs 00 to 99, ten to a call of `tens`.
abbrev tens : ℕ → List ℕ → List ℕ
tens t more =
    t ∷ b'0' ∷ t ∷ b'1' ∷ t ∷ b'2' ∷ t ∷ b'3' ∷ t ∷ b'4' ∷ t ∷ b'5' ∷ t ∷ b'6' ∷ t ∷ b'7' ∷ t ∷ b'8'
    ∷ t ∷ b'9' ∷ more

abbrev pub pairs : List ℕ
pairs = tens b'0' (
    tens b'1' (
      tens b'2'
        (tens b'3' (tens b'4' (tens b'5' (tens b'6' (tens b'7' (tens b'8' (tens b'9' [])))))))))

-- `verba_digits10`.
unfoldable pub digits10 : ℕ → ℕ
digits10 value =
    let bits = 64 - lead (bit_or value 1) in
    let est = bits * 1233 / 2 ^ 12 in
    est + (if leb (get_or pow10 est 0) (bit_or value 1) then 1 else 0)

-- `verba_div100`, on 32 bits.
unfoldable pub div100 : ℕ → ℕ
div100 value = value * 0x51EB851F % 2 ^ 64 / 2 ^ 37 % 2 ^ 32

-- MMGR_VERBA_CUT_MAGIC, its halves, and MMGR_VERBA_CUT_SHIFT.
abbrev pub cut_magic : ℕ
cut_magic = 0xABCC77118461CEFD

abbrev pub cut_shift : ℕ
cut_shift = 26

-- `verba_cut8`: the high word of the product, by four products of halves.
unfoldable pub cut8 : ℕ → ℕ
cut8 value =
    let value_lo = value % 2 ^ 32 in
    let value_hi = value / 2 ^ 32 in
    let magic_lo = cut_magic % 2 ^ 32 in
    let magic_hi = cut_magic / 2 ^ 32 in
    let p00 = value_lo * magic_lo % 2 ^ 64 in
    let p01 = value_lo * magic_hi % 2 ^ 64 in
    let p10 = value_hi * magic_lo % 2 ^ 64 in
    let p11 = value_hi * magic_hi % 2 ^ 64 in
    let mid = (p00 / 2 ^ 32 + p01 % 2 ^ 32 + p10 % 2 ^ 32) % 2 ^ 64 in
    let high = (p11 + p01 / 2 ^ 32 + p10 / 2 ^ 32 + mid / 2 ^ 32) % 2 ^ 64 in high / 2 ^ cut_shift

-- `verba_emit10`, by the digits left: two of them a round off the table of pairs.
unfoldable pub emit10 : (ℕ → ℕ) → ℕ → ℕ → ℕ → ℕ → ℕ
emit10 m out value zero = m
emit10 m out value (suc zero) = update m out ((b'0' + value) % 2 ^ 32 % 256)
emit10 m out value (suc (suc index)) =
    let quotient = div100 value in
    let remainder = (value + 2 ^ 32 - quotient * 100 % 2 ^ 32) % 2 ^ 32 in
    let m1 = update m (out + index) (get_or pairs (remainder * 2) 0) in
    let m2 = update m1 (out + index + 1) (get_or pairs (remainder * 2 + 1) 0) in
    emit10 m2 out quotient index

-- MMGR_VERBA_CUT.
abbrev pub cut : ℕ
cut = 8

-- `verba_emit20`: the pieces that fit 32 bits. A count of digits that holds the value is past the cuts.
unfoldable pub emit20 : (ℕ → ℕ) → ℕ → ℕ → ℕ → ℕ → ℕ
emit20 m out value digits =
    let rest = cut8 value in
    let low = sub64 value (rest * get_or pow10 cut 0 % 2 ^ 64) % 2 ^ 32 in
    let top = cut8 rest in
    let mid = sub64 rest (top * get_or pow10 cut 0 % 2 ^ 64) % 2 ^ 32 in
    let m1 =
      if leb rest 0xFFFFFFFF
      then emit10 m out rest (digits - cut)
      else emit10 (emit10 m out (top % 2 ^ 32) (digits - 2 * cut)) (out + (digits - 2 * cut)) mid
          cut in
    if leb value 0xFFFFFFFF
    then emit10 m out value digits
    else emit10 m1 (out + (digits - cut)) low cut
