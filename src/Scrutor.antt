-- ===== src/Scrutor.antt =====
-- src/verbum_scrutor: the lanes of a word, a byte each, on a little-endian target with 64-bit words; the
-- count of lanes is that of a build without the builtin. A mask has the high bit of each lane it marks.
pub mod Laws
pub mod Fold
mod Tests
use mmgr.Prelude.{ℕ, zero, suc, ◌+◌, ◌-◌, ◌*◌, ◌/◌, ◌%◌, ◌^◌, bit_and, bit_or, bit_xor}
use mmgr.Prelude.{Bool, true, false, not, if◌then◌else◌, ◌==◌, ltb, leb}
use mmgr.Carcer.Word.{add64, sub64, not64, shl64}
use mmgr.Proximus.{load_word}

-- MMGR_SWAR_ONES, MMGR_VERBUM_SCRUTOR_HIGH, MMGR_SWAR_LOW7 and MMGR_SWAR_BYTES.
abbrev pub ones : ℕ
ones = 0x0101_0101_0101_0101

abbrev pub high : ℕ
high = 0x8080_8080_8080_8080

abbrev pub low7 : ℕ
low7 = 0x7F7F_7F7F_7F7F_7F7F

abbrev pub swar_bytes : ℕ
swar_bytes = 8

-- A byte in each lane.
unfoldable pub broadcast : ℕ → ℕ
broadcast byte = ones * byte % 2 ^ 64

unfoldable pub below_lo : ℕ → ℕ
below_lo mask = bit_and (bit_and (sub64 mask 1) (not64 mask)) high

-- The loop of `scrut_smear`, at shifts of 8, 16 and 32.
unfoldable pub smear : ℕ → ℕ
smear mask =
    let by_8 = bit_or mask (mask / 2 ^ 8) in
    let by_16 = bit_or by_8 (by_8 / 2 ^ 16) in bit_or by_16 (by_16 / 2 ^ 32)

unfoldable pub ge : ℕ → ℕ → ℕ
ge word byte = bit_or (bit_and word high) (bit_and (sub64 (bit_or word high) (broadcast byte)) high)

unfoldable pub le : ℕ → ℕ → ℕ
le word byte =
    bit_and (not64 word)
      (bit_and (sub64 (bit_or (broadcast byte) high) (bit_and word (not64 high))) high)

unfoldable pub sub7 : ℕ → ℕ → ℕ
sub7 word byte = bit_and (sub64 (bit_or word high) (broadcast byte)) low7

unfoldable pub has_zero : ℕ → ℕ
has_zero word = bit_and (not64 (bit_or (add64 (bit_and word low7) low7) word)) high

unfoldable pub alpha : ℕ → ℕ
alpha word =
    let lo = bit_or word (broadcast 0x20) in
    let in_range = bit_and lo low7 in
    bit_and (bit_and (ge in_range 0x61) (le in_range 0x7A)) (not64 lo)

-- `scrut_xor`, where `ci` asks for letters of either case.
unfoldable pub xor : ℕ → ℕ → Bool → ℕ
xor word val ci =
    let diff = bit_xor word val in if not ci then diff else bit_and diff (not64 (alpha word / 4))

unfoldable pub eq : ℕ → ℕ → Bool → ℕ
eq word byte ci = has_zero (xor word (broadcast byte) ci)

unfoldable pub fam_eq : ℕ → ℕ → ℕ → ℕ
fam_eq word fam byte =
    has_zero (bit_xor (bit_and word (broadcast fam)) (broadcast (bit_and byte fam)))

unfoldable pub any_upper : ℕ → ℕ
any_upper word = fam_eq word 0x60 0x40

unfoldable pub any_digit : ℕ → ℕ
any_digit word = fam_eq word 0xF0 0x30

unfoldable pub lane_count : ℕ → ℕ
lane_count mask = mask / 2 ^ 7 * ones % 2 ^ 64 / 2 ^ 56

unfoldable pub lane_lo : ℕ → ℕ
lane_lo mask = lane_count (below_lo mask)

unfoldable pub lane_hi : ℕ → ℕ
lane_hi mask = if mask == 0 then swar_bytes else sub64 (lane_count (smear mask)) 1

unfoldable pub spread : ℕ → ℕ
spread mask = add64 mask (sub64 mask (mask / 2 ^ 7))

unfoldable pub drop_lo : ℕ → ℕ
drop_lo mask = bit_and mask (sub64 mask 1)

unfoldable pub drop_hi : ℕ → ℕ
drop_hi mask = let smeared = smear mask in bit_and mask (not64 (bit_xor smeared (smeared / 2 ^ 8)))

unfoldable pub bytes_below : ℕ → ℕ
bytes_below bytes =
    let all = 2 ^ 64 - 1 in
    if bytes == 0
    then 0
    else if leb swar_bytes bytes
    then all
    else all / 2 ^ ((swar_bytes - bytes) * 8)

unfoldable pub lanes_below : ℕ → ℕ
lanes_below bytes = bit_and (bytes_below bytes) high

unfoldable pub tail_mask : ℕ → ℕ → ℕ
tail_mask bytes wi =
    let done = wi * swar_bytes % 2 ^ 64 in if leb bytes done then 0 else lanes_below (bytes - done)

unfoldable pub lanes_before : ℕ → ℕ
lanes_before mask = below_lo mask

-- The loop of `scrut_run`; `have` at least doubles or ends it, and bytes are 8 at most.
unfoldable pub run_loop : ℕ → ℕ → ℕ → ℕ → ℕ
run_loop zero bytes have starts = starts
run_loop (suc f) bytes have starts =
    let step = if ltb have (bytes - have) then have else bytes - have in
    let rest = run_loop f bytes (have + step) (bit_and starts (starts / 2 ^ (step * 8))) in
    if ltb have bytes then rest else starts

unfoldable pub run : ℕ → ℕ → ℕ
run mask bytes = if ltb swar_bytes bytes then 0 else run_loop 4 bytes 1 mask

unfoldable pub run_edge : ℕ → ℕ
run_edge bytes =
    if leb bytes 1
    then 0
    else if ltb swar_bytes bytes
    then 0
    else bit_and high (not64 (lanes_below (swar_bytes - bytes + 1)))

-- `scrut_load` and `scrut_load_al`.
unfoldable pub scrut_load : (ℕ → ℕ) → ℕ → ℕ
scrut_load m at = load_word m at

unfoldable pub fold_lower : ℕ → ℕ
fold_lower word = bit_or word (alpha word / 4)

unfoldable pub scrut_words : ℕ → ℕ
scrut_words bytes =
    bytes / swar_bytes + (if not (bit_and bytes (swar_bytes - 1) == 0) then 1 else 0)
