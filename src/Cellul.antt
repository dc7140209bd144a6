-- ===== src/Cellul.antt =====
-- src/cellularum_laboro: the length of a text in a bounded run of bytes, in a build without vectors. A
-- word is loaded alike at an alignment and without one. A place is counted from the text's start.
mod Tests
pub mod Len
use mmgr.Prelude.{ℕ, zero, suc, ◌+◌, ◌-◌, ◌*◌, ◌/◌, ◌%◌, ◌^◌, bit_and}
use mmgr.Prelude.{Bool, if◌then◌else◌, ◌==◌, ltb, leb, ◌&&◌, ◌||◌, Option, none, some}
use mmgr.Scrutor.{has_zero, lane_lo, lanes_below, scrut_load, swar_bytes}
use mmgr.Memoria.Search.{or_else}

unfoldable pub is_ws : ℕ → Bool
is_ws ch = leb ((ch + 2 ^ 32 - 9) % 2 ^ 32) 4 || (ch == 32)

unfoldable pub is_digit : ℕ → Bool
is_digit ch = leb b'0' ch && leb ch b'9'

unfoldable pub head_bytes : ℕ → ℕ → ℕ
head_bytes start cap =
    let off = bit_and start (swar_bytes - 1) in
    let need = if off == 0 then 0 else swar_bytes - off in if ltb cap need then cap else need

-- The loops of `cellul_len`: bytes up to a word boundary, two words a round, and single words.
unfoldable pub len_bytes : ℕ → (ℕ → ℕ) → ℕ → ℕ → Option ℕ
len_bytes zero m src at = none
len_bytes (suc n) m src at =
    let rest = len_bytes n m src (at + 1) in if m (src + at) == 0 then some at else rest

unfoldable pub len_pairs : ℕ → (ℕ → ℕ) → ℕ → ℕ → Option ℕ
len_pairs zero m src at = none
len_pairs (suc n) m src at =
    let rest = len_pairs n m src (at + 2 * swar_bytes) in
    let first_word = scrut_load m (src + at) in
    let second_word = scrut_load m (src + at + swar_bytes) in
    let first_zero_lanes = has_zero first_word in
    let second_zero_lanes = has_zero second_word in
    if first_zero_lanes == 0
    then if second_zero_lanes == 0 then rest else some (at + swar_bytes + lane_lo second_zero_lanes)
    else some (at + lane_lo first_zero_lanes)

unfoldable pub len_words : ℕ → (ℕ → ℕ) → ℕ → ℕ → Option ℕ
len_words zero m src at = none
len_words (suc n) m src at =
    let rest = len_words n m src (at + swar_bytes) in
    let zero_lanes = has_zero (scrut_load m (src + at)) in
    if zero_lanes == 0 then rest else some (at + lane_lo zero_lanes)

-- The bytes past the last whole word.
unfoldable pub len_rest : (ℕ → ℕ) → ℕ → ℕ → ℕ → Option ℕ
len_rest m src at rest =
    let zero_lanes = bit_and (has_zero (scrut_load m (src + at))) (lanes_below rest) in
    if rest == 0 then none else if zero_lanes == 0 then none else some (at + lane_lo zero_lanes)

-- `cellul_len`: two words a round while as many are left, then one at most.
unfoldable pub len : (ℕ → ℕ) → ℕ → ℕ → ℕ
len m src cap =
    let lead = head_bytes src cap in
    let words = (cap - lead) / swar_bytes in
    let full = lead + words * swar_bytes in
    let found = or_else (len_bytes lead m src 0) (
      or_else (len_pairs (words / 2) m src lead) (
        or_else (len_words (words % 2) m src (lead + words / 2 * (2 * swar_bytes)))
          (len_rest m src full (cap - full)))) in
    elim found [ some at ↦ at | none ↦ cap ]
