-- ===== src/Memoria/Search.antt =====
-- `memor_cmp` and `memor_chr` of src/memoria_operor, in a build without vectors. A word is loaded alike
-- at an alignment and without one.
use mmgr.Prelude.{ℕ, zero, suc, ◌+◌, ◌-◌, ◌*◌, ◌/◌, bit_and, bit_xor}
use mmgr.Prelude.{if◌then◌else◌, ◌==◌, ltb, Option, none, some}
use mmgr.Carcer.Word.{sub64, not64}
use mmgr.Proximus.{load_word}
use mmgr.Scrutor.{has_zero, lane_lo, lanes_below, broadcast, high, swar_bytes}

-- `memor_head_bytes`.
unfoldable pub head_bytes : ℕ → ℕ → ℕ
head_bytes at bytes =
    let past_boundary = bit_and at (swar_bytes - 1) in
    let to_boundary = if past_boundary == 0 then 0 else swar_bytes - past_boundary in
    if ltb bytes to_boundary then bytes else to_boundary

unfoldable pub diff_lanes : ℕ → ℕ
diff_lanes difference = bit_and high (not64 (has_zero difference))

-- The loops of `memor_cmp` over words: the place of the first byte that differs.
unfoldable pub cmp_words : ℕ → (ℕ → ℕ) → ℕ → ℕ → ℕ → Option ℕ
cmp_words zero m src other at = none
cmp_words (suc n) m src other at =
    let rest = cmp_words n m src other (at + swar_bytes) in
    let src_word = load_word m (src + at) in
    let other_word = load_word m (other + at) in
    if src_word == other_word
    then rest
    else some (at + lane_lo (diff_lanes (bit_xor src_word other_word)))

-- The bytes past the last whole word.
unfoldable pub cmp_rest : (ℕ → ℕ) → ℕ → ℕ → ℕ → ℕ → Option ℕ
cmp_rest m src other at rest =
    let difference = bit_xor (load_word m (src + at)) (load_word m (other + at)) in
    let differing = bit_and (diff_lanes difference) (lanes_below rest) in
    if rest == 0 then none else if differing == 0 then none else some (at + lane_lo differing)

-- `memor_cmp`: the difference of the first bytes that differ, as the word of an `embed_iword`.
unfoldable pub cmp : (ℕ → ℕ) → ℕ → ℕ → ℕ → ℕ
cmp m src other bytes =
    let full = bytes / swar_bytes * swar_bytes in
    let told : ℕ → ℕ = λ first_diff. sub64 (m (src + first_diff)) (m (other + first_diff)) in
    elim (cmp_words (bytes / swar_bytes) m src other 0) [
      | some first_diff ↦ told first_diff
      | none ↦ elim (cmp_rest m src other full (bytes - full)) [
        | some first_diff ↦ told first_diff
        | none ↦ 0
      ]
    ]

-- The place that is found, or what the rest of a search tells.
abbrev pub or_else : Option ℕ → Option ℕ → Option ℕ
or_else none other = other
or_else (some a) other = some a

-- The loops of `memor_chr`.
unfoldable pub chr_bytes : ℕ → (ℕ → ℕ) → ℕ → ℕ → Option ℕ
chr_bytes zero m at val = none
chr_bytes (suc n) m at val =
    let rest = chr_bytes n m (at + 1) val in if m at == val then some at else rest

unfoldable pub chr_words : ℕ → (ℕ → ℕ) → ℕ → ℕ → Option ℕ
chr_words zero m at val = none
chr_words (suc n) m at val =
    let rest = chr_words n m (at + swar_bytes) val in
    let matching = has_zero (bit_xor (load_word m at) (broadcast val)) in
    if matching == 0 then rest else some (at + lane_lo matching)

unfoldable pub chr_rest : (ℕ → ℕ) → ℕ → ℕ → ℕ → Option ℕ
chr_rest m at val rest =
    let matching =
      bit_and (has_zero (bit_xor (load_word m at) (broadcast val))) (lanes_below rest) in
    if rest == 0 then none else if matching == 0 then none else some (at + lane_lo matching)

-- `memor_chr`: the address of the byte, where there is one.
unfoldable pub chr : (ℕ → ℕ) → ℕ → ℕ → ℕ → Option ℕ
chr m src val bytes =
    let lead = head_bytes src bytes in
    let words = (bytes - lead) / swar_bytes in
    let full = lead + words * swar_bytes in
    or_else (chr_bytes lead m src val)
      (or_else (chr_words words m (src + lead) val) (chr_rest m (src + full) val (bytes - full)))
