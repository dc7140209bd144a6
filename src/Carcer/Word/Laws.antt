-- ===== src/Carcer/Word/Laws.antt =====
-- The masks and packed words of src/locus_carcerum as plain arithmetic.
use mmgr.Prelude.{ℕ, ◌+◌, ◌-◌, ◌*◌, ◌/◌, ◌%◌, ◌^◌, ◌<◌, bit_and, bit_or, ◌≡◌, refl, arith}
use mmgr.Prelude.{Bool, true, false, inl, inr, Bool-cases, if◌then◌else◌, ◌==◌, not}
use mmgr.Prelude.Bits.{
  bit_or_bit_set, bit_or_bit_clear, bit_and_mask, bit_and_shift, bit_or_fields, bit_or-zero,
  bit_and-zero, zero-bit_or,
}
use mmgr.Carcer.Word.{all, pick, round, cell_want, pack_bounds, bounds_end}
use mmgr.Carcer.Word.{bounds_top, header, header_size, header_state, foot_of, end_of, owner_word}
use mmgr.Carcer.Word.{owner_word_place, owner_is, is_complete}

-- A pick by the mask of a test is the conditional.
pub pick-all :
    (t : Bool) (a b : ℕ) → a < 2 ^ 64 → b < 2 ^ 64 → pick (all t) a b ≡ (if t then a else b)
unfolding pick all
pick-all true a b ha hb =
    ground (arith, bit_and_mask 64 a, bit_and-zero b, bit_or-zero (bit_and a (2 ^ 64 - 1)))
pick-all false a b ha hb =
    ground (arith, bit_and_mask 64 b, bit_and-zero a, zero-bit_or (bit_and b (2 ^ 64 - 1)))

-- Rounding is to the next multiple of 8, below the wrap.
pub round_lem : (w : ℕ) → w + 7 < 2 ^ 64 → round w ≡ (w + 7) / 8 * 8
unfolding round
round_lem w h =
    let e : (w + 7) % 2 ^ 64 ≡ w + 7 = omega arith in
    rw e (omega (arith, bit_and_shift 3 (w + 7) (2 ^ 61 - 1), bit_and_mask 61 ((w + 7) / 8)))

pub cell_want_lem : (w : ℕ) → w + 7 < 2 ^ 64 → cell_want w ≡ (if w == 0 then 8 else (w + 7) / 8 * 8)
unfolding cell_want
cell_want_lem w h = ground (arith, pick-all (not (w == 0)) w 8, round_lem w, round_lem 8)

pub pack_bounds_lem : (e t : ℕ) → pack_bounds e t ≡ t % 2 ^ 32 * 2 ^ 32 + e % 2 ^ 32
unfolding pack_bounds
pack_bounds_lem e t =
    let f : t * 2 ^ 32 % 2 ^ 64 ≡ t % 2 ^ 32 * 2 ^ 32 = omega arith in
    rw (bit_and_mask 32 e) (rw f (bit_or_fields 32 (t % 2 ^ 32) (e % 2 ^ 32) (omega arith)))

pub bounds_end_lem : (w : ℕ) → bounds_end w ≡ w % 2 ^ 32
unfolding bounds_end
bounds_end_lem w = bit_and_mask 32 w

pub bounds_top_lem : (w : ℕ) → bounds_top w ≡ w / 2 ^ 32
unfolding bounds_top
bounds_top_lem w = refl

pub header_lem : (n s : ℕ) → n < 2 ^ 62 → s < 4 → header n s ≡ n * 4 + s
unfolding header
header_lem n s hn hs =
    let e : n * 4 % 2 ^ 64 ≡ n * 4 = omega arith in rw e (bit_or_fields 2 n s (omega arith))

pub header_size_lem : (w : ℕ) → header_size w ≡ w / 4
unfolding header_size
header_size_lem w = refl

pub header_state_lem : (w : ℕ) → header_state w ≡ w % 4
unfolding header_state
header_state_lem w = bit_and_mask 2 w

pub foot_of_lem : (off n : ℕ) → off + n + 8 < 2 ^ 64 → foot_of off n ≡ off + 8 + n
unfolding foot_of
foot_of_lem off n h = omega arith

pub end_of_lem : (off n : ℕ) → off + n + 16 < 2 ^ 64 → end_of off n ≡ off + 16 + n
unfolding end_of
end_of_lem off n h = omega arith

pub owner_word_lem : (p t : ℕ) → p < 256 → owner_word p t ≡ p * 2 ^ 56 + t % 2 ^ 52
unfolding owner_word
owner_word_lem p t hp =
    let e : p * 2 ^ 56 % 2 ^ 64 ≡ p * 2 ^ 56 = omega arith in
    rw (bit_and_mask 52 t) (rw e (bit_or_fields 56 p (t % 2 ^ 52) (omega arith)))

place_field : (w : ℕ) → bit_and w (255 * 2 ^ 56) ≡ w / 2 ^ 56 % 2 ^ 8 * 2 ^ 56
place_field w = omega (arith, bit_and_shift 56 w 255, bit_and_mask 8 (w / 2 ^ 56))

pub owner_word_place_lem : (w : ℕ) → w < 2 ^ 64 → owner_word_place w ≡ w / 2 ^ 56
unfolding owner_word_place
owner_word_place_lem w h = omega (arith, place_field w)

pub owner_is_lem : (w p : ℕ) → w < 2 ^ 64 → p < 256 → owner_is w p ≡ (w / 2 ^ 56 == p)
unfolding owner_is
owner_is_lem w p hw hp = ground (arith, place_field w)

complete_field : (w : ℕ) → bit_and w (2 ^ 55) ≡ w / 2 ^ 55 % 2 * 2 ^ 55
complete_field w = omega (arith, bit_and_shift 55 w 1, bit_and_mask 1 (w / 2 ^ 55))

pub is_complete_lem : (w : ℕ) → is_complete w ≡ (w / 2 ^ 55 % 2 == 1)
unfolding is_complete
is_complete_lem w = ground (arith, complete_field w)

pub bit_or_complete : (w : ℕ) → bit_or w (2 ^ 55) ≡ (if w / 2 ^ 55 % 2 == 1 then w else w + 2 ^ 55)
bit_or_complete w = elim (Bool-cases (w / 2 ^ 55 % 2 == 1)) [
  | inl e ↦ ground (arith, bit_or_bit_set 55 w)
  | inr e ↦ ground (arith, bit_or_bit_clear 55 w)
]
