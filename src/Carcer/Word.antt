-- ===== src/Carcer/Word.antt =====
-- The words of src/locus_carcerum: masks, rounding, the bounds word, a cell's header and its owner
-- word. The target is one with 64-bit `size_t` and `embed_word`: MMGR_CARCER_ALIGN is 8, and
-- MMGR_CARCER_OWNERS is at its default, 128. A word is a number below 2 ^ 64.
pub mod Laws
use mmgr.Prelude.{ℕ, ◌+◌, ◌-◌, ◌*◌, ◌/◌, ◌%◌, ◌^◌, bit_and, bit_or}
use mmgr.Prelude.{Bool, true, false, not, if◌then◌else◌, ◌==◌, ltb, leb}

-- `size_t` addition, subtraction and complement, and a left shift that drops what leaves the word.
unfoldable pub add64 : ℕ → ℕ → ℕ
add64 a b = (a + b) % 2 ^ 64

unfoldable pub sub64 : ℕ → ℕ → ℕ
sub64 a b = (a + 2 ^ 64 - b) % 2 ^ 64

unfoldable pub not64 : ℕ → ℕ
not64 a = 2 ^ 64 - 1 - a

unfoldable pub shl64 : ℕ → ℕ → ℕ
shl64 a k = a * 2 ^ k % 2 ^ 64

-- The step of offsets, a cell's word, and the two words that a cell costs.
abbrev pub align : ℕ
align = 8

abbrev pub cell_word : ℕ
cell_word = 8

abbrev pub cell_hdr : ℕ
cell_hdr = 16

abbrev pub half_bits : ℕ
half_bits = 32

abbrev pub half_mask : ℕ
half_mask = 2 ^ 32 - 1

-- MMGR_CARCER_BYTES_MOST and MMGR_CARCER_WANT_MOST.
abbrev pub bytes_most : ℕ
bytes_most = 2 ^ 31

abbrev pub want_most : ℕ
want_most = 2 ^ 24

abbrev pub free_state : ℕ
free_state = 0

abbrev pub busy_state : ℕ
busy_state = 1

-- `carcer_all`: every bit set where the test holds.
unfoldable pub all : Bool → ℕ
unfolding sub64
all set = sub64 0 (if set then 1 else 0)

-- `carcer_pick`: one of two counts by a mask.
unfoldable pub pick : ℕ → ℕ → ℕ → ℕ
unfolding not64
pick mask when_set when_clear = bit_or (bit_and when_set mask) (bit_and when_clear (not64 mask))

-- `carcer_round`.
unfoldable pub round : ℕ → ℕ
unfolding add64 not64
round want = bit_and (add64 want (align - 1)) (not64 (align - 1))

-- `carcer_want`: the payload that a cell carries for a request.
unfoldable pub cell_want : ℕ → ℕ
unfolding all pick round
cell_want want = round (pick (all (not (want == 0))) want align)

-- `carcer_bounds`, `carcer_bounds_end` and `carcer_bounds_top`.
unfoldable pub pack_bounds : ℕ → ℕ → ℕ
unfolding shl64
pack_bounds end top = bit_or (shl64 top half_bits) (bit_and end half_mask)

unfoldable pub bounds_end : ℕ → ℕ
bounds_end word = bit_and word half_mask

unfoldable pub bounds_top : ℕ → ℕ
bounds_top word = word / 2 ^ half_bits

-- `carcer_word`, `carcer_word_size` and `carcer_word_state`.
unfoldable pub header : ℕ → ℕ → ℕ
unfolding shl64
header size state = bit_or (shl64 size 2) state

unfoldable pub header_size : ℕ → ℕ
header_size word = word / 2 ^ 2

unfoldable pub header_state : ℕ → ℕ
header_state word = bit_and word 3

-- `carcer_foot_of` and `carcer_end_of`.
unfoldable pub foot_of : ℕ → ℕ → ℕ
unfolding add64
foot_of off size = add64 (add64 off cell_word) size

unfoldable pub end_of : ℕ → ℕ → ℕ
unfolding add64
end_of off size = add64 (add64 off cell_hdr) size

-- The owner word: 52 bits of time, 3 of signal, the completion bit, 8 of the owner's place.
abbrev pub time_mask : ℕ
time_mask = 2 ^ 52 - 1

abbrev pub complete : ℕ
complete = 2 ^ 55

abbrev pub place_mask : ℕ
place_mask = 255 * 2 ^ 56

-- `carcer_owner_word`, at a place and a reading of the port's clock.
unfoldable pub owner_word : ℕ → ℕ → ℕ
unfolding shl64
owner_word place now = bit_or (shl64 place 56) (bit_and now time_mask)

-- `carcer_owner_place`: the place that an owner word names.
unfoldable pub owner_word_place : ℕ → ℕ
owner_word_place named = bit_and named place_mask / 2 ^ 56

-- `carcer_owner_is`: whether an owner word names the place.
unfoldable pub owner_is : ℕ → ℕ → Bool
unfolding shl64
owner_is named place = bit_and named place_mask == shl64 place 56

-- The test of the completion bit.
unfoldable pub is_complete : ℕ → Bool
is_complete named = not (bit_and named complete == 0)
