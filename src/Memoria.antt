-- ===== src/Memoria.antt =====
-- src/memoria_operor: copy, move and fill by words, in a build without vectors
-- (MMGR_VECTOR_BYTES is 0) and with 64-bit words. A run of bytes does not wrap.
pub mod Copy
pub mod Up
pub mod Fill
pub mod Search
pub mod Marks
pub mod Found
mod Tests
use mmgr.Prelude.{ℕ, zero, suc, ◌+◌, ◌-◌, ◌*◌, ◌/◌, ◌%◌, ◌^◌, bit_and}
use mmgr.Prelude.{Bool, true, false, if◌then◌else◌, ◌==◌}
use mmgr.Prelude.Store.{update}
use mmgr.Proximus.{Reading, put_word, load_word}

-- A word of the source carried to the same place of the destination.
unfoldable pub carry : ℕ → Reading → Reading
carry o r = record r { memory = put_word r.memory (r.dst + o) (load_word r.memory (r.src + o)) }

-- The loop of `memor_cpy` over four words a round, and the one over a word.
unfoldable pub cpy_quads : ℕ → Reading → Reading
cpy_quads zero r = r
cpy_quads (suc n) r =
    let r' = carry 24 (carry 16 (carry 8 (carry 0 r))) in
    cpy_quads n (record r' { dst = r'.dst + 32; src = r'.src + 32 })

unfoldable pub cpy_words : ℕ → Reading → Reading
cpy_words zero r = r
cpy_words (suc n) r =
    let r' = carry 0 r in cpy_words n (record r' { dst = r'.dst + 8; src = r'.src + 8 })

unfoldable pub cpy_bytes : ℕ → Reading → Reading
cpy_bytes zero r = r
cpy_bytes (suc n) r =
    cpy_bytes n (record r {
      memory = update r.memory r.dst (r.memory r.src);
      dst = r.dst + 1;
      src = r.src + 1;
    })

-- `memor_cpy`: a round of the first loop takes 32 bytes while as many are left, one of the second 8.
unfoldable pub cpy : Reading → Reading
cpy r =
    let tail_bytes = bit_and r.bytes 7 in
    let word_bytes = r.bytes - tail_bytes in
    cpy_bytes tail_bytes (cpy_words (word_bytes % 32 / 8) (cpy_quads (word_bytes / 32) r))

-- The loops of `memor_move_up`, from the end down. Four words are loaded ahead of their stores.
unfoldable pub up_bytes : ℕ → Reading → Reading
up_bytes zero r = r
up_bytes (suc n) r = up_bytes n (record r {
  memory = update r.memory (r.dst - 1) (r.memory (r.src - 1));
  dst = r.dst - 1;
  src = r.src - 1;
})

unfoldable pub up_quad : Reading → Reading
up_quad r =
    let dst = r.dst - 32 in
    let src = r.src - 32 in
    let word_three = load_word r.memory (src + 24) in
    let word_two = load_word r.memory (src + 16) in
    let word_one = load_word r.memory (src + 8) in
    let word_zero = load_word r.memory src in
    let m3 = put_word r.memory (dst + 24) word_three in
    let m2 = put_word m3 (dst + 16) word_two in
    let m1 = put_word m2 (dst + 8) word_one in
    record r { memory = put_word m1 dst word_zero; dst = dst; src = src }

unfoldable pub up_quads : ℕ → Reading → Reading
up_quads zero r = r
up_quads (suc n) r = up_quads n (up_quad r)

unfoldable pub up_words : ℕ → Reading → Reading
up_words zero r = r
up_words (suc n) r =
    let dst = r.dst - 8 in
    let src = r.src - 8 in
    up_words n
      (record r { memory = put_word r.memory dst (load_word r.memory src); dst = dst; src = src })

-- `memor_move_up`.
unfoldable pub move_up : Reading → Reading
move_up r =
    let tail_bytes = bit_and r.bytes 7 in
    let word_bytes = r.bytes - tail_bytes in
    let past = record r { dst = r.dst + r.bytes; src = r.src + r.bytes } in
    up_words (word_bytes % 32 / 8) (up_quads (word_bytes / 32) (up_bytes tail_bytes past))

-- `MemorSetCtx`, with the memory.
pub record Filling : Type 0 where
  pub memory : ℕ → ℕ
  pub dst : ℕ
  pub bytes : ℕ
  pub val : ℕ

-- `MMGR_SWAR_ONES` times the byte.
unfoldable pub fill_word : ℕ → ℕ
fill_word val = 0x0101_0101_0101_0101 * val % 2 ^ 64

unfoldable pub set_quads : ℕ → Filling → Filling
set_quads zero f = f
set_quads (suc n) f =
    let fill = fill_word f.val in
    let m0 = put_word f.memory f.dst fill in
    let m1 = put_word m0 (f.dst + 8) fill in
    let m2 = put_word m1 (f.dst + 16) fill in
    set_quads n (record f { memory = put_word m2 (f.dst + 24) fill; dst = f.dst + 32 })

unfoldable pub set_words : ℕ → Filling → Filling
set_words zero f = f
set_words (suc n) f =
    set_words n (record f { memory = put_word f.memory f.dst (fill_word f.val); dst = f.dst + 8 })

unfoldable pub set_bytes : ℕ → Filling → Filling
set_bytes zero f = f
set_bytes (suc n) f =
    set_bytes n (record f { memory = update f.memory f.dst f.val; dst = f.dst + 1 })

-- `memor_set`.
unfoldable pub set : Filling → Filling
set f =
    let tail_bytes = bit_and f.bytes 7 in
    let word_bytes = f.bytes - tail_bytes in
    set_bytes tail_bytes (set_words (word_bytes % 32 / 8) (set_quads (word_bytes / 32) f))
