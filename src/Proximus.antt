-- ===== src/Proximus.antt =====
-- src/proximus_operor: loads and stores at any alignment, and the copy by words. The target is
-- little-endian with 64-bit words; bytes stand in a memory by address, and a run of bytes does not wrap.
-- A load at an alignment and one without are the same load.
pub mod Copy
pub mod Frame
mod Tests
use mmgr.Prelude.{ℕ, zero, suc, ◌+◌, ◌-◌, ◌*◌, ◌/◌, ◌%◌, ◌^◌, bit_and}
use mmgr.Prelude.{Bool, true, false, if◌then◌else◌, ◌==◌, ltb}
use mmgr.Prelude.Store.{load, store, update}
use mmgr.Carcer.Word.{sub64, not64}

unfoldable pub load16 : (ℕ → ℕ) → ℕ → ℕ
load16 m at = load 2 m at

unfoldable pub load32 : (ℕ → ℕ) → ℕ → ℕ
load32 m at = load 4 m at

unfoldable pub load64 : (ℕ → ℕ) → ℕ → ℕ
load64 m at = load 8 m at

-- `proxim_load` and `aequus_load`: an `embed_word`.
unfoldable pub load_word : (ℕ → ℕ) → ℕ → ℕ
load_word m at = load 8 m at

unfoldable pub put16 : (ℕ → ℕ) → ℕ → ℕ → ℕ → ℕ
put16 m dst val = store 2 m dst (val % 2 ^ 16)

unfoldable pub put32 : (ℕ → ℕ) → ℕ → ℕ → ℕ → ℕ
put32 m dst val = store 4 m dst (val % 2 ^ 32)

unfoldable pub put64 : (ℕ → ℕ) → ℕ → ℕ → ℕ → ℕ
put64 m dst val = store 8 m dst val

-- `proxim_put` and `aequus_put`: an `embed_word`.
unfoldable pub put_word : (ℕ → ℕ) → ℕ → ℕ → ℕ → ℕ
put_word m dst val = store 8 m dst val

-- `ProximReadCtx`, with the memory that it works on.
pub record Reading : Type 0 where
  pub memory : ℕ → ℕ
  pub dst : ℕ
  pub src : ℕ
  pub bytes : ℕ

-- The loops `*args->dst++ = *args->src++` of `proxim_head` and `proxim_tail`.
unfoldable pub byte_loop : ℕ → Reading → Reading
byte_loop zero r = r
byte_loop (suc n) r =
    byte_loop n (record r {
      memory = update r.memory r.dst (r.memory r.src);
      dst = r.dst + 1;
      src = r.src + 1;
    })

-- The loops of `proxim_words`, by the words left; both load and store a word alike.
unfoldable pub word_loop : ℕ → Reading → Reading
word_loop zero r = r
word_loop (suc n) r = word_loop n (record r {
  memory = put_word r.memory r.dst (load_word r.memory r.src);
  dst = r.dst + 8;
  src = r.src + 8;
})

-- `proxim_head`: the bytes up to a word boundary of the destination.
unfoldable pub head : Reading → Reading
head r =
    let skew = bit_and (sub64 0 r.dst) 7 in
    let remaining = if ltb skew r.bytes then skew else r.bytes in
    if remaining == 0 then r else byte_loop remaining (record r { bytes = r.bytes - remaining })

-- `proxim_words`.
unfoldable pub words : Reading → Reading
words r =
    let word_bytes = bit_and r.bytes (not64 7) in
    if word_bytes == 0
    then r
    else word_loop (word_bytes / 8) (record r { bytes = r.bytes - word_bytes })

-- `proxim_tail`.
unfoldable pub tail : Reading → Reading
tail r = if r.bytes == 0 then r else byte_loop r.bytes r

-- `proxim_read`.
unfoldable pub read : Reading → Reading
read r = tail (words (head r))
