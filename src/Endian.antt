-- ===== src/Endian.antt =====
-- src/endian: numbers written and read in either order of their bytes, on a little-endian target. A
-- width is 2, 4 or 8; the reversal takes any from 1 to 8.
pub mod Reverse
pub mod Trips
mod Tests
use mmgr.Prelude.{ℕ, ◌-◌, ◌*◌, ◌/◌, ◌^◌, bit_and, bit_or, Bool, true, false, if◌then◌else◌, ◌==◌}
use mmgr.Carcer.Word.{shl64}
use mmgr.Proximus.{load16, load32, load64, put16, put32, put64}

-- `endian_put`.
unfoldable pub endian_put : (ℕ → ℕ) → ℕ → ℕ → ℕ → ℕ → ℕ
endian_put m dst val width =
    if width == 2 then put16 m dst val else if width == 4 then put32 m dst val else put64 m dst val

-- `endian_get`.
unfoldable pub endian_get : (ℕ → ℕ) → ℕ → ℕ → ℕ
endian_get m src width =
    if width == 2 then load16 m src else if width == 4 then load32 m src else load64 m src

-- One step of `endian_rev`: the halves of every field of twice the bits exchanged.
unfoldable pub swapped : ℕ → ℕ → ℕ → ℕ
unfolding shl64
swapped bits mask val = bit_or (shl64 (bit_and val mask) bits) (bit_and (val / 2 ^ bits) mask)

-- `endian_rev`.
unfoldable pub rev : ℕ → ℕ → ℕ
unfolding swapped shl64
rev val width =
    let pairs = swapped 8 0x00FF_00FF_00FF_00FF val in
    let quads = swapped 16 0x0000_FFFF_0000_FFFF pairs in
    bit_or (shl64 quads 32) (quads / 2 ^ 32) / 2 ^ (8 * (8 - width))

unfoldable pub wr_le : (ℕ → ℕ) → ℕ → ℕ → ℕ → (ℕ → ℕ) × ℕ
wr_le m dst val width = (endian_put m dst val width, width)

unfoldable pub wr_be : (ℕ → ℕ) → ℕ → ℕ → ℕ → (ℕ → ℕ) × ℕ
wr_be m dst val width = (endian_put m dst (rev val width) width, width)

unfoldable pub rd_le : (ℕ → ℕ) → ℕ → ℕ → ℕ
rd_le m src width = endian_get m src width

unfoldable pub rd_be : (ℕ → ℕ) → ℕ → ℕ → ℕ
rd_be m src width = rev (endian_get m src width) width
