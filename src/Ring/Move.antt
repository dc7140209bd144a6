-- ===== src/Ring/Move.antt =====
-- `ring_move` of src/memoria_anularis: a copy by words, eight at a time and then by halves, with
-- 64-bit words. A run of bytes does not wrap.
use mmgr.Prelude.{ℕ, zero, suc, ◌+◌, ◌-◌, ◌*◌, ◌/◌, ◌%◌, bit_and, not, if◌then◌else◌, ◌==◌}
use mmgr.Prelude.Store.{load, store}
use mmgr.Proximus.{Reading}
use mmgr.Memoria.{carry}

-- RING_COPY_2, RING_COPY_4 and RING_COPY_8, at an offset in bytes.
unfoldable pub copy_2 : ℕ → Reading → Reading
copy_2 o r = carry (o + 8) (carry o r)

unfoldable pub copy_4 : ℕ → Reading → Reading
copy_4 o r = copy_2 (o + 16) (copy_2 o r)

unfoldable pub copy_8 : ℕ → Reading → Reading
copy_8 o r = copy_4 (o + 32) (copy_4 o r)

-- Both places past the words carried.
unfoldable pub advanced : ℕ → Reading → Reading
advanced n r = record r { dst = r.dst + n; src = r.src + n }

unfoldable pub move_eights : ℕ → Reading → Reading
move_eights zero r = r
move_eights (suc n) r = move_eights n (advanced 64 (copy_8 0 r))

-- RING_TAIL, at 4, 2 or 1 bytes.
unfoldable pub ring_tail : ℕ → ℕ → Reading → Reading
ring_tail bytes remainder r =
    if not (bit_and remainder bytes == 0)
    then advanced bytes
        (record r { memory = store bytes r.memory r.dst (load bytes r.memory r.src) })
    else r

unfoldable pub ring_move : Reading → Reading
ring_move r =
    let words = r.bytes / 8 in
    let remainder = r.bytes - words * 8 in
    let left = words % 8 in
    let r8 = move_eights (words / 8) r in
    let r4 = if not (bit_and left 4 == 0) then advanced 32 (copy_4 0 r8) else r8 in
    let r2 = if not (bit_and left 2 == 0) then advanced 16 (copy_2 0 r4) else r4 in
    let r1 = if not (bit_and left 1 == 0) then advanced 8 (carry 0 r2) else r2 in
    ring_tail 1 remainder (ring_tail 2 remainder (ring_tail 4 remainder r1))
