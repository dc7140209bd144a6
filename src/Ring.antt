-- ===== src/Ring.antt =====
-- src/memoria_anularis: the ring, with 64-bit counts and 8 loculi (MMGR_RING_LOCULI). The ring's buffer
-- and its callers' are bytes of one memory. One context puts and one reads; each call is a step.
pub mod Init
pub mod Loculi
pub mod Move
pub mod Moved
pub mod Queue
pub mod Peek
pub mod Put
pub mod Read
pub mod Runs
pub mod RunsIn
pub mod Segments
pub mod Steps
pub mod Wrap
mod Tests
use mmgr.Prelude.{ℕ, zero, suc, ◌+◌, ◌-◌, ◌*◌, ◌/◌, ◌%◌, ◌^◌, bit_and, bit_or}
use mmgr.Prelude.{
  Bool, true, false, not, ◌&&◌, ◌||◌, if◌then◌else◌, ◌==◌, ltb, leb, Option, none, some,
}
use mmgr.Carcer.Word.{add64, sub64, not64}
use mmgr.Proximus.{Reading}
use Move.{ring_move}

-- `mmgr_ring_span`.
pub record RingSpan : Type 0 where
  pub buf : ℕ
  pub bytes : ℕ
  pub read_offset : ℕ

-- `RingState`, with the memory that its buffer stands in.
pub record Ring : Type 0 where
  pub memory : ℕ → ℕ
  pub buf : ℕ
  pub capacity : ℕ
  pub segment_count : ℕ
  pub segment_bytes : ℕ
  pub head : ℕ
  pub tail : ℕ
  pub claimed : ℕ
  pub released : ℕ
  pub gratis : ℕ
  pub pinned : ℕ
  pub keepout : ℕ → RingSpan

-- MMGR_RING_WRAP and MMGR_RING_POW2.
unfoldable pub ring_wrap : ℕ → ℕ → ℕ
ring_wrap index capacity = bit_and index (sub64 capacity 1)

unfoldable pub ring_pow2 : ℕ → Bool
ring_pow2 count = bit_and count (sub64 count 1) == 0

abbrev pub loculi : ℕ
loculi = 8

unfoldable pub loculus_bit : ℕ → ℕ
loculus_bit index = if leb loculi index then 0 else 2 ^ index

unfoldable pub loculus_all : ℕ
loculus_all = 2 ^ loculi - 1

-- `RingRun`.
pub record RingRun : Type 0 where
  pub bytes : ℕ
  pub before_wrap : ℕ

unfoldable pub ring_run : Ring → ℕ → ℕ → RingRun
ring_run s offset wanted =
    let bytes = if ltb s.capacity wanted then s.capacity else wanted in
    let room = s.capacity - offset in
    record { bytes = bytes; before_wrap = if ltb room bytes then room else bytes }

-- The loops of `ring_move_out` and `ring_move_in`: a round up to the wrap and one from the start.
unfoldable pub out_loop : ℕ → Ring → ℕ → ℕ → ℕ → ℕ → ℕ → Ring × ℕ
out_loop zero s dst total done from bytes = (s, done)
out_loop (suc f) s dst total done from bytes = elim (ltb done total) [
  | true ↦
      let moved =
        ring_move
          (record { memory = s.memory; dst = dst + done; src = s.buf + from; bytes = bytes }) in
      out_loop f (record s { memory = moved.memory }) dst total (done + bytes) 0
        (total - (done + bytes))
  | false ↦ (s, done)
]

unfoldable pub in_loop : ℕ → Ring → ℕ → ℕ → ℕ → ℕ → ℕ → Ring × ℕ
in_loop zero s src total done to bytes = (s, done)
in_loop (suc f) s src total done to bytes = elim (ltb done total) [
  | true ↦
      let moved =
        ring_move
          (record { memory = s.memory; dst = s.buf + to; src = src + done; bytes = bytes }) in
      in_loop f (record s { memory = moved.memory }) src total (done + bytes) 0
        (total - (done + bytes))
  | false ↦ (s, done)
]

-- `ring_move_out` and `ring_move_in`; 3 rounds may be made, where the second ends the run.
unfoldable pub ring_move_out : Ring → ℕ → ℕ → ℕ → Ring × ℕ
ring_move_out s offset dst wanted =
    let run = ring_run s offset wanted in
    let (s', done) = out_loop 3 s dst run.bytes 0 offset run.before_wrap in
    (s', ring_wrap (add64 offset run.bytes) s.capacity)

unfoldable pub ring_move_in : Ring → ℕ → ℕ → ℕ → Ring × ℕ
ring_move_in s offset src wanted =
    let run = ring_run s offset wanted in
    let (s', done) = in_loop 3 s src run.bytes 0 offset run.before_wrap in
    (s', ring_wrap (add64 offset run.bytes) s.capacity)

unfoldable pub ring_used : ℕ → ℕ → ℕ → ℕ
ring_used head tail capacity = ring_wrap (sub64 head tail) capacity

unfoldable pub ring_free : ℕ → ℕ → ℕ → ℕ
ring_free head tail capacity = sub64 (sub64 capacity 1) (ring_used head tail capacity)

unfoldable pub available : Ring → ℕ
available s = ring_used s.head s.tail s.capacity

unfoldable pub vacant : Ring → ℕ
vacant s = ring_free s.head s.tail s.capacity

-- `anular_read_byte`: the byte, and the ring past it.
unfoldable pub read_byte : Ring → Option (Ring × ℕ)
read_byte s =
    if s.tail == s.head
    then none
    else some (record s { tail = ring_wrap (add64 s.tail 1) s.capacity }, s.memory (s.buf + s.tail))

unfoldable pub read : Ring → ℕ → ℕ → Ring × ℕ
read s dst wanted =
    let have = ring_used s.head s.tail s.capacity in
    let bytes = if ltb have wanted then have else wanted in
    let (s', tail) = ring_move_out s s.tail dst bytes in (record s' { tail = tail }, bytes)

unfoldable pub peek : Ring → ℕ → ℕ → ℕ → Ring
peek s dst bytes offset =
    let at = ring_wrap (add64 s.tail offset) s.capacity in (ring_move_out s at dst bytes).0

unfoldable pub consume : Ring → ℕ → Ring
consume s bytes = record s { tail = ring_wrap (add64 s.tail bytes) s.capacity }

unfoldable pub put : Ring → ℕ → ℕ → Ring × Bool
put s src bytes =
    let (s', head) = ring_move_in s s.head src bytes in
    if ltb (ring_free s.head s.tail s.capacity) bytes
    then (s, false)
    else (record s' { head = head }, true)

unfoldable pub seg_inflight : Ring → ℕ
seg_inflight s = sub64 s.claimed s.released

-- `ring_seg_pick`: the index of the segment, where there is one.
unfoldable pub seg_pick : Ring → ℕ → Bool → Option ℕ
seg_pick s cursor have_segment =
    if not have_segment then none else some (bit_and cursor (sub64 s.segment_count 1))

unfoldable pub seg_next : Ring → Option ℕ
seg_next s = seg_pick s s.claimed (ltb (sub64 s.claimed s.released) s.segment_count)

unfoldable pub seg_publish : Ring → Ring
seg_publish s = record s { claimed = add64 s.claimed 1 }

unfoldable pub seg_front : Ring → Option ℕ
seg_front s = seg_pick s s.released (not (s.claimed == s.released))

unfoldable pub seg_release : Ring → Ring
seg_release s = record s { released = add64 s.released 1 }

unfoldable pub seg_at : Ring → ℕ → ℕ
seg_at s index = s.buf + index * s.segment_bytes

unfoldable pub loculus_ready : Ring → ℕ
loculus_ready s = bit_and (bit_and s.gratis (not64 s.pinned)) loculus_all

-- `RING_PAIRS`, `RING_QUADS`, `RING_OCTETS` and `RING_ONES`, and the trail of zeros by them.
unfoldable pub ring_trail : ℕ → ℕ
ring_trail mask =
    let word = 2 ^ 64 - 1 in
    let below = sub64 (bit_and mask (sub64 0 mask)) 1 in
    let pairs = sub64 below (bit_and (below / 2) (word / 3)) in
    let quads = add64 (bit_and pairs (word / 5)) (bit_and (pairs / 4) (word / 5)) in
    let octets = bit_and (add64 quads (quads / 16)) (word / 17) in
    octets * (word / 255) % 2 ^ 64 / 2 ^ 56

-- `anular_loculus_next`, whose -1 is `none`.
unfoldable pub loculus_next : ℕ → Option ℕ
loculus_next mask = if mask == 0 then none else some (ring_trail mask)

-- `anular_loculus_hold`: the keep-out span is the holder's; `none` of the spans changes on a refusal.
unfoldable pub loculus_hold : Ring → ℕ → ℕ → ℕ → Ring × Bool
loculus_hold s index src bytes =
    let bit = loculus_bit index in
    let s' = record s { pinned = bit_or s.pinned bit } in
    let span : RingSpan = record { buf = src; bytes = bytes; read_offset = 0 } in
    if bit == 0
    then (s, false)
    else if not (bit_and s.pinned bit == 0)
    then (s', false)
    else (record s' { keepout = λ i. if i == index then span else s.keepout i }, true)

unfoldable pub loculus_keepout : Ring → ℕ → Option RingSpan
loculus_keepout s index = if leb loculi index then none else some (s.keepout index)

unfoldable pub loculus_drop : Ring → ℕ → Ring
loculus_drop s index = record s { pinned = bit_and s.pinned (not64 (loculus_bit index)) }

unfoldable pub loculus_mark : Ring → ℕ → Ring
loculus_mark s index = record s { gratis = bit_or s.gratis (loculus_bit index) }

-- `mmgr_anular_init`: the ring over a buffer of a memory, `none` where it refuses.
unfoldable pub init : (ℕ → ℕ) → ℕ → ℕ → ℕ → ℕ → Option Ring
init memory buf capacity segment_count segment_bytes =
    if capacity == 0 || segment_bytes == 0 && not (ring_pow2 capacity)
    then none
    else if segment_count == 0 || not (ring_pow2 segment_count) || ltb capacity segment_count
    then none
    else if ltb (capacity / segment_count) segment_bytes
    then none
    else some (record {
      memory = memory;
      buf = buf;
      capacity = if not (segment_bytes == 0) then 1 else capacity;
      segment_count = segment_count;
      segment_bytes = if not (segment_bytes == 0) then segment_bytes else capacity / segment_count;
      head = 0;
      tail = 0;
      claimed = 0;
      released = 0;
      gratis = loculus_all;
      pinned = 0;
      keepout = λ i. record { buf = 0; bytes = 0; read_offset = 0 };
    })
