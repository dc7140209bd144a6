-- ===== src/Ring/Tests.antt =====
-- Runs of src/memoria_anularis on a ring of 8 bytes, whose bytes go round.
use mmgr.Prelude.{ℕ, ◌-◌, ◌%◌, ◌^◌, ◌≡◌, inl, inr, refl, arith, true, false}
use mmgr.Prelude.{[], ◌∷◌, ◌++◌, if◌then◌else◌, some}
use mmgr.Prelude.Store.{IsBytes}
use mmgr.Carcer.Word.{sub64}
use mmgr.Ring.{
  Ring, init, ring_pow2, put, read, ring_free, ring_used, ring_wrap, ring_move_in, in_loop,
  ring_run,
}
use mmgr.Ring.{seg_next, seg_pick, seg_publish, seg_front, seg_inflight, loculus_all}
use mmgr.Ring.{loculus_hold, loculus_keepout}
use mmgr.Ring.Queue.{IsRing, bytes_at, queue}
use mmgr.Ring.Read.{read-takes}
use mmgr.Ring.Put.{put-adds}
use mmgr.Ring.Steps.{stop, put_then, read_then, taken_in, given_out, Steps-in_order}
use mmgr.Ring.Segments.{IsSegmented, flight, seg_publish-adds}
use mmgr.Ring.Loculi.{span_of, loculus_hold-once}

abbrev memory : ℕ → ℕ
memory a = a % 256

memory-IsBytes : IsBytes memory
memory-IsBytes a = omega arith

-- What `init` makes of 8 bytes in 2 segments.
abbrev fresh : Ring
fresh = record {
  memory = memory;
  buf = 64;
  capacity = 8;
  segment_count = 2;
  segment_bytes = 4;
  head = 0;
  tail = 0;
  claimed = 0;
  released = 0;
  gratis = 255;
  pinned = 0;
  keepout = λ i. record { buf = 0; bytes = 0; read_offset = 0 };
}

fresh-made : init memory 64 8 2 0 ≡ some fresh
unfolding init ring_pow2 sub64 loculus_all
fresh-made = refl

-- Five bytes that wait, from the sixth place on; one segment in flight.
abbrev begun : Ring
begun = record fresh { head = 3; tail = 6; claimed = 2 ^ 64 - 1; released = 2 ^ 64 - 2; pinned = 2 }

begun-IsRing : IsRing begun
begun-IsRing = record {
  bits = 3;
  small = omega arith;
  power = refl;
  head_in = omega arith;
  tail_in = omega arith;
  bytes = memory-IsBytes;
}

begun-IsSegmented : IsSegmented begun
unfolding seg_inflight sub64
begun-IsSegmented = record {
  bits = 1;
  small = omega arith;
  power = refl;
  claimed_fits = omega arith;
  released_fits = omega arith;
  few = omega arith;
}

queue-begun : queue begun ≡ 70 ∷ 71 ∷ 64 ∷ 65 ∷ 66 ∷ []
queue-begun = refl

-- The ring past a put of 5 bytes.
abbrev filled : Ring
filled = (put fresh 0 5).0

filled_place : (filled.buf ≡ 64) × (filled.capacity ≡ 8)
unfolding put ring_free ring_used ring_wrap ring_move_in in_loop ring_run sub64
filled_place = (refl, refl)

Steps-in_order_example :
    taken_in fresh 0 5 ++ [] ≡ (given_out filled 100 3 ++ []) ++ queue (read filled 100 3).0
Steps-in_order_example =
    Steps-in_order memory 64 8 2 0 fresh (read filled 100 3).0 (taken_in fresh 0 5 ++ [])
      (given_out filled 100 3 ++ []) memory-IsBytes (omega arith) fresh-made
      (put_then 0 5 (inl (omega arith)) (read_then 100 3 (inr (omega (arith, filled_place))) stop))

read-takes_example :
    let (s', n) = read begun 200 4 in
    (n ≡ 4) × (70 ∷ 71 ∷ 64 ∷ 65 ∷ 66 ∷ [] ≡ bytes_at s'.memory 200 n ++ queue s') × IsRing s'
read-takes_example = read-takes begun 200 4 begun-IsRing (inr (omega arith))

put-adds_example :
    let (s', ok) = put begun 200 2 in
    (ok ≡ true)
    × (queue s'
        ≡ (if ok then 70 ∷ 71 ∷ 64 ∷ 65 ∷ 66 ∷ 200 ∷ 201 ∷ [] else 70 ∷ 71 ∷ 64 ∷ 65 ∷ 66 ∷ []))
    × IsRing s'
put-adds_example = put-adds begun 200 2 begun-IsRing (inr (omega arith))

next-begun : seg_next begun ≡ some 1
unfolding seg_next seg_pick sub64
next-begun = refl

front-begun : seg_front begun ≡ some 0
unfolding seg_front seg_pick sub64
front-begun = refl

seg_publish-adds_example :
    (flight (seg_publish begun) ≡ flight begun ++ (1 ∷ [])) × IsSegmented (seg_publish begun)
seg_publish-adds_example = seg_publish-adds begun 1 begun-IsSegmented next-begun

loculus_hold-once_example :
    let (s', granted) = loculus_hold begun 3 100 9 in
    (granted ≡ true)
    × (loculus_keepout s' 3 ≡ (if granted then some (span_of 100 9) else loculus_keepout begun 3))
    × ((loculus_hold s' 3 120 7).1 ≡ false)
loculus_hold-once_example = loculus_hold-once begun 3 100 9 120 7 (omega arith)
