-- ===== src/Bitio/Tests.antt =====
-- Runs of src/bitorum_introitus_exitus on a buffer of 3 bytes.
use mmgr.Prelude.{◌+◌, ◌*◌, ◌%◌, ◌^◌, ◌≡◌, refl, arith, true, false}
use mmgr.Bitio.{Writer, put, align, whole_bytes, put_whole, put_tail}
use mmgr.Bitio.Stream.{bits, IsWriter}
use mmgr.Bitio.Put.{put-appends, put-overflows}

-- Five bits held, and one byte written.
abbrev begun : Writer
begun = record {
  out = λ i. 200;
  cap = 3;
  bytes_written = 1;
  residue = 19;
  bit_count = 5;
  overflow = false;
}

begun-IsWriter : IsWriter begun
begun-IsWriter = record {
  room = omega arith;
  small = omega arith;
  short = omega arith;
  fits = omega arith;
}

put-appends_example :
    let w' = put begun 1234 13 in
    (bits w' 3 ≡ bits begun (1234 % 2 ^ 13 + 2 ^ 13 * 3))
    × (8 * w'.bytes_written + w'.bit_count ≡ 8 * 1 + 5 + 13)
    × (w'.overflow ≡ false)
    × IsWriter w'
put-appends_example = put-appends begun 1234 13 3 begun-IsWriter refl (omega arith) (omega arith)

put-run : (put begun 1234 13).out 1 ≡ 83
unfolding put whole_bytes put_whole put_tail
put-run = refl

put-overflows_example :
    let w' = put begun 7 30 in
    (w'.out ≡ begun.out)
    × (w'.bytes_written ≡ 1)
    × (w'.overflow ≡ true)
    × (put w' 9 4 ≡ w')
    × (align w' ≡ w')
put-overflows_example = put-overflows begun 7 30 9 4 begun-IsWriter refl (omega arith) (omega arith)
