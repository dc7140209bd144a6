-- ===== src/Byteio/Tests.antt =====
-- Runs of src/octetus_introitus_exitus on a span of 8 bytes.
use mmgr.Prelude.{ℕ, ◌+◌, ◌%◌, ◌≡◌, ◌≤◌, inr, refl, arith, true, false, ◌==◌}
use mmgr.Prelude.{if◌then◌else◌, some, none}
use mmgr.Carcer.Word.{shl64}
use mmgr.Spatium.{Span, ReadSpan}
use mmgr.Endian.{rev, swapped}
use mmgr.Endian.Trips.{big}
use mmgr.Byteio.{Writing, put_be, take_be, rd_str, mpint_fixed, leading_zeros, take, take_parts}
use mmgr.Byteio.{take_one, take_two, take_four}
use mmgr.Proximus.{load32}
use mmgr.Prelude.Store.{load, IsBytes}
use mmgr.Byteio.Trips.{appended, take_be-put_be}
use mmgr.Byteio.Strings.{rd_str-found}
use mmgr.Byteio.Fixed.{mpint_fixed-holds}

abbrev space : Span
space = record { buf = 64; cap = 8; pos = 2; overflow = false }

abbrev writing : Writing
writing = record { memory = λ a. a % 256; span = space }

take_be-put_be_example :
    let w' = put_be writing 0x12_3456_789A 3 in
    take_be w'.memory (appended writing w') 3
    ≡ (record (appended writing w') { pos = w'.span.pos }, some 0x56_789A)
take_be-put_be_example =
    take_be-put_be writing 0x12_3456_789A 3 (λ a. omega arith)
      ((λ e. omega arith), refl, omega arith, omega arith) (omega arith) (omega arith) (omega arith)

-- A run of 2 bytes behind its length, and one that the span does not hold.
abbrev stream : ℕ → ℕ
stream a = if a == 13 then 2 else 0

abbrev reading : ReadSpan
reading = record { buf = 10; len = 6; pos = 0; err = false }

abbrev short : ReadSpan
short = record { buf = 10; len = 5; pos = 0; err = false }

read_whole :
    rd_str stream reading ≡ (record reading { pos = 6 }, some (record { at = 14; bytes = 2 }))
unfolding rd_str take_be take take_parts take_one take_two take_four load32 load rev swapped shl64
read_whole = refl

read_short : rd_str stream short ≡ (record short { err = true }, none)
unfolding rd_str take_be take take_parts take_one take_two take_four load32 load rev swapped shl64
read_short = refl

stream-IsBytes : IsBytes stream
stream-IsBytes a = ground arith

rd_str-found_example : (2 ≡ big 4 stream 10) × (14 ≡ 10 + 0 + 4) × (6 ≡ 0 + 4 + 2) × (6 ≤ 6)
rd_str-found_example =
    rd_str-found stream reading (record reading { pos = 6 }) (record { at = 14; bytes = 2 })
      stream-IsBytes read_whole

-- Nine bytes, the first of which is 0, in a field of eight.
mpint_fixed-holds_example :
    let (w', held) = mpint_fixed writing 256 9 in
    (held ≡ true) × (big 8 w'.memory 64 ≡ big 9 (λ a. a % 256) 256) × (w'.span.overflow ≡ false)
unfolding leading_zeros big mpint_fixed
mpint_fixed-holds_example = mpint_fixed-holds writing 256 9 (λ a. omega arith) (inr (omega arith))
