-- ===== src/Verba/Tests.antt =====
-- Runs of src/verba_scribo on a buffer of 40 bytes, and on one of 10.
use mmgr.Prelude.{ℕ, ◌+◌, ◌-◌, ◌*◌, ◌^◌, ◌%◌, ◌≤◌, ◌<◌, ◌≡◌, ◌≢◌, ◌⊎◌, inl, inr, refl, arith}
use mmgr.Prelude.{length, true, not, ◌&&◌, if◌then◌else◌, ◌==◌, ltb, some}
use mmgr.Prelude.Store.{IsBytes}
use mmgr.Memoria.Marks.{run_bytes}
use mmgr.Cellul.Len.{text_length}
use mmgr.Verba.{Verba, room, put_clip}
use mmgr.Verba.Text.{digit, hex_char, number}
use mmgr.Verba.Append.{append}
use mmgr.Verba.Put.{put_clip-fits}
use mmgr.Verba.Decimal.{digits10}
use mmgr.Verba.Decimal.Count.{digits10-least}
use mmgr.Verba.Numbers.{uint, uint_digits, bits_per_digit, shift_count, digits, g_trim}
use mmgr.Verba.Numbers.Uint.{char_value, uint-append, uint-number}
use mmgr.Verba.Numbers.Padded.{pointed, digits-pointed}
use mmgr.Verba.Numbers.Trim.{g_trim-trims}
use mmgr.Verba.Decimal.Emit.{decimal}
use mmgr.Verba.Escape.{xml}
use mmgr.Verba.Escape.Loops.{IsText}
use mmgr.Verba.Escape.Written.{xml_text}
use mmgr.Verba.Escape.Entities.{read_xml, xml-read_xml}

-- Five quotes and a terminator, at address 100.
abbrev quotes : ℕ → ℕ
quotes j = if ltb j 105 then b'"' else 0

abbrev buffer : Verba
buffer = record { memory = quotes; out = 0; cap = 40; at = 3 }

abbrev tight : Verba
tight = record { memory = quotes; out = 0; cap = 10; at = 3 }

quotes-IsBytes : IsBytes quotes
quotes-IsBytes a = ground arith

buffer-IsText : IsText buffer 100 5
buffer-IsText = record {
  bytes = λ i l. ground arith;
  terminator = refl;
  apart = inr (omega arith);
  at = omega arith;
}

xml_room : room buffer (length (xml_text (run_bytes 5 quotes 100))) ≡ true
unfolding room
xml_room = refl

xml-read_xml_example :
    (w : Verba) × (xml 6 buffer 100 ≡ some w)
    × (read_xml (run_bytes (w.at - 3) w.memory (0 + 3)) ≡ some (run_bytes 5 quotes 100))
xml-read_xml_example =
    xml-read_xml 6 5 buffer 100 (omega arith) (omega arith) buffer-IsText xml_room

uint-append_example :
    let n = uint_digits 255 16 4 in
    (uint buffer 255 16 4 ≡ append buffer n (λ i. hex_char (digit 16 n 255 i)))
    × (255 < 16 ^ n)
    × (4 ≤ n)
    × ((n ≡ 1) ⊎ (n ≡ 4) ⊎ (16 ^ (n - 1) ≤ 255))
uint-append_example = uint-append buffer 255 16 4 (omega arith)

hex_room : room buffer (uint_digits 255 16 4) ≡ true
unfolding room uint_digits bits_per_digit shift_count
hex_room = refl

uint-number_example :
    number 16 (uint_digits 255 16 4) (λ i. char_value ((uint buffer 255 16 4).memory (0 + 3 + i)))
    ≡ 255
uint-number_example = uint-number buffer 255 16 4 (omega arith) hex_room

digits10-least_example :
    (10 ^ 12 < 10 ^ digits10 (10 ^ 12))
    × ((digits10 (10 ^ 12) ≡ 1) ⊎ (10 ^ (digits10 (10 ^ 12) - 1) ≤ 10 ^ 12))
    × (1 ≤ digits10 (10 ^ 12))
    × (digits10 (10 ^ 12) ≤ 20)
digits10-least_example = digits10-least (10 ^ 12) (omega arith)

g_trim-trims_example :
    let left = (g_trim 125000 6).0 in
    let count = (g_trim 125000 6).1 in
    (125000 ≡ left * 10 ^ (6 - count)) × (1 ≤ count) × (count ≤ 6) × ((count ≡ 1) ⊎ (left % 10 ≢ 0))
g_trim-trims_example = g_trim-trims 6 125000 (omega arith) (omega arith)

digits-pointed_example : digits buffer 12345 5 2 ≡ (
    if not (2 == 0) && ltb 2 5
    then append buffer (5 + 1) (pointed 5 12345 2)
    else append buffer 5 (decimal 5 12345))
digits-pointed_example = digits-pointed buffer 12345 5 2 (omega arith) (omega arith)

put_clip-fits_example :
    let l = text_length 6 quotes 100 in
    (put_clip tight 100 ≡ append tight l (λ i. quotes (100 + i))) × (room tight l ≡ true) × (l ≤ 6)
put_clip-fits_example =
    put_clip-fits tight 100 (omega arith) (omega arith) (omega arith) quotes-IsBytes
      (inl (omega arith))
