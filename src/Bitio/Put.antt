-- ===== src/Bitio/Put.antt =====
-- A put of src/bitorum_introitus_exitus appends to the stream, and an alignment fills its last byte.
use mmgr.Prelude.{ℕ, ◌+◌, ◌-◌, ◌*◌, ◌/◌, ◌%◌, ◌^◌, ◌≤◌, ◌<◌, ◌≡◌, inl, inr, refl, arith, ap, ◌∙◌}
use mmgr.Prelude.{true, false, bit_and, if◌then◌else◌, ◌==◌, Bool-cases, leb, ltb}
use mmgr.Prelude.Bits.{bit_and_mask}
use native.Mathlib.Nat.{mod-lt, one-le-pow}
use mmgr.Carcer.Series.{update}
use mmgr.Carcer.Word.{add64, sub64}
use mmgr.Bitio.{Writer, Pending, whole_bytes, put_whole, put_tail, put, align}
use mmgr.Bitio.Stream.{stream, bits, IsWriter, pending, split-pow, stream-byte}
use mmgr.Bitio.Whole.{put_whole_lem}
use mmgr.Bitio.Tail.{put_tail_lem}

module _ (w w' : Writer) (p p' : Pending) (whole above : ℕ) where
  -- What `bitor_put` leaves once the whole bytes stand.
  abbrev finished : Writer
  finished =
      let w'' = put_tail p' w' in record w'' { bytes_written = add64 w''.bytes_written whole }

  put-finish :
      IsWriter w
      → w' ≡ record w { out = p'.out; residue = w'.residue; bit_count = w'.bit_count }
      → w.overflow ≡ false
      → w'.bit_count + p'.left < 8
      → 8 * whole + w'.bit_count + p'.left ≡ w.bit_count + p.left
      → p'.work < 2 ^ p'.left
      → w'.residue < 2 ^ w'.bit_count
      → whole ≤ w.cap - w.bytes_written
      → stream p'.out (w.bytes_written + whole) (w'.residue + 2 ^ w'.bit_count * pending p' above)
        ≡ stream w.out w.bytes_written (w.residue + 2 ^ w.bit_count * pending p above)
      → (bits finished above ≡ bits w (pending p above))
        × (8 * finished.bytes_written + finished.bit_count
            ≡ 8 * w.bytes_written + w.bit_count + p.left)
        × (finished.overflow ≡ false)
        × IsWriter finished
  put-finish v frame ok short total f r room e =
      let t = put_tail_lem p' w' above short f r in
      let w'' = put_tail p' w' in
      let out : w''.out ≡ p'.out =
        ap (λ (x : Writer). x.out) t.3 ∙ ap (λ (x : Writer). x.out) frame in
      let cap : w''.cap ≡ w.cap =
        ap (λ (x : Writer). x.cap) t.3 ∙ ap (λ (x : Writer). x.cap) frame in
      let written : w''.bytes_written ≡ w.bytes_written =
        ap (λ (x : Writer). x.bytes_written) t.3 ∙ ap (λ (x : Writer). x.bytes_written) frame in
      let over : w''.overflow ≡ w.overflow =
        ap (λ (x : Writer). x.overflow) t.3 ∙ ap (λ (x : Writer). x.overflow) frame in
      let end : add64 w''.bytes_written whole ≡ w.bytes_written + whole =
        unfold add64 in omega arith in
      (
        ap (λ n. stream w''.out n (w''.residue + 2 ^ w''.bit_count * above)) end
            ∙ ap (λ o. stream o (w.bytes_written + whole) (w''.residue + 2 ^ w''.bit_count * above))
                out
            ∙ ap (stream p'.out (w.bytes_written + whole)) t.0
            ∙ e,
        omega arith,
        over ∙ ok,
        record { room = omega arith; small = omega arith; short = omega arith; fits = t.2 },
      )

mask_lem :
    (val count : ℕ)
    → count ≤ 64
    → bit_and val (if leb 64 count then 2 ^ 64 - 1 else 2 ^ count - 1) ≡ val % 2 ^ count
mask_lem val count h = elim (Bool-cases (leb 64 count)) [
  | inl e ↦
      let all : 64 ≡ count = ground arith in rw e (bit_and_mask 64 val ∙ ap (λ k. val % 2 ^ k) all)
  | inr e ↦ rw e (bit_and_mask count val)
]

-- `bitor_put` with its guards read off.
module _ (w : Writer) (val count above : ℕ) where
  abbrev asked : Pending
  asked = record { out = w.out; work = val % 2 ^ count; left = count }

  abbrev filled : ℕ
  filled = (w.bit_count + count) / 8

  abbrev stored : Pending
  stored = put_whole filled w asked

  abbrev emptied : Writer
  emptied = record w { out = stored.out; residue = 0; bit_count = 0 }

  IsAsked : Type 0
  IsAsked = IsWriter w × (w.overflow ≡ false) × (count ≤ 64) × (filled ≤ w.cap - w.bytes_written)

  put-guards :
      IsAsked
      → (filled ≡ 0 → put w val count ≡ finished w w asked asked filled above)
        × (0 < filled → put w val count ≡ finished w emptied asked stored filled above)
  unfolding put IsAsked
  put-guards (v, ok, most, room) =
      let sum : whole_bytes w.bit_count count ≡ filled = unfold whole_bytes in omega arith in
      let free : sub64 w.cap w.bytes_written ≡ w.cap - w.bytes_written =
        unfold sub64 in omega arith in
      let fits : ltb (w.cap - w.bytes_written) filled ≡ false = ground arith in
      let work = mask_lem val count most in
      (
        λ none.
            let e : (filled == 0) ≡ true = ground arith in rw (ok, sum, free, fits, work, e) refl,
        λ pos.
            let e : (filled == 0) ≡ false = ground arith in rw (ok, sum, free, fits, work, e) refl,
      )

-- A put to a writer that has not overflowed, of 64 bits at most and with room for the whole bytes:
-- the writer holds its bits, then those of the value, whatever is put above them, counts them all,
-- and stays a writer between calls.
pub put-appends :
    (w : Writer) (val count above : ℕ)
    → IsWriter w
    → w.overflow ≡ false
    → count ≤ 64
    → (w.bit_count + count) / 8 ≤ w.cap - w.bytes_written
    → let w' = put w val count in
      (bits w' above ≡ bits w (val % 2 ^ count + 2 ^ count * above))
      × (8 * w'.bytes_written + w'.bit_count ≡ 8 * w.bytes_written + w.bit_count + count)
      × (w'.overflow ≡ false)
      × IsWriter w'
unfolding IsAsked
put-appends w val count above v ok most room =
    let guards = put-guards w val count above (v, ok, most, room) in
    let p = asked w val count above in
    let whole = filled w val count above in
    let small : p.work < 2 ^ p.left = mod-lt val (one-le-pow count 2 (omega arith)) in
    elim (Bool-cases (whole == 0)) [
      | inl e ↦
          let none : whole ≡ 0 = ground arith in
          let here : w.bytes_written + whole ≡ w.bytes_written = omega arith in
          rw (guards.0 none) (
            put-finish w w p p whole above v refl ok (omega arith) (omega arith) small v.fits room
              (ap (λ n. stream w.out n (w.residue + 2 ^ w.bit_count * pending p above)) here))
      | inr e ↦
          let pos : 0 < whole = ground arith in
          let p' = stored w val count above in
          let l =
            put_whole_lem whole above w p pos v.short v.fits (omega arith) (omega arith) small in
          let flat : 0 + 2 ^ 0 * pending p' above ≡ pending p' above = omega arith in
          rw (guards.1 pos) (
            put-finish w (emptied w val count above) p p' whole above v refl ok (omega arith)
              (omega arith) l.2 (omega arith) room
              (ap (stream p'.out (w.bytes_written + whole)) flat ∙ l.0))
    ]

-- A writer between calls that holds bits short of a byte, with room for a byte, and has not
-- overflowed: an alignment fills the byte with zeros above its bits, and what is put next stands above
-- them; it holds no bits short of a byte then, and is a writer between calls.
pub align-fills :
    (w : Writer) (above : ℕ)
    → IsWriter w
    → w.overflow ≡ false
    → 0 < w.bit_count
    → w.bytes_written < w.cap
    → let w' = align w in
      (bits w' above ≡ bits w (2 ^ (8 - w.bit_count) * above))
      × (w'.bytes_written ≡ w.bytes_written + 1)
      × (w'.bit_count ≡ 0)
      × IsWriter w'
align-fills w above v ok held room =
    let w' : Writer = record w {
      out = update w.out w.bytes_written w.residue;
      bytes_written = w.bytes_written + 1;
      residue = 0;
      bit_count = 0;
    } in
    let some_held : (w.bit_count == 0) ≡ false = ground arith in
    let fits : leb w.cap w.bytes_written ≡ false = ground arith in
    let filled : align w ≡ w' = unfold align in rw (ok, some_held, fits) refl in
    let flat : 0 + 2 ^ 0 * above ≡ above = omega arith in
    let split = split-pow w.bit_count (8 - w.bit_count) above in
    let byte : w.bit_count + (8 - w.bit_count) ≡ 8 = omega arith in
    let place : 2 ^ (w.bit_count + (8 - w.bit_count)) * above ≡ 2 ^ 8 * above =
      ap (λ k. 2 ^ k * above) byte in
    let same : w.residue + 256 * above
        ≡ w.residue + 2 ^ w.bit_count * (2 ^ (8 - w.bit_count) * above) =
      omega arith in
    rw filled (
      ap (stream w'.out w'.bytes_written) flat
          ∙ stream-byte w.out w.bytes_written w.residue above
          ∙ ap (stream w.out w.bytes_written) same,
      refl,
      refl,
      record { room = omega arith; small = v.small; short = omega arith; fits = omega arith },
    )

-- A put past the capacity by a writer between calls that has not overflowed: no byte of the buffer
-- and no count of bytes changes, the writer has overflowed, and after it a put of anything and an
-- alignment change nothing.
pub put-overflows :
    (w : Writer) (val count val' count' : ℕ)
    → IsWriter w
    → w.overflow ≡ false
    → count ≤ 64
    → w.cap - w.bytes_written < (w.bit_count + count) / 8
    → let w' = put w val count in
      (w'.out ≡ w.out)
      × (w'.bytes_written ≡ w.bytes_written)
      × (w'.overflow ≡ true)
      × (put w' val' count' ≡ w')
      × (align w' ≡ w')
put-overflows w val count val' count' v ok most past =
    let w' : Writer = record w { overflow = true; bit_count = 0; residue = 0 } in
    let sum : whole_bytes w.bit_count count ≡ (w.bit_count + count) / 8 =
      unfold whole_bytes in omega arith in
    let free : sub64 w.cap w.bytes_written ≡ w.cap - w.bytes_written =
      unfold sub64 in omega arith in
    let over : ltb (w.cap - w.bytes_written) ((w.bit_count + count) / 8) ≡ true = ground arith in
    let stopped : put w val count ≡ w' = unfold put in rw (ok, sum, free, over) refl in
    let later : put w' val' count' ≡ w' = unfold put in refl in
    let still : align w' ≡ w' = unfold align in refl in rw stopped (refl, refl, refl, later, still)
