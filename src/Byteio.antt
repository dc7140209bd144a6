-- ===== src/Byteio.antt =====
-- src/octetus_introitus_exitus: bytes and big-endian numbers appended to a span and read from one. A
-- call on a span also takes the memory that its buffer stands in. MMGR_ASSERT is empty, as in a build
-- without the hook; the big-endian calls take 1 to 8 bytes.
pub mod Claims
pub mod Parts
pub mod Trips
pub mod Strings
pub mod Fixed
mod Tests
use mmgr.Prelude.{ℕ, zero, suc, ◌+◌, ◌-◌, ◌*◌, ◌/◌, ◌%◌, ◌^◌, bit_and, bit_or}
use mmgr.Prelude.{Bool, true, false, not, ◌||◌, ◌&&◌, if◌then◌else◌, ◌==◌, ltb, Option, none, some}
use mmgr.Prelude.Store.{update}
use mmgr.Carcer.Word.{add64, sub64}
use mmgr.Spatium.{Span, ReadSpan}
use mmgr.Endian.{rev}
use mmgr.Proximus.{Reading, load16, load32, load64, put16, put32, put64}
use mmgr.Memoria.{Filling, cpy, set}

-- `byteio_claim`: the span past the bytes, and where they begin.
unfoldable pub claim : Span → ℕ → Span × Option ℕ
claim s bytes =
    let s' = record s { pos = add64 s.pos bytes } in
    if s.buf == 0 || s.overflow || ltb (sub64 s.cap s.pos) bytes || ltb s.cap s.pos
    then (record s' { overflow = true }, none)
    else (s', some (s.buf + s.pos))

-- `byteio_take`.
unfoldable pub take : ReadSpan → ℕ → ReadSpan × Option ℕ
take s bytes =
    if s.buf == 0 || s.err || ltb s.len s.pos || ltb (s.len - s.pos) bytes
    then (record s { err = true }, none)
    else (record s { pos = s.pos + bytes }, some (s.buf + s.pos))

-- A memory and a span that is written.
pub record Writing : Type 0 where
  pub memory : ℕ → ℕ
  pub span : Span

unfoldable pub put : Writing → ℕ → Writing
put w byte =
    let (span, at) = claim w.span 1 in
    elim at [
      | none ↦ record w { span = span }
      | some a ↦ record { memory = update w.memory a byte; span = span }
    ]

unfoldable pub raw : Writing → ℕ → ℕ → Writing
raw w src bytes =
    let (span, at) = claim w.span bytes in
    elim at [
      | none ↦ record w { span = span }
      | some a ↦
          let copy = cpy (record { memory = w.memory; dst = a; src = src; bytes = bytes }) in
          record { memory = copy.memory; span = span }
    ]

-- The locals of `byteio_put_be`: where the next part goes, and what is left of the number.
pub record Parting : Type 0 where
  pub memory : ℕ → ℕ
  pub at : ℕ
  pub reversed : ℕ

unfoldable pub put_four : ℕ → Parting → Parting
put_four bytes p =
    if not (bit_and bytes 4 == 0)
    then record {
      memory = put32 p.memory p.at p.reversed;
      at = p.at + 4;
      reversed = p.reversed / 2 ^ 32;
    }
    else p

unfoldable pub put_two : ℕ → Parting → Parting
put_two bytes p =
    if not (bit_and bytes 2 == 0)
    then record {
      memory = put16 p.memory p.at p.reversed;
      at = p.at + 2;
      reversed = p.reversed / 2 ^ 16;
    }
    else p

unfoldable pub put_one : ℕ → Parting → Parting
put_one bytes p =
    if not (bit_and bytes 1 == 0)
    then record p { memory = update p.memory p.at (p.reversed % 256) }
    else p

-- The bytes of a number that is reversed, from an address on.
unfoldable pub put_parts : ℕ → Parting → ℕ → ℕ
put_parts bytes p =
    if not (bit_and bytes 8 == 0)
    then put64 p.memory p.at p.reversed
    else (put_one bytes (put_two bytes (put_four bytes p))).memory

unfoldable pub put_be : Writing → ℕ → ℕ → Writing
put_be w value bytes =
    let (span, at) = claim w.span bytes in
    elim at [
      | none ↦ record w { span = span }
      | some a ↦
          let reversed = rev value bytes in
          record {
            memory = put_parts bytes (record { memory = w.memory; at = a; reversed = reversed });
            span = span;
          }
    ]

-- The locals of `byteio_take_be`: what is gathered, where the next part stands, and its place.
pub record Gathering : Type 0 where
  pub gathered : ℕ
  pub at : ℕ
  pub shift : ℕ

unfoldable pub take_four : (ℕ → ℕ) → ℕ → Gathering → Gathering
take_four m bytes g =
    if not (bit_and bytes 4 == 0)
    then record {
      gathered = bit_or g.gathered (load32 m g.at * 2 ^ g.shift % 2 ^ 64);
      at = g.at + 4;
      shift = g.shift + 32;
    }
    else g

unfoldable pub take_two : (ℕ → ℕ) → ℕ → Gathering → Gathering
take_two m bytes g =
    if not (bit_and bytes 2 == 0)
    then record {
      gathered = bit_or g.gathered (load16 m g.at * 2 ^ g.shift % 2 ^ 64);
      at = g.at + 2;
      shift = g.shift + 16;
    }
    else g

unfoldable pub take_one : (ℕ → ℕ) → ℕ → Gathering → Gathering
take_one m bytes g =
    if not (bit_and bytes 1 == 0)
    then record g { gathered = bit_or g.gathered (m g.at * 2 ^ g.shift % 2 ^ 64) }
    else g

unfoldable pub take_parts : (ℕ → ℕ) → ℕ → ℕ → ℕ
take_parts m bytes at =
    if not (bit_and bytes 8 == 0)
    then load64 m at
    else (take_one m bytes (
        take_two m bytes
          (take_four m bytes (record { gathered = 0; at = at; shift = 0 })))).gathered

unfoldable pub take_be : (ℕ → ℕ) → ReadSpan → ℕ → ReadSpan × Option ℕ
take_be m s bytes =
    let (s', at) = take s bytes in
    elim at [ none ↦ (s', none) | some a ↦ (s', some (rev (take_parts m bytes a) bytes)) ]

-- A run of bytes found in a memory: `*blob` and `*blob_bytes`.
pub record Blob : Type 0 where
  pub at : ℕ
  pub bytes : ℕ

unfoldable pub rd_str : (ℕ → ℕ) → ReadSpan → ReadSpan × Option Blob
rd_str m s =
    let (s', prefix) = take_be m s 4 in
    elim prefix [
      | none ↦ (s', none)
      | some run_bytes ↦
          let (s'', at) = take s' run_bytes in
          elim at [
            | none ↦ (record s'' { pos = s.pos }, none)
            | some a ↦ (s'', some (record { at = a; bytes = run_bytes }))
          ]
    ]

-- The loop of `byteio_mpint_fixed`: the zeros that lead a run of bytes.
unfoldable pub leading_zeros : (ℕ → ℕ) → ℕ → ℕ → ℕ
leading_zeros m src zero = 0
leading_zeros m src (suc bytes) =
    let rest = leading_zeros m (src + 1) bytes in if m src == 0 then suc rest else 0

unfoldable pub mpint_fixed : Writing → ℕ → ℕ → Writing × Bool
mpint_fixed w src bytes =
    let zeros = leading_zeros w.memory src bytes in
    let value_bytes = bytes - zeros in
    let pad = w.span.cap - value_bytes in
    let cleared = set (record { memory = w.memory; dst = w.span.buf; bytes = pad; val = 0 }) in
    let copy = cpy (record {
      memory = cleared.memory;
      dst = w.span.buf + pad;
      src = src + zeros;
      bytes = value_bytes;
    }) in
    if w.span.buf == 0 || ltb w.span.cap value_bytes
    then (record w { span = record w.span { overflow = true } }, false)
    else (record { memory = copy.memory; span = record w.span { pos = w.span.cap } }, true)
