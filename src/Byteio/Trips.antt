-- ===== src/Byteio/Trips.antt =====
-- A number appended by src/octetus_introitus_exitus is read back.
use mmgr.Prelude.{ℕ, ◌+◌, ◌-◌, ◌*◌, ◌%◌, ◌^◌, ◌≤◌, ◌<◌, ◌≡◌, ◌≢◌, refl, arith, ap, ◌∙◌, sym}
use mmgr.Prelude.{false, ◌==◌, ltb, Option, none, some}
use mmgr.Prelude.Store.{store, IsBytes, store-IsBytes, load-store}
use mmgr.Spatium.{ReadSpan}
use mmgr.Endian.{rev}
use mmgr.Endian.Reverse.{reversed, rev-reversed}
use mmgr.Endian.Trips.{reversed_twice, reversed-lt}
use mmgr.Byteio.{Writing, take, put_be, put_parts, take_be, take_parts}
use mmgr.Byteio.Parts.{put_parts-store, take_parts-load}
use mmgr.Byteio.Claims.{HasRoom, number_at, put_be_room}
use native.Mathlib.Nat.{mod-eq_of_lt, pow-le-pow_right}

-- The bytes that an append has added to a span, to be read.
abbrev pub appended : Writing → Writing → ReadSpan
appended w w' = record { buf = w'.span.buf; len = w'.span.pos; pos = w.span.pos; err = false }

parts_back :
    (m : ℕ → ℕ) (a value n : ℕ)
    → IsBytes m
    → value < 2 ^ 64
    → 0 < n
    → n ≤ 8
    → rev (take_parts (put_parts n (record { memory = m; at = a; reversed = rev value n })) n a) n
      ≡ value % 2 ^ (8 * n)
parts_back m a value n h fits some_bytes most =
    let low = reversed-lt n value most in
    let word : 2 ^ (8 * n) ≤ 2 ^ 64 =
      pow-le-pow_right {n = 2} (omega arith) {i = 8 * n} {j = 64} (omega arith) in
    let there = rev-reversed value n fits some_bytes most in
    let stored = put_parts-store n m a (reversed n value) some_bytes most (omega arith) in
    let bytes = store-IsBytes n m a (reversed n value) h in
    let loaded =
      take_parts-load n (store n m a (reversed n value)) a some_bytes most bytes
      ∙ load-store n m a (reversed n value)
      ∙ mod-eq_of_lt low in
    rw (there, stored, loaded)
      (rev-reversed (reversed n value) n (omega arith) some_bytes most
        ∙ reversed_twice n value some_bytes most)

take_room :
    (s : ReadSpan) (n : ℕ)
    → s.buf ≢ 0
    → s.err ≡ false
    → s.pos + n ≤ s.len
    → take s n ≡ (record s { pos = s.pos + n }, some (s.buf + s.pos))
unfolding take
take_room s n some_buf fine room =
    let a : (s.buf == 0) ≡ false = ground arith in
    let b : ltb s.len s.pos ≡ false = ground arith in
    let c : ltb (s.len - s.pos) n ≡ false = ground arith in rw (a, fine, b, c) refl

-- What `take_be` makes of a take.
abbrev pub found : (ℕ → ℕ) → ℕ → ReadSpan × Option ℕ → ReadSpan × Option ℕ
found m n (s, none) = (s, none)
found m n (s, some a) = (s, some (rev (take_parts m n a) n))

-- A number of 64 bits appended in 1 to 8 bytes, where the span has room, is read back from the bytes
-- appended as what of it fits, and the read ends where the append did.
pub take_be-put_be :
    (w : Writing) (value n : ℕ)
    → IsBytes w.memory
    → HasRoom w.span n
    → value < 2 ^ 64
    → 0 < n
    → n ≤ 8
    → let w' = put_be w value n in
      take_be w'.memory (appended w w') n
      ≡ (record (appended w w') { pos = w'.span.pos }, some (value % 2 ^ (8 * n)))
unfolding take_be
take_be-put_be w value n h room fits some_bytes most =
    let r : ReadSpan = record {
      buf = w.span.buf;
      len = w.span.pos + n;
      pos = w.span.pos;
      err = false;
    } in
    let w1 : Writing = record {
      memory = number_at w value n (w.span.buf + w.span.pos);
      span = record w.span { pos = w.span.pos + n };
    } in
    let first = put_be_room w value n room in
    ap (λ x. take_be x.memory (appended w x) n) first
    ∙ ap (found w1.memory n) (take_room r n room.0 refl (omega arith))
    ∙ ap (λ v. (record r { pos = w.span.pos + n }, some v))
        (parts_back w.memory (w.span.buf + w.span.pos) value n h fits some_bytes most)
    ∙ ap (λ x. (record (appended w x) { pos = x.span.pos }, some (value % 2 ^ (8 * n)))) (sym first)
