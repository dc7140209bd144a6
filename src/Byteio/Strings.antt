-- ===== src/Byteio/Strings.antt =====
-- The runs with a length and the fixed fields of src/octetus_introitus_exitus.
use mmgr.Prelude.{ℕ, ◌+◌, ◌≤◌, ◌≡◌, refl, arith, ap, ◌∙◌, sym}
use mmgr.Prelude.{true, Option, none, some}
use mmgr.Prelude.Store.{load, IsBytes, load-lt}
use mmgr.Spatium.{ReadSpan}
use mmgr.Endian.{rev}
use mmgr.Endian.Reverse.{rev-reversed}
use mmgr.Endian.Trips.{reversed-load, big}
use mmgr.Byteio.{Blob, take, take_be, take_parts, rd_str}
use mmgr.Byteio.Parts.{take_parts-load}
use mmgr.Byteio.Trips.{found}

take_found :
    (s s' : ReadSpan) (n a : ℕ)
    → take s n ≡ (s', some a)
    → (a ≡ s.buf + s.pos)
      × (s'.pos ≡ s.pos + n)
      × (s'.pos ≤ s.len)
      × (s'.buf ≡ s.buf)
      × (s'.len ≡ s.len)
unfolding take
take_found s s' n a e = (ground arith, ground arith, ground arith, ground arith, ground arith)

take-none : (s s' : ReadSpan) (n : ℕ) → take s n ≡ (s', none) → (s'.pos ≡ s.pos) × (s'.err ≡ true)
unfolding take
take-none s s' n e = (ground arith, ground arith)

-- The number that four bytes spell.
prefix_lem : (m : ℕ → ℕ) (a : ℕ) → IsBytes m → rev (take_parts m 4 a) 4 ≡ big 4 m a
prefix_lem m a h =
    let small = load-lt 4 m a h in
    ap (λ v. rev v 4) (take_parts-load 4 m a (omega arith) (omega arith) h)
    ∙ rev-reversed (load 4 m a) 4 (omega arith) (omega arith) (omega arith)
    ∙ reversed-load 4 m a h

-- What `rd_str` makes of the take of its length, and of that of its run.
abbrev run_found : ReadSpan → ℕ → ReadSpan × Option ℕ → ReadSpan × Option Blob
run_found s n (s', none) = (record s' { pos = s.pos }, none)
run_found s n (s', some a) = (s', some (record { at = a; bytes = n }))

abbrev length_found : ReadSpan → ReadSpan × Option ℕ → ReadSpan × Option Blob
length_found s (s', none) = (s', none)
length_found s (s', some n) = run_found s n (take s' n)

rd_str-length : (m : ℕ → ℕ) (s : ReadSpan) → rd_str m s ≡ length_found s (found m 4 (take s 4))
unfolding rd_str take_be
rd_str-length m s = refl

run_cases :
    (s t s' : ReadSpan) (n : ℕ) (b : Blob) (c : ReadSpan × Option ℕ)
    → take t n ≡ c
    → run_found s n c ≡ (s', some b)
    → (b.bytes ≡ n) × (b.at ≡ t.buf + t.pos) × (s'.pos ≡ t.pos + n) × (s'.pos ≤ t.len)
run_cases s t s' n b (u, none) e h = ground arith
run_cases s t s' n b (u, some a) e h =
    let (at, past, inside, _, _) = take_found t u n a e in
    (ground arith, ground arith, ground arith, ground arith)

length_cases :
    (m : ℕ → ℕ) (s s' : ReadSpan) (b : Blob) (c : ReadSpan × Option ℕ)
    → IsBytes m
    → take s 4 ≡ c
    → length_found s (found m 4 c) ≡ (s', some b)
    → (b.bytes ≡ big 4 m (s.buf + s.pos))
      × (b.at ≡ s.buf + s.pos + 4)
      × (s'.pos ≡ s.pos + 4 + b.bytes)
      × (s'.pos ≤ s.len)
length_cases m s s' b (t, none) bytes e h = ground arith
length_cases m s s' b (t, some a) bytes e h =
    let (at, past, inside, buf, len) = take_found s t 4 a e in
    let n = rev (take_parts m 4 a) 4 in
    let count : n ≡ big 4 m (s.buf + s.pos) = prefix_lem m a bytes ∙ ap (big 4 m) at in
    let (x, y, z, w) = run_cases s t s' n b (take t n) refl h in
    (x ∙ count, omega arith, omega arith, omega arith)

-- A run that is found is as long as the four bytes before it spell in big-endian order, begins past
-- them and ends inside the span, where the read goes on.
pub rd_str-found :
    (m : ℕ → ℕ) (s s' : ReadSpan) (b : Blob)
    → IsBytes m
    → rd_str m s ≡ (s', some b)
    → (b.bytes ≡ big 4 m (s.buf + s.pos))
      × (b.at ≡ s.buf + s.pos + 4)
      × (s'.pos ≡ s.pos + 4 + b.bytes)
      × (s'.pos ≤ s.len)
rd_str-found m s s' b bytes h =
    length_cases m s s' b (take s 4) bytes refl (sym (rd_str-length m s) ∙ h)

run_refused :
    (s t s' : ReadSpan) (n : ℕ) (c : ReadSpan × Option ℕ)
    → take t n ≡ c
    → run_found s n c ≡ (s', none)
    → (s'.pos ≡ s.pos) × (s'.err ≡ true)
run_refused s t s' n (u, none) e h =
    let (at, bad) = take-none t u n e in (ground arith, ground arith)
run_refused s t s' n (u, some a) e h = ground arith

length_refused :
    (m : ℕ → ℕ) (s s' : ReadSpan) (c : ReadSpan × Option ℕ)
    → take s 4 ≡ c
    → length_found s (found m 4 c) ≡ (s', none)
    → (s'.pos ≡ s.pos) × (s'.err ≡ true)
length_refused m s s' (t, none) e h =
    let (at, bad) = take-none s t 4 e in (ground arith, ground arith)
length_refused m s s' (t, some a) e h =
    run_refused s t s' (rev (take_parts m 4 a) 4) (take t (rev (take_parts m 4 a) 4)) refl h

-- A run that is not found, for want of its length or of its bytes, leaves the span where it stood
-- and its error set.
pub rd_str-refused :
    (m : ℕ → ℕ) (s s' : ReadSpan) → rd_str m s ≡ (s', none) → (s'.pos ≡ s.pos) × (s'.err ≡ true)
rd_str-refused m s s' h = length_refused m s s' (take s 4) refl (sym (rd_str-length m s) ∙ h)
