-- ===== src/Spatium/Laws.antt =====
-- What the walks over a span of src/spatium keep.
use mmgr.Prelude.{ℕ, ◌+◌, ◌≤◌, ◌≡◌, ◌≢◌, arith, ◌&&◌, not, ◌==◌, ltb}
use mmgr.Spatium.{Span, span_ok, after, first}

-- A count within the capacity cuts a span in two: the parts stand side by side over the same
-- bytes, and what was written is shared between them.
pub first-after :
    (s : Span) (count : ℕ)
    → s.buf ≢ 0
    → count ≤ s.cap
    → s.pos ≤ s.cap
    → ((first s count).buf ≡ s.buf)
      × ((after s count).buf ≡ s.buf + (first s count).cap)
      × ((first s count).cap + (after s count).cap ≡ s.cap)
      × ((first s count).pos + (after s count).pos ≡ s.pos)
      × ((first s count).overflow ≡ s.overflow)
      × ((after s count).overflow ≡ s.overflow)
unfolding first after
first-after s count hb hc hp = ground arith

-- Two skips are one skip by the sum, also where they run past the capacity.
pub after-after : (s : Span) (a b : ℕ) → after (after s a) b ≡ after s (a + b)
unfolding after
after-after s a b = ground arith

-- What is left past a count is usable exactly where the span is and the count is below its capacity.
pub after_usable : (s : Span) (count : ℕ) → span_ok (after s count) ≡ (span_ok s && ltb count s.cap)
unfolding after span_ok
after_usable s count = ground arith

-- The first bytes are usable exactly where the span is, the count is not 0 and is within its
-- capacity.
pub first_usable :
    (s : Span) (count : ℕ)
    → span_ok (first s count) ≡ (span_ok s && not (count == 0) && not (ltb s.cap count))
unfolding first span_ok
first_usable s count = ground arith
