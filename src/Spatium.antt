-- ===== src/Spatium.antt =====
-- src/spatium: spans over a caller's buffer. A buffer is its address, 0 for NULL; the address of a
-- byte of a buffer does not wrap. MMGR_ASSERT is empty, as in a build without the hook.
pub mod Laws
mod Tests
use mmgr.Prelude.{ℕ, ◌+◌, ◌-◌, Bool, true, false, not, ◌&&◌, ◌||◌, if◌then◌else◌, ◌==◌, ltb}

-- `mmgr_span`.
pub record Span : Type 0 where
  pub buf : ℕ
  pub cap : ℕ
  pub pos : ℕ
  pub overflow : Bool

-- `mmgr_cspan`.
pub record ReadSpan : Type 0 where
  pub buf : ℕ
  pub len : ℕ
  pub pos : ℕ
  pub err : Bool

unfoldable pub from : ℕ → ℕ → Span
from buf cap = record { buf = buf; cap = cap; pos = 0; overflow = false }

unfoldable pub cfrom : ℕ → ℕ → ReadSpan
cfrom buf cap = record { buf = buf; len = cap; pos = 0; err = false }

unfoldable pub has_storage : Span → Bool
has_storage s = not (s.buf == 0) && not (s.cap == 0)

unfoldable pub span_ok : Span → Bool
unfolding has_storage
span_ok s = has_storage s && not s.overflow

unfoldable pub cspan_ok : ReadSpan → Bool
cspan_ok s = not (s.buf == 0) && not (s.len == 0) && not s.err

unfoldable pub reset : Span → Span
reset s = record s { pos = 0; overflow = false }

unfoldable pub failed : Span
failed = record { buf = 0; cap = 0; pos = 0; overflow = true }

unfoldable pub after : Span → ℕ → Span
unfolding failed
after s count = if ltb s.cap count then failed else record {
  buf = if not (s.buf == 0) then s.buf + count else 0;
  cap = s.cap - count;
  pos = if ltb count s.pos then s.pos - count else 0;
  overflow = s.overflow;
}

unfoldable pub first : Span → ℕ → Span
unfolding failed
first s count = if ltb s.cap count then failed else record {
  buf = s.buf;
  cap = count;
  pos = if ltb s.pos count then s.pos else count;
  overflow = s.overflow;
}

unfoldable pub read : Span → ℕ → ReadSpan
read s count = record {
  buf = s.buf;
  len = if ltb count s.pos then count else s.pos;
  pos = 0;
  err = s.overflow || ltb s.pos count;
}

unfoldable pub produced : Span → ReadSpan
unfolding read
produced s = read s s.pos
