-- ===== src/Prelude/Int.antt =====
-- Signed numbers over the native ones: `negsuc k` is minus k + 1.
use Prim.Native.Nat.{ℕ, ◌+◌, ◌-◌, ◌*◌, ◌/◌, ◌^◌}
use mathlib.Core.Bool.{Bool, true, false}
use mmgr.Prelude.Tests.{if◌then◌else◌, ltb, leb}

pub data ℤ : Type 0 where
  pos : ℕ → ℤ
  negsuc : ℕ → ℤ

-- `a - b`.
abbrev pub difference : ℕ → ℕ → ℤ
difference a b = if leb b a then ℤ.pos (a - b) else ℤ.negsuc (b - a - 1)

infixl 60 ◌+ℤ◌
abbrev pub ◌+ℤ◌ : ℤ → ℤ → ℤ
ℤ.pos a +ℤ ℤ.pos b = ℤ.pos (a + b)
ℤ.pos a +ℤ ℤ.negsuc b = difference a (b + 1)
ℤ.negsuc a +ℤ ℤ.pos b = difference b (a + 1)
ℤ.negsuc a +ℤ ℤ.negsuc b = ℤ.negsuc (a + b + 1)

abbrev pub negative : ℤ → ℤ
negative (ℤ.pos a) = difference 0 a
negative (ℤ.negsuc a) = ℤ.pos (a + 1)

infixl 60 ◌-ℤ◌
abbrev pub ◌-ℤ◌ : ℤ → ℤ → ℤ
a -ℤ b = a +ℤ negative b

-- A product with a number that is not 0.
abbrev pub times : ℤ → ℕ → ℤ
times (ℤ.pos a) n = ℤ.pos (a * n)
times (ℤ.negsuc a) n = ℤ.negsuc ((a + 1) * n - 1)

-- `a >> n` of a signed number: the quotient by `2 ^ n` below it.
abbrev pub shift_down : ℤ → ℕ → ℤ
shift_down (ℤ.pos a) n = ℤ.pos (a / 2 ^ n)
shift_down (ℤ.negsuc a) n = ℤ.negsuc (a / 2 ^ n)

abbrev pub is_negative : ℤ → Bool
is_negative (ℤ.pos a) = false
is_negative (ℤ.negsuc a) = true

-- `a < b`.
abbrev pub ltz : ℤ → ℤ → Bool
ltz (ℤ.pos a) (ℤ.pos b) = ltb a b
ltz (ℤ.pos a) (ℤ.negsuc b) = false
ltz (ℤ.negsuc a) (ℤ.pos b) = true
ltz (ℤ.negsuc a) (ℤ.negsuc b) = ltb b a

-- The number where it is not negative, and else 0.
abbrev pub natural : ℤ → ℕ
natural (ℤ.pos a) = a
natural (ℤ.negsuc a) = 0
