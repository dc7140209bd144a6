-- ===== src/Prelude/Value.antt =====
-- Lists of bytes xs numbers, the lowest byte first: `&` and `|` act on each byte apart.
use Prim.Native.Nat.{ℕ, ◌+◌, ◌*◌, ◌^◌, ◌<◌, bit_and, bit_or}
use mathlib.Core.Path.{◌≡◌}
use mathlib.Core.List.{List, [], ◌∷◌}
use native.Mathlib.Omega.{arith}
use mmgr.Prelude.Bits.{
  bit_and-fields, bit_or-fields, bit_and-zero, bit_or-zero, zero-bit_and, zero-bit_or, bit_and_mask,
}

abbrev pub value : List ℕ → ℕ
value [] = 0
value (b ∷ ys) = b + 256 * value ys

abbrev pub AllBytes : List ℕ → Type 0
AllBytes [] = Unit {0}
AllBytes (b ∷ ys) = (b < 256) × AllBytes ys

abbrev pub and_bytes : List ℕ → List ℕ → List ℕ
and_bytes [] ys = []
and_bytes (a ∷ xs) [] = []
and_bytes (a ∷ xs) (b ∷ ys) = bit_and a b ∷ and_bytes xs ys

abbrev pub or_bytes : List ℕ → List ℕ → List ℕ
or_bytes [] ys = ys
or_bytes (a ∷ xs) [] = a ∷ xs
or_bytes (a ∷ xs) (b ∷ ys) = bit_or a b ∷ or_bytes xs ys

pub bit_and-value :
    (xs ys : List ℕ)
    → AllBytes xs
    → AllBytes ys
    → bit_and (value xs) (value ys) ≡ value (and_bytes xs ys)
bit_and-value [] ys ha hb = zero-bit_and (value ys)
bit_and-value (a ∷ xs) [] ha hb = bit_and-zero (value (a ∷ xs))
bit_and-value (a ∷ xs) (b ∷ ys) ha hb =
    let x : value (a ∷ xs) ≡ value xs * 2 ^ 8 + a = omega arith in
    let y : value (b ∷ ys) ≡ value ys * 2 ^ 8 + b = omega arith in
    rw (x, y, bit_and-fields 8 (value xs) a (value ys) b ha.0 hb.0, bit_and-value xs ys ha.1 hb.1)
      (omega arith)

pub bit_or-value :
    (xs ys : List ℕ)
    → AllBytes xs
    → AllBytes ys
    → bit_or (value xs) (value ys) ≡ value (or_bytes xs ys)
bit_or-value [] ys ha hb = zero-bit_or (value ys)
bit_or-value (a ∷ xs) [] ha hb = bit_or-zero (value (a ∷ xs))
bit_or-value (a ∷ xs) (b ∷ ys) ha hb =
    let x : value (a ∷ xs) ≡ value xs * 2 ^ 8 + a = omega arith in
    let y : value (b ∷ ys) ≡ value ys * 2 ^ 8 + b = omega arith in
    rw (x, y, bit_or-fields 8 (value xs) a (value ys) b ha.0 hb.0, bit_or-value xs ys ha.1 hb.1)
      (omega arith)

pub bit_and_byte : (b : ℕ) → b < 256 → bit_and b 255 ≡ b
bit_and_byte b h = omega (arith, bit_and_mask 8 b)
