-- ===== src/Prelude/Lanes.antt =====
-- A function over the bytes of a number, and the operators that act on each byte apart.
use Prim.Native.Nat.{ℕ, ◌+◌, ◌-◌, ◌*◌, ◌/◌, ◌≤◌, ◌<◌, bit_and, bit_or}
use mathlib.Core.Path.{◌≡◌, refl, ap, ◌∙◌}
use mathlib.Core.List.{List, [], ◌∷◌, map}
use native.Mathlib.Omega.{arith}
use mmgr.Prelude.Value.{value, AllBytes, and_bytes, or_bytes, bit_and-value, bit_or-value}

abbrev pub lanes : (ℕ → ℕ) → List ℕ → ℕ
lanes f bs = value (map f bs)

abbrev pub Bytewise : (ℕ → ℕ) → Type 0
Bytewise f = (b : ℕ) → b < 256 → f b < 256

map-AllBytes : (f : ℕ → ℕ) (bs : List ℕ) → Bytewise f → AllBytes bs → AllBytes (map f bs)
map-AllBytes f [] hf h = tt
map-AllBytes f (b ∷ bs) hf h = (hf b h.0, map-AllBytes f bs hf h.1)

and-map :
    (f g : ℕ → ℕ) (bs : List ℕ)
    → and_bytes (map f bs) (map g bs) ≡ map (λ b. bit_and (f b) (g b)) bs
and-map f g [] = refl
and-map f g (b ∷ bs) = ap (λ xs. bit_and (f b) (g b) ∷ xs) (and-map f g bs)

or-map :
    (f g : ℕ → ℕ) (bs : List ℕ) → or_bytes (map f bs) (map g bs) ≡ map (λ b. bit_or (f b) (g b)) bs
or-map f g [] = refl
or-map f g (b ∷ bs) = ap (λ xs. bit_or (f b) (g b) ∷ xs) (or-map f g bs)

module _ (f g : ℕ → ℕ) (bs : List ℕ) (hf : Bytewise f) (hg : Bytewise g) (h : AllBytes bs) where
  pub bit_and-lanes : bit_and (lanes f bs) (lanes g bs) ≡ lanes (λ b. bit_and (f b) (g b)) bs
  bit_and-lanes =
      bit_and-value (map f bs) (map g bs) (map-AllBytes f bs hf h) (map-AllBytes g bs hg h)
      ∙ ap value (and-map f g bs)

  pub bit_or-lanes : bit_or (lanes f bs) (lanes g bs) ≡ lanes (λ b. bit_or (f b) (g b)) bs
  bit_or-lanes =
      bit_or-value (map f bs) (map g bs) (map-AllBytes f bs hf h) (map-AllBytes g bs hg h)
      ∙ ap value (or-map f g bs)

pub add-lanes : (f g : ℕ → ℕ) (bs : List ℕ) → lanes f bs + lanes g bs ≡ lanes (λ b. f b + g b) bs
add-lanes f g [] = refl
add-lanes f g (b ∷ bs) = omega (arith, add-lanes f g bs)

pub sub-lanes :
    (f g : ℕ → ℕ) (bs : List ℕ)
    → ((b : ℕ) → b < 256 → g b ≤ f b)
    → AllBytes bs
    → (lanes f bs - lanes g bs ≡ lanes (λ b. f b - g b) bs) × (lanes g bs ≤ lanes f bs)
sub-lanes f g [] hg h = (refl, omega arith)
sub-lanes f g (b ∷ bs) hg h =
    let one = hg b h.0 in let (rest, less) = sub-lanes f g bs hg h.1 in (omega arith, omega arith)

pub lanes-agree :
    (f g : ℕ → ℕ) (bs : List ℕ)
    → ((b : ℕ) → b < 256 → f b ≡ g b)
    → AllBytes bs
    → lanes f bs ≡ lanes g bs
lanes-agree f g [] e h = refl
lanes-agree f g (b ∷ bs) e h = let one = e b h.0 in omega (arith, lanes-agree f g bs e h.1)

-- A shift that no bits of a byte cross.
pub quarter-lanes : (f : ℕ → ℕ) (bs : List ℕ) → lanes (λ b. 4 * f b) bs / 4 ≡ lanes f bs
quarter-lanes f bs = let e = four f bs in omega arith
  where
    four : (f : ℕ → ℕ) (bs : List ℕ) → lanes (λ b. 4 * f b) bs ≡ 4 * lanes f bs
    four f [] = refl
    four f (b ∷ bs) = omega (arith, four f bs)
