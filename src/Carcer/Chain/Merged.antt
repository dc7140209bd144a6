-- ===== src/Carcer/Chain/Merged.antt =====
-- The merging of free runs, as a function on a tier's cells.
use mmgr.Prelude.{ℕ, inl, inr, ◌+◌, ◌*◌, ◌≤◌, ◌≡◌, refl, arith, ap}
use mmgr.Prelude.{List, [], ◌∷◌, ◌++◌, length, if◌then◌else◌, leb, ◌==◌, Bool-cases, some}
use mmgr.Carcer.Chain.{Block, free, held, widths, merged, first_fit}

-- The held cells of a tier, in order.
unfoldable pub helds : List Block → List Block
helds [] = []
helds (free m ∷ cs) = helds cs
helds (held ps f ∷ cs) = held ps f ∷ helds cs

-- Merging keeps every held cell, its payload, its owner word and their order.
pub helds-merged : (r : ℕ) (cs : List Block) → helds (merged r cs) ≡ helds cs
unfolding helds merged
helds-merged r [] = refl
helds-merged r (free m ∷ cs) = helds-merged (if r == 0 then m else r + m + 2) cs
helds-merged r (held ps f ∷ cs) = elim (Bool-cases (r == 0)) [
  | inl e ↦ rw e (ap (λ x. held ps f ∷ x) (helds-merged 0 cs))
  | inr e ↦ rw e (ap (λ x. held ps f ∷ x) (helds-merged 0 cs))
]

-- Ahead of a list with a held cell first, or of nothing.
abbrev pub StartsHeld : List Block → Type 0
StartsHeld [] = ⊥
StartsHeld (free m ∷ cs) = ⊥
StartsHeld (held ps f ∷ cs) = Unit {0}

-- Every free cell has a held one behind it: no two stand together, and none ends the tier.
abbrev pub IsCompact : List Block → Type 0
IsCompact [] = Unit {0}
IsCompact (free m ∷ cs) = StartsHeld cs × IsCompact cs
IsCompact (held ps f ∷ cs) = IsCompact cs

pub merged-IsCompact : (r : ℕ) (cs : List Block) → IsCompact (merged r cs)
unfolding merged
merged-IsCompact r [] = tt
merged-IsCompact r (free m ∷ cs) = merged-IsCompact (if r == 0 then m else r + m + 2) cs
merged-IsCompact r (held ps f ∷ cs) = elim (Bool-cases (r == 0)) [
  | inl e ↦ rw e (merged-IsCompact 0 cs)
  | inr e ↦ rw e (tt, merged-IsCompact 0 cs)
]

pub helds-append : (cs ds : List Block) → helds (cs ++ ds) ≡ helds cs ++ helds ds
unfolding helds
helds-append [] ds = refl
helds-append (free m ∷ cs) ds = helds-append cs ds
helds-append (held ps f ∷ cs) ds = ap (λ x. held ps f ∷ x) (helds-append cs ds)

-- The first fit stands in the list at the offset that it names.
pub first_fit-parts :
    (want a : ℕ) (cs : List Block) (at n : ℕ)
    → first_fit want a cs ≡ some (at, n)
    → (pre : List Block) × (m : ℕ) × (post : List Block) × (cs ≡ pre ++ (free m ∷ post))
      × (at ≡ a + widths pre)
      × (n ≡ 8 * m)
      × (want ≤ 8 * m)
unfolding first_fit
first_fit-parts want a [] at n h = cc
first_fit-parts want a (free m ∷ cs) at n h = elim (Bool-cases (leb want (8 * m))) [
  | inl e ↦ ([], m, cs, refl, ground arith, ground arith, ground arith)
  | inr e ↦
      let h' : first_fit want (a + (16 + 8 * m)) cs ≡ some (at, n) = rw e at h in
      let r = first_fit-parts want (a + (16 + 8 * m)) cs at n h' in
      (free m ∷ r.0, r.1, r.2, ap (λ x. free m ∷ x) r.3, omega (arith, r.4), r.5, r.6)
]
first_fit-parts want a (held ps f ∷ cs) at n h =
    let r = first_fit-parts want (a + (16 + 8 * length ps)) cs at n h in
    (held ps f ∷ r.0, r.1, r.2, ap (λ x. held ps f ∷ x) r.3, omega (arith, r.4), r.5, r.6)
