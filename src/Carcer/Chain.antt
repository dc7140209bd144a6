-- ===== src/Carcer/Chain.antt =====
-- A tier of a cellblock as a list of cells: what the headers, the payloads and the owner words of
-- consecutive offsets say, independently of how src/locus_carcerum walks them.
pub mod Merged
use mmgr.Prelude.{ℕ, zero, suc, ◌+◌, ◌*◌, ◌≤◌, ◌<◌, ◌≡◌, ◌⊎◌, inl, inr, refl, arith, ◌∙◌, ap, sym}
use mmgr.Prelude.{
  List, [], ◌∷◌, ◌++◌, length, Bool, true, false, if◌then◌else◌, leb, Option, none, some, ==_iff,
  ◌==◌,
}
use mmgr.Carcer.Series.{update}
use mathlib.Core.Path.{subst}

-- A free cell by the words of its payload; a held one by its payload and its owner word.
pub data Block : Type 0 where
  free : ℕ → Block
  held : List ℕ → ℕ → Block

-- The bytes that a block takes.
abbrev pub width : Block → ℕ
width (free m) = 16 + 8 * m
width (held payload foot) = 16 + 8 * length payload

abbrev pub widths : List Block → ℕ
widths [] = 0
widths (c ∷ cs) = width c + widths cs

abbrev pub Words : (ℕ → ℕ) → ℕ → List ℕ → Type 0
Words w a [] = Unit {0}
Words w a (p ∷ ps) = (w a ≡ p) × Words w (a + 8) ps

-- The block at an offset: its header counts 4 for each byte, and 1 where it is held.
abbrev pub At : (ℕ → ℕ) → ℕ → Block → Type 0
At w a (free m) = (w a ≡ 32 * m) × (0 < m)
At w a (held payload foot) =
    (w a ≡ 32 * length payload + 1)
    × (0 < length payload)
    × Words w (a + 8) payload
    × (w (a + 8 + 8 * length payload) ≡ foot)

abbrev pub Chain : (ℕ → ℕ) → ℕ → List Block → ℕ → Type 0
Chain w a [] b = a ≡ b
Chain w a (c ∷ cs) b = At w a c × Chain w (a + width c) cs b

pub Chain-end : (w : ℕ → ℕ) (a b : ℕ) (cs : List Block) → Chain w a cs b → b ≡ a + widths cs
Chain-end w a b [] h = omega arith
Chain-end w a b (c ∷ cs) h = omega (arith, Chain-end w (a + width c) b cs h.1)

pub update-same : (w : ℕ → ℕ) (k v : ℕ) → update w k v k ≡ v
update-same w k v = ground arith

pub update-other : (w : ℕ → ℕ) (k v j : ℕ) → (j < k) ⊎ (k < j) → update w k v j ≡ w j
update-other w k v j h = ground arith

pub Words-update :
    (w : ℕ → ℕ) (k v a : ℕ) (ps : List ℕ)
    → (k < a) ⊎ (a + 8 * length ps ≤ k)
    → Words w a ps
    → Words (update w k v) a ps
Words-update w k v a [] o h = tt
Words-update w k v a (p ∷ ps) o h =
    (update-other w k v a (omega arith) ∙ h.0, Words-update w k v (a + 8) ps (omega arith) h.1)

At-update :
    (w : ℕ → ℕ) (k v a : ℕ) (c : Block)
    → (k < a) ⊎ (a + width c ≤ k)
    → At w a c
    → At (update w k v) a c
At-update w k v a (free m) o h = (update-other w k v a (omega arith) ∙ h.0, h.1)
At-update w k v a (held ps f) o h = (
  update-other w k v a (omega arith) ∙ h.0,
  h.1,
  Words-update w k v (a + 8) ps (omega arith) h.2,
  update-other w k v (a + 8 + 8 * length ps) (omega arith) ∙ h.3,
)

-- A store outside a chain leaves it.
pub Chain-update :
    (w : ℕ → ℕ) (k v a b : ℕ) (cs : List Block)
    → (k < a) ⊎ (b ≤ k)
    → Chain w a cs b
    → Chain (update w k v) a cs b
Chain-update w k v a b [] o h = h
Chain-update w k v a b (c ∷ cs) o h =
    let e = Chain-end w (a + width c) b cs h.1 in
    (At-update w k v a c (omega arith) h.0, Chain-update w k v (a + width c) b cs (omega arith) h.1)

pub Chain-append :
    (w : ℕ → ℕ) (a m b : ℕ) (cs ds : List Block)
    → Chain w a cs m
    → Chain w m ds b
    → Chain w a (cs ++ ds) b
Chain-append w a m b [] ds h k = subst (λ x. Chain w x ds b) (sym h) k
Chain-append w a m b (c ∷ cs) ds h k = (h.0, Chain-append w (a + width c) m b cs ds h.1 k)

pub Chain-parts :
    (w : ℕ → ℕ) (a b : ℕ) (cs ds : List Block)
    → Chain w a (cs ++ ds) b
    → Chain w a cs (a + widths cs) × Chain w (a + widths cs) ds b
Chain-parts w a b [] ds h = let e : a ≡ a + 0 = omega arith in (e, subst (λ x. Chain w x ds b) e h)
Chain-parts w a b (c ∷ cs) ds h =
    let r = Chain-parts w (a + width c) b cs ds h.1 in
    let e : a + width c + widths cs ≡ a + (width c + widths cs) = omega arith in
    ((h.0, subst (λ x. Chain w (a + width c) cs x) e r.0), subst (λ x. Chain w x ds b) e r.1)

-- Words that agree from the chain's start on hold the same chain.
Words-agree :
    (w w' : ℕ → ℕ) (lo a : ℕ) (ps : List ℕ)
    → ((j : ℕ) → lo ≤ j → w' j ≡ w j)
    → lo ≤ a
    → Words w a ps
    → Words w' a ps
Words-agree w w' lo a [] g l h = tt
Words-agree w w' lo a (p ∷ ps) g l h =
    (g a l ∙ h.0, Words-agree w w' lo (a + 8) ps g (omega arith) h.1)

At-agree :
    (w w' : ℕ → ℕ) (lo a : ℕ) (c : Block)
    → ((j : ℕ) → lo ≤ j → w' j ≡ w j)
    → lo ≤ a
    → At w a c
    → At w' a c
At-agree w w' lo a (free m) g l h = (g a l ∙ h.0, h.1)
At-agree w w' lo a (held ps f) g l h = (
  g a l ∙ h.0,
  h.1,
  Words-agree w w' lo (a + 8) ps g (omega arith) h.2,
  g (a + 8 + 8 * length ps) (omega arith) ∙ h.3,
)

pub Chain-agree :
    (w w' : ℕ → ℕ) (lo a b : ℕ) (cs : List Block)
    → ((j : ℕ) → lo ≤ j → w' j ≡ w j)
    → lo ≤ a
    → Chain w a cs b
    → Chain w' a cs b
Chain-agree w w' lo a b [] g l h = h
Chain-agree w w' lo a b (c ∷ cs) g l h =
    (At-agree w w' lo a c g l h.0, Chain-agree w w' lo (a + width c) b cs g (omega arith) h.1)

-- The words that stand at an offset, as a payload.
abbrev pub payload_at : (ℕ → ℕ) → ℕ → ℕ → List ℕ
payload_at w a zero = []
payload_at w a (suc n) = w a ∷ payload_at w (a + 8) n

pub length-payload_at : (w : ℕ → ℕ) (a n : ℕ) → length (payload_at w a n) ≡ n
length-payload_at w a zero = refl
length-payload_at w a (suc n) = ap suc (length-payload_at w (a + 8) n)

pub Words-payload_at : (w : ℕ → ℕ) (a n : ℕ) → Words w a (payload_at w a n)
Words-payload_at w a zero = tt
Words-payload_at w a (suc n) = (refl, Words-payload_at w (a + 8) n)

-- Merging the free runs: each run of free cells ahead of a held one becomes one free cell, with the
-- words between them; the run at the end is dropped. The number is the payload words of the run
-- that stands ahead, 0 for none.
unfoldable pub merged : ℕ → List Block → List Block
merged r [] = []
merged r (free m ∷ cs) = merged (if r == 0 then m else r + m + 2) cs
merged r (held ps f ∷ cs) =
    if r == 0 then held ps f ∷ merged 0 cs else free r ∷ held ps f ∷ merged 0 cs

-- The run that `merged` drops.
unfoldable pub last_run : ℕ → List Block → ℕ
last_run r [] = r
last_run r (free m ∷ cs) = last_run (if r == 0 then m else r + m + 2) cs
last_run r (held ps f ∷ cs) = last_run 0 cs

-- The first free cell that holds a want: its offset and its payload's bytes.
unfoldable pub first_fit : ℕ → ℕ → List Block → Option (ℕ × ℕ)
first_fit want a [] = none
first_fit want a (free m ∷ cs) =
    let rest = first_fit want (a + (16 + 8 * m)) cs in
    if leb want (8 * m) then some (a, 8 * m) else rest
first_fit want a (held ps f ∷ cs) = first_fit want (a + (16 + 8 * length ps)) cs
