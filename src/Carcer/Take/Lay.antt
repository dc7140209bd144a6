-- ===== src/Carcer/Take/Lay.antt =====
-- The cellblock of src/locus_carcerum at rest, and a cell laid in it.
use mmgr.Prelude.{ℕ, ◌+◌, ◌*◌, ◌^◌, ◌≤◌, ◌<◌, ◌≡◌, ◌⊎◌, refl, arith, ap, sym}
use mmgr.Prelude.{List, [], ◌∷◌, ◌++◌, length, Bool, true, false}
use mathlib.Core.Path.{subst}
use mmgr.Carcer.Word.{add64, owner_word}
use mmgr.Carcer.Word.Laws.{header_lem, foot_of_lem}
use mmgr.Carcer.Series.{Series, Owner, owner_place, update, laid}
use mmgr.Carcer.Take.Bump.{halves}
use mmgr.Carcer.Chain.{Block, held, At, Chain, Chain-update}
use mmgr.Carcer.Chain.{Words-update, Chain-append, payload_at, length-payload_at, Words-payload_at}

-- The bounds word holds the ends of the two chains, and no overrun is open.
pub record IsRest (s : Series) (P Q : List Block) : Type 0 where
  pub e : ℕ
  pub t : ℕ
  pub small : s.size ≤ 2 ^ 31
  pub placed : (0 < s.base) × (s.base + s.size < 2 ^ 64)
  pub bounds : s.bounds ≡ halves e t
  pub over_end : s.persistent_overrun ≡ 0
  pub over_top : s.temporary_overrun ≡ 0
  pub gap : e ≤ t
  pub within : t ≤ s.size
  pub lower : Chain s.word 0 P e
  pub upper : Chain s.word t Q s.size

-- The words of a cell laid over an offset.
abbrev pub laid_words : (ℕ → ℕ) → ℕ → ℕ → ℕ → ℕ → ℕ
laid_words w off n foot = update (update w (off + 8 + 8 * n) foot) off (32 * n + 1)

-- A take that lands writes the two words of the cell, and answers the payload's address.
pub laid-true :
    (now off n : ℕ) (owner : Owner) (persistent : Bool) (s : Series)
    → s.base + off + 8 < 2 ^ 64
    → off + 8 * n + 8 < 2 ^ 62
    → let out = laid now true off (8 * n) owner persistent s in
      (out.0.word ≡ laid_words s.word off n (owner_word (owner_place owner) now))
      × (out.1 ≡ s.base + off + 8)
      × (out.0.bounds ≡ s.bounds)
      × (out.0.size ≡ s.size)
      × (out.0.base ≡ s.base)
      × (out.0.persistent_overrun ≡ s.persistent_overrun)
      × (out.0.temporary_overrun ≡ s.temporary_overrun)
unfolding laid add64
laid-true now off n owner persistent s hb hs =
    rw (foot_of_lem off (8 * n) (omega arith), header_lem (8 * n) 1 (omega arith) (omega arith))
      (
        ap
            (λ h.
              update (update s.word (off + 8 + 8 * n) (owner_word (owner_place owner) now)) off h)
            (omega arith),
        omega arith,
        refl,
        refl,
        refl,
        refl,
        refl,
      )

pub laid-false :
    (now off size : ℕ) (owner : Owner) (persistent : Bool) (s : Series)
    → let out = laid now false off size owner persistent s in
      (out.0.word ≡ s.word)
      × (out.1 ≡ 0)
      × (out.0.bounds ≡ s.bounds)
      × (out.0.size ≡ s.size)
      × (out.0.base ≡ s.base)
      × (out.0.persistent_overrun ≡ s.persistent_overrun)
      × (out.0.temporary_overrun ≡ s.temporary_overrun)
unfolding laid
laid-false now off size owner persistent s = (refl, refl, refl, refl, refl, refl, refl)

-- The cell laid, as a block: its payload holds what stood there.
abbrev pub laid_block : (ℕ → ℕ) → ℕ → ℕ → ℕ → Block
laid_block w off n foot = held (payload_at w (off + 8) n) foot

pub At-laid :
    (w : ℕ → ℕ) (off n foot : ℕ)
    → 0 < n
    → At (laid_words w off n foot) off (laid_block w off n foot)
At-laid w off n foot pos =
    let l = length-payload_at w (off + 8) n in
    (
      ground arith,
      omega arith,
      Words-update (update w (off + 8 + 8 * n) foot) off (32 * n + 1) (off + 8)
          (payload_at w (off + 8) n) (omega arith)
          (Words-update w (off + 8 + 8 * n) foot (off + 8) (payload_at w (off + 8) n) (omega arith)
            (Words-payload_at w (off + 8) n)),
      rw l (ground arith),
    )

-- A cell laid beside a chain leaves it.
pub Chain-laid :
    (w : ℕ → ℕ) (off n foot a b : ℕ) (cs : List Block)
    → (off + (16 + 8 * n) ≤ a) ⊎ (b ≤ off)
    → Chain w a cs b
    → Chain (laid_words w off n foot) a cs b
Chain-laid w off n foot a b cs o h =
    Chain-update (update w (off + 8 + 8 * n) foot) off (32 * n + 1) a b cs (omega arith)
      (Chain-update w (off + 8 + 8 * n) foot a b cs (omega arith) h)

-- A cell laid at the end of a chain extends it.
pub Chain-laid_end :
    (w : ℕ → ℕ) (off n foot : ℕ) (cs : List Block)
    → 0 < n
    → Chain w 0 cs off
    → Chain (laid_words w off n foot) 0 (cs ++ (laid_block w off n foot ∷ [])) (off + (16 + 8 * n))
Chain-laid_end w off n foot cs pos h =
    let l : off + (16 + 8 * length (payload_at w (off + 8) n)) ≡ off + (16 + 8 * n) =
      ap (λ x. off + (16 + 8 * x)) (length-payload_at w (off + 8) n) in
    Chain-append (laid_words w off n foot) 0 off (off + (16 + 8 * n)) cs
      (laid_block w off n foot ∷ []) (Chain-laid w off n foot 0 off cs (omega arith) h)
      (At-laid w off n foot pos, l)

-- A cellblock of the same place and size, from its words and its two chains.
pub IsRest-of :
    (s s' : Series) (e t : ℕ) (P Q : List Block)
    → (s.size ≤ 2 ^ 31) × (0 < s.base) × (s.base + s.size < 2 ^ 64)
    → s'.size ≡ s.size
    → s'.base ≡ s.base
    → s'.bounds ≡ halves e t
    → (s'.persistent_overrun ≡ 0) × (s'.temporary_overrun ≡ 0)
    → (e ≤ t) × (t ≤ s.size)
    → Chain s'.word 0 P e
    → Chain s'.word t Q s.size
    → IsRest s' P Q
IsRest-of s s' e t P Q p hs hb h o g l u = record {
  e = e;
  t = t;
  small = omega arith;
  placed = (omega arith, omega arith);
  bounds = h;
  over_end = o.0;
  over_top = o.1;
  gap = g.0;
  within = omega arith;
  lower = l;
  upper = subst (λ b. Chain s'.word t Q b) (sym hs) u;
}
