-- ===== src/Carcer/Take/Found.antt =====
-- The locals of the sweep of src/locus_carcerum, round by round: the run ahead and the first fit.
use mmgr.Prelude.{ℕ, ◌+◌, ◌*◌, ◌≤◌, ◌<◌, ◌≡◌, inl, inr, arith, ◌∙◌, ap}
use mmgr.Prelude.{List, [], ◌∷◌, ◌++◌, length, ◌&&◌, ◌||◌, not, if◌then◌else◌, leb}
use mmgr.Prelude.{Option, none, some, ◌==◌, Bool-cases}
use mmgr.Carcer.Series.{Series}
use mmgr.Carcer.Take.{Sweep}
use mmgr.Carcer.Take.Merge.{Answers}
use mmgr.Carcer.Chain.{Block, free, held, widths, Chain}
use mmgr.Carcer.Chain.{first_fit}

-- The run ahead of the offset reached: its words, and where the cells settled so far end.
abbrev pub IsRun : Sweep → ℕ → ℕ → Type 0
IsRun k r start =
    (r ≡ 0 → start ≡ k.off) × (0 < r → (start ≡ k.run_at) × (k.off ≡ start + (16 + 8 * r)))

-- The end of the chain when the walk is over.
abbrev pub end_after : ℕ → Sweep → ℕ
end_after end k = if k.run_size == 0 then end else k.run_at

pub record IsSwept (want end : ℕ) (s s' : Series) (k' : Sweep) (cells : List Block) (last : ℕ)
    : Type 0 where
  pub size : k'.run_size ≡ 8 * last
  pub chain : Chain s'.word 0 cells (end_after end k')
  pub upto : end_after end k' ≤ end
  pub answers : Answers k' (first_fit want 0 cells)
  pub frame : s' ≡ record s { word = s'.word; sink = s'.sink }
  pub above : (j : ℕ) → end ≤ j → s'.word j ≡ s.word j

pub first_fit-append :
    (want a : ℕ) (cs ds : List Block)
    → first_fit want a (cs ++ ds)
      ≡ elim (first_fit want a cs) [ some p ↦ some p | none ↦ first_fit want (a + widths cs) ds ]
unfolding first_fit
first_fit-append want a [] ds = ap (λ x. first_fit want x ds) (omega arith)
first_fit-append want a (free m ∷ cs) ds = elim (Bool-cases (leb want (8 * m))) [
  | inl e ↦ rw e
  | inr e ↦ rw e (
      first_fit-append want (a + (16 + 8 * m)) cs ds
      ∙ ap
          (λ x. elim (first_fit want (a + (16 + 8 * m)) cs) [
            | some p ↦ some p
            | none ↦ first_fit want x ds
          ])
          (omega arith))
]
first_fit-append want a (held ps f ∷ cs) ds =
    first_fit-append want (a + (16 + 8 * length ps)) cs ds
    ∙ ap
        (λ x. elim (first_fit want (a + (16 + 8 * length ps)) cs) [
          | some p ↦ some p
          | none ↦ first_fit want x ds
        ])
        (omega arith)

pub Answers-held :
    (want : ℕ) (k k' : Sweep) (done : List Block) (ps : List ℕ) (f : ℕ)
    → Answers k (first_fit want 0 done)
    → k'.found ≡ k.found
    → k'.at ≡ k.at
    → k'.size ≡ k.size
    → Answers k' (first_fit want 0 (done ++ (held ps f ∷ [])))
unfolding first_fit
Answers-held want k k' done ps f h e1 e2 e3 = rw first_fit-append (go (first_fit want 0 done) h)
  where
    go :
        (o : Option (ℕ × ℕ))
        → Answers k o
        → Answers k'
            (elim o [ some p ↦ some p | none ↦ first_fit want (0 + widths done) (held ps f ∷ []) ])
    go none a = e1 ∙ a
    go (some (at, n)) a = (e1 ∙ a.0, e2 ∙ a.1, e3 ∙ a.2)

pub Answers-close :
    (want r : ℕ) (k k' : Sweep) (done : List Block) (ps : List ℕ) (f : ℕ)
    → Answers k (first_fit want 0 done)
    → k.run_at ≡ widths done
    → k'.found ≡ (k.found || leb want (8 * r))
    → k'.at ≡ (if not k.found && leb want (8 * r) then k.run_at else k.at)
    → k'.size ≡ (if not k.found && leb want (8 * r) then 8 * r else k.size)
    → Answers k' (first_fit want 0 (done ++ (free r ∷ held ps f ∷ [])))
unfolding first_fit
Answers-close want r k k' done ps f h e0 e1 e2 e3 =
    rw first_fit-append (go (first_fit want 0 done) h)
  where
    go :
        (o : Option (ℕ × ℕ))
        → Answers k o
        → Answers k' (elim o [
          | some p ↦ some p
          | none ↦ first_fit want (0 + widths done) (free r ∷ held ps f ∷ [])
        ])
    go none a = elim (Bool-cases (leb want (8 * r))) [
      | inl e ↦ rw e (ground arith, ground arith, ground arith)
      | inr e ↦ rw e (ground arith)
    ]
    go (some (at, n)) a = ground arith

pub frame_trans :
    (s s1 s2 : Series)
    → s1 ≡ record s { word = s1.word; sink = s1.sink }
    → s2 ≡ record s1 { word = s2.word; sink = s2.sink }
    → s2 ≡ record s { word = s2.word; sink = s2.sink }
frame_trans s s1 s2 h k = k ∙ ap (λ (x : Series). record x { word = s2.word; sink = s2.sink }) h

-- A round that changed nothing past the end, followed by the rest of the walk.
pub IsSwept-after :
    {want end : ℕ} {s s1 s2 : Series} {k : Sweep} {cells : List Block} {last : ℕ}
    → s1 ≡ record s { word = s1.word; sink = s1.sink }
    → ((j : ℕ) → end ≤ j → s1.word j ≡ s.word j)
    → IsSwept want end s1 s2 k cells last
    → IsSwept want end s s2 k cells last
IsSwept-after {s} {s1} {s2} h a v = record {
  size = v.size;
  chain = v.chain;
  upto = v.upto;
  answers = v.answers;
  frame = frame_trans s s1 s2 h v.frame;
  above = λ j e. v.above j e ∙ a j e;
}

pub run-le : (k : Sweep) (r start : ℕ) → IsRun k r start → 8 * r ≤ k.off
run-le k r start h = elim (Bool-cases (r == 0)) [
  | inl z ↦ ground arith
  | inr z ↦ let z' : 0 < r = ground arith in omega (arith, h.1 z')
]

pub IsRun-free :
    (k k1 : Sweep) (m r start : ℕ)
    → 0 < m
    → IsRun k r start
    → k1.off ≡ k.off + (16 + 8 * m)
    → k1.run_at ≡ (if r == 0 then k.off else k.run_at)
    → IsRun k1 (if r == 0 then m else r + m + 2) start
IsRun-free k k1 m r start pos h e1 e2 = elim (Bool-cases (r == 0)) [
  | inl z ↦
      let z' : r ≡ 0 = ground arith in
      let at = h.0 z' in
      let e2' : k1.run_at ≡ k.off = ground arith in
      rw z (λ n. absurd (omega arith), λ n. (omega arith, omega arith))
  | inr z ↦
      let z' : 0 < r = ground arith in
      let at = h.1 z' in
      let e2' : k1.run_at ≡ k.run_at = ground arith in
      rw z (λ n. absurd (omega arith), λ n. (omega arith, omega arith))
]

pub Answers-same :
    (k k' : Sweep) (o : Option (ℕ × ℕ))
    → k'.found ≡ k.found
    → k'.at ≡ k.at
    → k'.size ≡ k.size
    → Answers k o
    → Answers k' o
Answers-same k k' none e1 e2 e3 a = e1 ∙ a
Answers-same k k' (some (at, n)) e1 e2 e3 a = (e1 ∙ a.0, e2 ∙ a.1, e3 ∙ a.2)
