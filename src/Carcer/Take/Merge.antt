-- ===== src/Carcer/Take/Merge.antt =====
-- The sweep of src/locus_carcerum on a chain of cells: it merges the free runs in the words, and
-- finds the first that holds the want.
use mmgr.Prelude.{ℕ, ◌+◌, ◌*◌, ◌^◌, ◌≤◌, ◌<◌, ◌≡◌, refl, arith, ◌∙◌, ap}
use mmgr.Prelude.{true, false, ◌&&◌, ◌||◌, not, if◌then◌else◌, leb}
use mmgr.Prelude.{Option, none, some, ◌==◌}
use mmgr.Carcer.Word.{add64, header, header_size, header_state, foot_of, free_state}
use mmgr.Carcer.Word.Laws.{header_lem, header_size_lem, header_state_lem, foot_of_lem, end_of_lem}
use mmgr.Carcer.Series.{Series, update, store_picked}
use mmgr.Carcer.Take.{Sweep, sweep_step}

-- What the locals of the sweep say of the first fit among the cells passed.
abbrev pub Answers : Sweep → Option (ℕ × ℕ) → Type 0
Answers k none = k.found ≡ false
Answers k (some (at, n)) = (k.found ≡ true) × (k.at ≡ at) × (k.size ≡ n)

-- The free cell merged at an offset of one word, and the answer once it is passed.
module _ (want below : ℕ) (s : Series) (k : Sweep) where
  abbrev pub s' : Series
  s' = (sweep_step want below s k).0

  abbrev pub k' : Sweep
  k' = (sweep_step want below s k).1

  -- A free cell is taken into the run.
  pub step-free :
      (m r : ℕ)
      → s.word k.off ≡ 32 * m
      → k.run_size ≡ 8 * r
      → k.off + 16 + 8 * m < 2 ^ 32
      → r < 2 ^ 32
      → (s'.word ≡ s.word)
        × (s' ≡ record s { word = s'.word; sink = s'.sink })
        × (k'.off ≡ k.off + (16 + 8 * m))
        × (k'.run_at ≡ (if r == 0 then k.off else k.run_at))
        × (k'.run_size ≡ 8 * (if r == 0 then m else r + m + 2))
        × (k'.found ≡ k.found)
        × (k'.at ≡ k.at)
        × (k'.size ≡ k.size)
  unfolding sweep_step store_picked add64
  step-free m r hw hr small rs =
      let e1 : header_size (s.word k.off) ≡ 8 * m = omega (arith, header_size_lem (s.word k.off)) in
      let e2 : header_state (s.word k.off) ≡ 0 = omega (arith, header_state_lem (s.word k.off)) in
      let e3 = end_of_lem k.off (8 * m) (omega arith) in ground arith

  -- A held cell with no run ahead of it is passed.
  pub step-held :
      (n : ℕ)
      → s.word k.off ≡ 32 * n + 1
      → k.run_size ≡ 0
      → k.off + 16 + 8 * n < 2 ^ 32
      → (s'.word ≡ s.word)
        × (s' ≡ record s { word = s'.word; sink = s'.sink })
        × (k'.off ≡ k.off + (16 + 8 * n))
        × (k'.run_size ≡ 0)
        × (k'.found ≡ k.found)
        × (k'.at ≡ k.at)
        × (k'.size ≡ k.size)
  unfolding sweep_step store_picked
  step-held n hw hr small =
      let e1 : header_size (s.word k.off) ≡ 8 * n = omega (arith, header_size_lem (s.word k.off)) in
      let e2 : header_state (s.word k.off) ≡ 1 = omega (arith, header_state_lem (s.word k.off)) in
      let e3 = end_of_lem k.off (8 * n) (omega arith) in ground arith

  -- A held cell closes the run ahead of it: the run's first header counts all of it.
  pub step-close :
      (n r : ℕ)
      → s.word k.off ≡ 32 * n + 1
      → k.run_size ≡ 8 * r
      → 0 < r
      → k.off + 16 + 8 * n < 2 ^ 32
      → k.run_at + 16 + 8 * r < 2 ^ 32
      → k.off ≤ below
      → (s'.word ≡ update (update s.word (k.run_at + 8 + 8 * r) 0) k.run_at (32 * r))
        × (s' ≡ record s { word = s'.word; sink = s'.sink })
        × (k'.off ≡ k.off + (16 + 8 * n))
        × (k'.run_size ≡ 0)
        × (k'.found ≡ k.found || leb want (8 * r))
        × (k'.at ≡ (if not k.found && leb want (8 * r) then k.run_at else k.at))
        × (k'.size ≡ (if not k.found && leb want (8 * r) then 8 * r else k.size))
  unfolding sweep_step store_picked
  step-close n r hw hr pos small small' hb =
      let e1 : header_size (s.word k.off) ≡ 8 * n = omega (arith, header_size_lem (s.word k.off)) in
      let e2 : header_state (s.word k.off) ≡ 1 = omega (arith, header_state_lem (s.word k.off)) in
      let e3 = end_of_lem k.off (8 * n) (omega arith) in
      let f0 : (k.run_size == 0) ≡ false = ground arith in
      let f1 : leb k.off below ≡ true = ground arith in
      let f2 : leb want k.run_size ≡ leb want (8 * r) = ap (leb want) hr in
      let e4 : foot_of k.run_at k.run_size ≡ k.run_at + 8 + 8 * r =
        ap (foot_of k.run_at) hr ∙ foot_of_lem k.run_at (8 * r) (omega arith) in
      let e5 : header k.run_size free_state ≡ 32 * r =
        ap (λ n. header n 0) hr ∙ header_lem (8 * r) 0 (omega arith) (omega arith) ∙ omega arith in
      rw (e1, e2, f0, f1, e3, e4, e5, f2)
        (refl, refl, omega arith, refl, ground arith, ground arith, ground arith)
