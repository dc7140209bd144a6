-- ===== src/Carcer/Take/Runs.antt =====
-- The whole sweep of src/locus_carcerum on a tier: its chain afterwards, and the first fit.
use mmgr.Prelude.{
  ℕ, zero, suc, ◌+◌, ◌*◌, ◌/◌, ◌^◌, ◌≤◌, ◌<◌, ◌≡◌, ◌⊎◌, inl, inr, refl, arith, ◌∙◌, ap, sym,
}
use mmgr.Prelude.{List, [], ◌∷◌, ◌++◌, length, true, false, if◌then◌else◌, ltb, lt→ltb}
use mmgr.Prelude.{Option, none, some, ◌==◌, Bool-cases}
use mathlib.Core.Path.{subst, subst₂}
use mathlib.Core.List.{append_assoc, append-nil}
use mmgr.Carcer.Word.{bounds_end}
use mmgr.Carcer.Series.{Series, update}
use mmgr.Carcer.Take.{Sweep, sweep_step, sweep_loop, no_sweep, Swept, swept}
use mmgr.Carcer.Take.Merge.{Answers, step-free, step-held, step-close}
use mmgr.Carcer.Chain.{Block, free, held, widths, At, Chain, Chain-end, Chain-update}
use mmgr.Carcer.Chain.{Chain-append, merged, last_run, first_fit}
use mmgr.Carcer.Take.Found.{
  IsRun, end_after, IsSwept, Answers-held, Answers-close, Answers-same, IsSwept-after, run-le,
  IsRun-free,
}

-- The two stores of a closed run, and what stands past it or ahead of it.
module _ (w : ℕ → ℕ) (at r : ℕ) where
  abbrev closed_run : ℕ → ℕ
  closed_run = update (update w (at + 8 + 8 * r) 0) at (32 * r)

  close-Chain :
      (a b : ℕ) (cs : List Block)
      → (at + 16 + 8 * r ≤ a) ⊎ (b ≤ at)
      → Chain w a cs b
      → Chain closed_run a cs b
  close-Chain a b cs o h =
      Chain-update (update w (at + 8 + 8 * r) 0) at (32 * r) a b cs (omega arith)
        (Chain-update w (at + 8 + 8 * r) 0 a b cs (omega arith) h)

  close-header : (start : ℕ) → start ≡ at → closed_run start ≡ 32 * r
  close-header start e = ground arith

  close-above : (j : ℕ) → at + 16 + 8 * r ≤ j → closed_run j ≡ w j
  close-above j h = ground arith

module _ (want below end : ℕ) (small : end < 2 ^ 32) (reach : end ≤ below) where
  -- The walk is over.
  loop-end :
      (f : ℕ) (s : Series) (k : Sweep) (done : List Block) (r start : ℕ)
      → k.off ≡ end
      → Chain s.word 0 done start
      → IsRun k r start
      → k.run_size ≡ 8 * r
      → Answers k (first_fit want 0 done)
      → IsSwept want end s
          (sweep_loop (suc f) end want below s k).0
          (sweep_loop (suc f) end want below s k).1
          done
          r
  unfolding sweep_loop
  loop-end f s k done r start e hd hr hs ha =
      let over : ltb k.off end ≡ false = ground arith in
      let stop : end_after end k ≡ start = elim (Bool-cases (k.run_size == 0)) [
        | inl z ↦ rw z (let r0 : r ≡ 0 = ground arith in sym e ∙ sym (hr.0 r0))
        | inr z ↦ rw z (sym (hr.1 (ground arith)).0)
      ] in
      rw (over, sweep_loop)
        (record {
          size = hs;
          chain = subst (λ x. Chain s.word 0 done x) (sym stop) hd;
          upto = rw stop (elim (Bool-cases (r == 0)) [
            | inl z ↦ ground (arith, hr.0)
            | inr z ↦ ground (arith, hr.1)
          ]);
          answers = ha;
          frame = refl;
          above = λ j h. refl;
        })

  loop-suc :
      (f : ℕ) (s : Series) (k : Sweep)
      → k.off < end
      → sweep_loop (suc f) end want below s k
        ≡ sweep_loop f end want below (sweep_step want below s k).0 (sweep_step want below s k).1
  unfolding sweep_loop
  loop-suc f s k h = rw (lt→ltb k.off end h, sweep_loop)

  -- The walk merges the free runs, and finds the first that holds the want.
  sweep_loop-IsSwept :
      (cs : List Block) (f : ℕ) (s : Series) (k : Sweep) (done : List Block) (r start : ℕ)
      → length cs < f
      → Chain s.word k.off cs end
      → Chain s.word 0 done start
      → IsRun k r start
      → k.run_size ≡ 8 * r
      → Answers k (first_fit want 0 done)
      → IsSwept want end s
          (sweep_loop f end want below s k).0
          (sweep_loop f end want below s k).1
          (done ++ merged r cs)
          (last_run r cs)
  unfolding merged last_run
  sweep_loop-IsSwept cs zero s k done r start hl hc hd hr hs ha = absurd (omega arith)
  sweep_loop-IsSwept [] (suc f) s k done r start hl hc hd hr hs ha =
      rw append-nil (loop-end f s k done r start hc hd hr hs ha)
  sweep_loop-IsSwept (free m ∷ cs) (suc f) s k done r start hl hc hd hr hs ha =
      let e = Chain-end s.word (k.off + (16 + 8 * m)) end cs hc.1 in
      let r' = if r == 0 then m else r + m + 2 in
      let rs : r < 2 ^ 32 = omega (arith, run-le k r start hr) in
      let st = step-free want below s k m r hc.0.0 hs (omega arith) rs in
      let s1 = (sweep_step want below s k).0 in
      let k1 = (sweep_step want below s k).1 in
      rw (loop-suc f s k (omega arith)) (
        IsSwept-after st.1 (λ j h. ap (λ w. w j) st.0)
          (sweep_loop-IsSwept cs f s1 k1 done r' start (omega arith)
            (subst₂ (λ w a. Chain w a cs end) (sym st.0) (sym st.2) hc.1)
            (subst (λ w. Chain w 0 done start) (sym st.0) hd)
            (IsRun-free k k1 m r start hc.0.1 hr st.2 st.3) st.4
            (Answers-same k k1 (first_fit want 0 done) st.5 st.6 st.7 ha)))
  sweep_loop-IsSwept (held ps g ∷ cs) (suc f) s k done r start hl hc hd hr hs ha =
      let e = Chain-end s.word (k.off + (16 + 8 * length ps)) end cs hc.1 in
      let s1 = (sweep_step want below s k).0 in
      let k1 = (sweep_step want below s k).1 in
      rw (loop-suc f s k (omega arith)) (elim (Bool-cases (r == 0)) [
        | inl z ↦
            let r0 : r ≡ 0 = ground arith in
            let z0 : k.run_size ≡ 0 = omega arith in
            let st = step-held want below s k (length ps) hc.0.0 z0 (omega arith) in
            let here : start ≡ k.off = hr.0 r0 in
            let at : At s.word start (held ps g) =
              subst (λ a. At s.word a (held ps g)) (sym here) hc.0 in
            let done' = done ++ (held ps g ∷ []) in
            let over : start + (16 + 8 * length ps) ≡ k1.off = omega arith in
            let hd' : Chain s.word 0 done' k1.off =
              Chain-append s.word 0 start k1.off done (held ps g ∷ []) hd (at, over) in
            rw (z, ← append_assoc done (held ps g ∷ []) (merged 0 cs))
              (IsSwept-after st.1 (λ j h. ap (λ w. w j) st.0)
                (sweep_loop-IsSwept cs f s1 k1 done' 0 k1.off (omega arith)
                  (subst₂ (λ w a. Chain w a cs end) (sym st.0) (sym st.2) hc.1)
                  (subst (λ w. Chain w 0 done' k1.off) (sym st.0) hd')
                  (λ n. refl, λ n. absurd (omega arith)) (omega arith)
                  (Answers-held want k k1 done ps g ha st.4 st.5 st.6)))
        | inr z ↦
            let pos : 0 < r = ground arith in
            let run = hr.1 pos in
            let st =
              step-close want below s k (length ps) r hc.0.0 hs pos (omega arith) (omega arith)
                (omega arith) in
            let w' = update (update s.word (k.run_at + 8 + 8 * r) 0) k.run_at (32 * r) in
            let done' = done ++ (free r ∷ held ps g ∷ []) in
            let back : start + (16 + 8 * r) ≡ k.off = omega arith in
            let cell : Chain s.word k.off (held ps g ∷ []) k1.off = (hc.0, sym st.2) in
            let cell' : Chain w' (start + (16 + 8 * r)) (held ps g ∷ []) k1.off =
              subst (λ a. Chain w' a (held ps g ∷ []) k1.off) (sym back)
                (close-Chain s.word k.run_at r k.off k1.off (held ps g ∷ []) (omega arith) cell) in
            let head : At w' start (free r) = (close-header s.word k.run_at r start run.0, pos) in
            let hd' : Chain w' 0 done' k1.off =
              Chain-append w' 0 start k1.off done (free r ∷ held ps g ∷ [])
                (close-Chain s.word k.run_at r 0 start done (omega arith) hd) (head, cell') in
            let hc' : Chain w' (k.off + (16 + 8 * length ps)) cs end =
              close-Chain s.word k.run_at r (k.off + (16 + 8 * length ps)) end cs (omega arith)
                hc.1 in
            rw (z, ← append_assoc done (free r ∷ held ps g ∷ []) (merged 0 cs))
              (IsSwept-after st.1
                (λ j h. ap (λ w. w j) st.0 ∙ close-above s.word k.run_at r j (omega arith))
                (sweep_loop-IsSwept cs f s1 k1 done' 0 k1.off (omega arith)
                  (subst₂ (λ w a. Chain w a cs end) (sym st.0) (sym st.2) hc')
                  (subst (λ w. Chain w 0 done' k1.off) (sym st.0) hd')
                  (λ n. refl, λ n. absurd (omega arith)) (omega arith)
                  (Answers-close want r k k1 done ps g ha
                    (omega (arith, Chain-end s.word 0 start done hd)) st.4 st.5 st.6)))
      ])

length-le-widths : (cs : List Block) → 16 * length cs ≤ widths cs
length-le-widths [] = omega arith
length-le-widths (free m ∷ cs) = omega (arith, length-le-widths cs)
length-le-widths (held ps f ∷ cs) = omega (arith, length-le-widths cs)

-- What the answer says of the first fit.
abbrev pub Answered : Swept → Option (ℕ × ℕ) → Type 0
Answered k none = k.found ≡ false
Answered k (some (at, n)) = (k.found ≡ true) × (k.at ≡ at) × (k.size ≡ n)

Answered-same :
    (k : Sweep) (w : Swept) (o : Option (ℕ × ℕ))
    → w.found ≡ k.found
    → w.at ≡ k.at
    → w.size ≡ k.size
    → Answers k o
    → Answered w o
Answered-same k w none e1 e2 e3 a = e1 ∙ a
Answered-same k w (some (at, n)) e1 e2 e3 a = (e1 ∙ a.0, e2 ∙ a.1, e3 ∙ a.2)

-- What `carcer_swept` leaves and answers.
pub record IsSweptTo (want : ℕ) (s s' : Series) (answer : Swept) (cells : List Block) : Type 0 where
  pub chain : Chain s'.word 0 cells answer.end
  pub upto : answer.end ≤ bounds_end s.bounds
  pub found : Answered answer (first_fit want 0 cells)
  pub frame : s' ≡ record s { word = s'.word; sink = s'.sink }
  pub above : (j : ℕ) → s'.word (bounds_end s.bounds + j) ≡ s.word (bounds_end s.bounds + j)

-- Where the persistent tier is a chain of cells whose end is below 2 ^ 32 and not past `below`: the
-- sweep, within the rounds that the end allows, leaves the chain with its free runs merged, up to the
-- end that it answers, which is the old end without the run of free cells at it; it changes words
-- below the old end only, and its answer is the first free cell of the merged chain that holds the
-- want.
pub swept-IsSweptTo :
    (want below : ℕ) (s : Series) (cs : List Block)
    → bounds_end s.bounds < 2 ^ 32
    → bounds_end s.bounds ≤ below
    → Chain s.word 0 cs (bounds_end s.bounds)
    → IsSweptTo want s (swept want below true s).0 (swept want below true s).1 (merged 0 cs)
unfolding swept
swept-IsSweptTo want below s cs small reach h =
    let end = bounds_end s.bounds in
    let e = Chain-end s.word 0 end cs h in
    let rounds : length cs < end / 16 + 1 = omega (arith, length-le-widths cs) in
    let v =
      sweep_loop-IsSwept want below end small reach cs (end / 16 + 1) s no_sweep [] 0 0 rounds h
        refl (λ n. refl, λ n. absurd (omega arith)) (omega arith) (unfold first_fit in refl) in
    let k = (sweep_loop (end / 16 + 1) end want below s no_sweep).1 in
    let answered =
      Answered-same k (swept want below true s).1 (first_fit want 0 (merged 0 cs)) refl refl refl
        v.answers in
    record {
      chain = v.chain;
      upto = v.upto;
      found = answered;
      frame = v.frame;
      above = λ j. v.above (end + j) (omega arith);
    }
