-- ===== src/Carcer/Round.antt =====
-- Takes of many contexts on one cellblock of src/locus_carcerum, each bump in its atomic steps:
-- the reading ahead, the add on the bounds word, the add on the overrun. The exclusive operations
-- run when the turnstiles are drained: no bump is between its steps. 127 contexts at most.
pub mod Apart
pub mod Sound
pub mod Safety
use mmgr.Prelude.{ℕ, ◌+◌, ◌-◌, ◌≤◌, ◌≡◌, Bool, true, false, List, [], ◌∷◌, ◌++◌, map, length}
use mmgr.Carcer.Word.{add64, pack_bounds, bounds_end, cell_hdr}
use mmgr.Carcer.Series.{Series, settled}
use mmgr.Carcer.Take.{bump_moved, bump_now, bump_fits, bump_within}

-- Where a context stands in `carcer_bumped`: outside it, past the reading ahead, past an add that
-- the gap did not meet, past the add on the overrun (it waits for the exclusive path).
pub data Phase : Type 0 where
  idle : Phase
  ready : Bool → ℕ → Phase
  short : Bool → ℕ → Phase
  waiting : Bool → ℕ → Phase

-- A cell laid: its offset and the bytes that it takes, its two words included.
pub record Laid : Type 0 where
  pub off : ℕ
  pub need : ℕ

-- The cells are those of each tier in the order of their offsets.
pub record System : Type 0 where
  pub series : Series
  pub phases : List Phase
  pub persistent : List Laid
  pub temporary : List Laid

-- Consecutive cells from one offset to another.
abbrev pub Tiles : ℕ → List Laid → ℕ → Type 0
Tiles a [] b = a ≡ b
Tiles a (c ∷ cs) b = (c.off ≡ a) × Tiles (a + c.need) cs b

-- No bump is between its steps.
abbrev pub IsDrained : List Phase → Type 0
IsDrained [] = Unit {0}
IsDrained (ready down need ∷ ps) = ⊥
IsDrained (short down need ∷ ps) = ⊥
IsDrained (idle ∷ ps) = IsDrained ps
IsDrained (waiting down need ∷ ps) = IsDrained ps

unfoldable pub add_over : Bool → ℕ → Series → Series
unfolding add64
add_over down over s = record s {
  persistent_overrun = elim down [
    | true ↦ s.persistent_overrun
    | false ↦ add64 s.persistent_overrun over
  ];
  temporary_overrun = elim down [
    | true ↦ add64 s.temporary_overrun over
    | false ↦ s.temporary_overrun
  ];
}

pub data Step : System → System → Type 0 where
  -- The context's tests pass.
  read_ahead :
      (y : System) (pre post : List Phase) (down : Bool) (want : ℕ)
      → y.phases ≡ pre ++ (idle ∷ post)
      → bump_within down want y.series.bounds ≡ true
      → Step y (record y { phases = pre ++ (ready down (cell_hdr + want) ∷ post) })
  -- The add on the bounds word, where the gap meets the bump up, and the cell.
  add_up :
      (y : System) (pre post : List Phase) (need : ℕ)
      → y.phases ≡ pre ++ (ready false need ∷ post)
      → bump_fits false y.series.size y.series.bounds need ≡ true
      → Step y (record y {
        series = record y.series { bounds = add64 y.series.bounds (bump_moved false need) };
        phases = pre ++ (idle ∷ post);
        persistent =
            y.persistent ++ (record { off = bounds_end y.series.bounds; need = need } ∷ []);
      })
  -- The same for a bump down.
  add_down :
      (y : System) (pre post : List Phase) (need : ℕ)
      → y.phases ≡ pre ++ (ready true need ∷ post)
      → bump_fits true y.series.size y.series.bounds need ≡ true
      → Step y (record y {
        series = record y.series { bounds = add64 y.series.bounds (bump_moved true need) };
        phases = pre ++ (idle ∷ post);
        temporary = record { off = bump_now true y.series.bounds need; need = need } ∷ y.temporary;
      })
  -- The add on the bounds word, where the gap does not meet the bump.
  add_short :
      (y : System) (pre post : List Phase) (down : Bool) (need : ℕ)
      → y.phases ≡ pre ++ (ready down need ∷ post)
      → bump_fits down y.series.size y.series.bounds need ≡ false
      → Step y (record y {
        series = record y.series { bounds = add64 y.series.bounds (bump_moved down need) };
        phases = pre ++ (short down need ∷ post);
      })
  -- The add on the tier's overrun.
  overrun :
      (y : System) (pre post : List Phase) (down : Bool) (need : ℕ)
      → y.phases ≡ pre ++ (short down need ∷ post)
      → Step y (record y {
        series = add_over down need y.series;
        phases = pre ++ (waiting down need ∷ post);
      })
  -- An exclusive operation: it settles the bounds, and leaves cells and boundaries of its own.
  exclusive :
      (y : System) (e t : ℕ) (P Q : List Laid)
      → IsDrained y.phases
      → Tiles 0 P e
      → e ≤ t
      → Tiles t Q y.series.size
      → t ≤ y.series.size
      → Step y (record y {
        series = record (settled y.series) { bounds = pack_bounds e t };
        phases = map (λ p. idle) y.phases;
        persistent = P;
        temporary = Q;
      })

pub data Reach (y : System) : System → Type 0 where
  here : Reach y y
  next : {z u : System} → Reach y z → Step z u → Reach y u
