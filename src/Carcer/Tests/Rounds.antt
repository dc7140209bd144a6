-- ===== src/Carcer/Tests/Rounds.antt =====
-- Two contexts that take from one cellblock of src/locus_carcerum: the second is refused.
use mmgr.Prelude.{ℕ, ◌+◌, ◌≤◌, ◌≡◌, refl, arith, true, false, [], ◌∷◌, ◌++◌}
use mmgr.Carcer.Word.{add64, bounds_end, bounds_top, cell_hdr}
use mmgr.Carcer.Series.{settled}
use mmgr.Carcer.Take.{bump_fits, bump_within, bump_moved}
use mmgr.Carcer.Round.{idle, ready, short, waiting, System, Tiles, Reach}
use mmgr.Carcer.Round.{add_over, read_ahead, add_up, add_short, overrun, here, next}
use mmgr.Carcer.Round.Apart.{AllTo, Disjoint}
use mmgr.Carcer.Round.Safety.{IsFresh, Reach-Disjoint, refused-absorbing, settled-rest}
use mmgr.Carcer.Tests.{fresh}

abbrev begun : System
begun = record { series = fresh; phases = idle ∷ idle ∷ []; persistent = []; temporary = [] }

begun-IsFresh : IsFresh begun
begun-IsFresh = record {
  small = omega arith;
  bounds = refl;
  over_end = refl;
  over_top = refl;
  contexts = omega arith;
  calls = tt;
  persistent = refl;
  temporary = refl;
}

abbrev one_ahead : System
one_ahead = record begun { phases = ready false (cell_hdr + 8) ∷ idle ∷ [] }

abbrev one_up : System
one_up = record one_ahead {
  series = record fresh { bounds = add64 fresh.bounds (bump_moved false 24) };
  phases = idle ∷ idle ∷ [];
  persistent = record { off = bounds_end fresh.bounds; need = 24 } ∷ [];
}

abbrev two_ahead : System
two_ahead = record one_up { phases = idle ∷ ready false (cell_hdr + 240) ∷ [] }

abbrev both_ahead : System
both_ahead = record two_ahead {
  phases = ready true (cell_hdr + 8) ∷ ready false (cell_hdr + 240) ∷ [];
}

abbrev two_short : System
two_short = record both_ahead {
  series = record one_up.series { bounds = add64 one_up.series.bounds (bump_moved false 256) };
  phases = ready true 24 ∷ short false 256 ∷ [];
}

begun-one_up : Reach begun one_up
begun-one_up =
    next
      (next here
        (read_ahead begun [] (idle ∷ []) false 8 refl (unfold bump_within bounds_end in refl)))
      (add_up one_ahead [] (idle ∷ []) 24 refl (unfold bump_fits in refl))

begun-two_short : Reach begun two_short
begun-two_short =
    next
      (next
        (next begun-one_up (
          read_ahead one_up (idle ∷ []) [] false 240 refl
            (unfold bump_within bounds_end add64 bump_moved in refl)))
        (read_ahead two_ahead [] (ready false 256 ∷ []) true 8 refl
          (unfold bump_within bounds_end add64 bump_moved in refl)))
      (add_short both_ahead (ready true 24 ∷ []) [] false 256 refl
        (unfold bump_fits add64 bump_moved in refl))

Reach-Disjoint_example :
    Disjoint (two_short.persistent ++ two_short.temporary)
    × AllTo 256 (two_short.persistent ++ two_short.temporary)
Reach-Disjoint_example = Reach-Disjoint begun two_short begun-IsFresh begun-two_short

refused-absorbing_example : bump_fits true 256 two_short.series.bounds 24 ≡ false
refused-absorbing_example =
    refused-absorbing begun two_short [] (short false 256 ∷ []) true 24 begun-IsFresh
      begun-two_short refl (omega arith)

-- The second alone is short, adds its overrun, and waits.
abbrev alone_short : System
alone_short = record two_ahead {
  series = record one_up.series { bounds = add64 one_up.series.bounds (bump_moved false 256) };
  phases = idle ∷ short false 256 ∷ [];
}

abbrev alone_waiting : System
alone_waiting = record alone_short {
  series = add_over false 256 alone_short.series;
  phases = idle ∷ waiting false 256 ∷ [];
}

begun-alone_waiting : Reach begun alone_waiting
begun-alone_waiting =
    next
      (next
        (next begun-one_up (
          read_ahead one_up (idle ∷ []) [] false 240 refl
            (unfold bump_within bounds_end add64 bump_moved in refl)))
        (add_short two_ahead (idle ∷ []) [] false 256 refl
          (unfold bump_fits add64 bump_moved in refl)))
      (overrun alone_short (idle ∷ []) [] false 256 refl)

settled-rest_example :
    (e : ℕ) × (t : ℕ) × Tiles 0 alone_waiting.persistent e
    × Tiles t alone_waiting.temporary alone_waiting.series.size
    × (e ≤ t)
    × (bounds_end (settled alone_waiting.series).bounds ≡ e)
    × (bounds_top (settled alone_waiting.series).bounds ≡ t)
    × ((settled alone_waiting.series).persistent_overrun ≡ 0)
    × ((settled alone_waiting.series).temporary_overrun ≡ 0)
settled-rest_example = settled-rest begun alone_waiting begun-IsFresh begun-alone_waiting tt
