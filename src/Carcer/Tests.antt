-- ===== src/Carcer/Tests.antt =====
-- Runs of src/locus_carcerum on a cellblock of 256 bytes.
mod Rounds
mod Gives
use mmgr.Prelude.{
  ℕ, ◌+◌, ◌^◌, ◌*◌, ◌%◌, ◌<◌, true, false, List, [], ◌∷◌, ◌++◌, some, ◌≡◌, refl, arith,
}
use mathlib.Core.Option
use mmgr.Carcer.Word.{bounds_end, bounds_top}
use mmgr.Carcer.Series.{Series, Owner, listed, update}
use mmgr.Carcer.Take.{Swept, swept, bumped, taken}
use mmgr.Carcer.Give.{released, given, cell_read, who_owns, off_of, is_null, zero_words}
use mmgr.Carcer.Word.{owner_word_place, foot_of, end_of, is_complete, owner_is, header}
use mmgr.Carcer.Series.{owner_at, uncounted, size_at, owner_found, foot_claimed, store_picked}
use mmgr.Carcer.Chain.{Block, free, held, Chain, merged}
use mmgr.Carcer.Chain.Merged.{helds, IsCompact}
use mmgr.Carcer.Take.Runs.{IsSweptTo, swept-IsSweptTo}
use mmgr.Carcer.Take.Kept.{swept-keeps}
use mmgr.Carcer.Take.Lay.{IsRest, laid_block}
use mmgr.Carcer.Take.Persistent.{up_take, bumped-IsRest}
use mmgr.Carcer.Series.{owner_place}

-- The cellblock as the site macro lays it.
abbrev pub fresh : Series
fresh = record {
  base = 4096;
  size = 256;
  bounds = 256 * 2 ^ 32;
  persistent_overrun = 0;
  temporary_overrun = 0;
  in_use = 0;
  persistent_in_use = 0;
  closed = 0;
  sink = 0;
  word = λ off. 0;
  owner_count = 2;
  owner_in_use = λ o. 0;
  owner_hw = λ o. 0;
  told = [];
}

one_taken : Series
unfolding taken
one_taken = (taken 7 [] 20 (listed 1) false true fresh).0

taken-first : (taken 7 [] 20 (listed 1) false true fresh).1 ≡ 4104
unfolding taken
taken-first = refl

two_taken : Series
unfolding taken one_taken
two_taken = (taken 7 [] 30 (listed 0) false true one_taken).0

taken-second : (taken 7 [] 30 (listed 0) false true one_taken).1 ≡ 4144
unfolding taken one_taken
taken-second = refl

released-inner :
    Option.map (λ s. bounds_end s.bounds) (released 4104 (listed 1) false two_taken) ≡ some 88
unfolding released given owner_word_place owner_at uncounted cell_read who_owns off_of size_at
    foot_of is_complete owner_is owner_place owner_found is_null end_of zero_words foot_claimed
    store_picked header two_taken bounds_end bounds_top
released-inner = refl

-- Two free cells, a held one and a free one at the end.
abbrev parted_cells : List Block
parted_cells = free 1 ∷ free 1 ∷ held (5 ∷ []) 9 ∷ free 2 ∷ []

abbrev parted : Series
parted = record fresh {
  bounds = 256 * 2 ^ 32 + 104;
  word =
      update (update (update (update (update (update (λ off. 0) 0 32) 24 32) 48 33) 56 5) 64 9) 72
        64;
}

parted-end : bounds_end parted.bounds ≡ 104
unfolding bounds_end
parted-end = refl

parted-Chain : Chain parted.word 0 parted_cells 104
parted-Chain = (
  (refl, omega arith),
  ((refl, omega arith), ((refl, omega arith, (refl, tt), refl), ((refl, omega arith), refl))),
)

parted-Chain_bounds : Chain parted.word 0 parted_cells (bounds_end parted.bounds)
parted-Chain_bounds = rw parted-end parted-Chain

swept-IsSweptTo_example :
    IsSweptTo 16 parted
      (swept 16 256 true parted).0
      (swept 16 256 true parted).1
      (merged 0 parted_cells)
swept-IsSweptTo_example =
    swept-IsSweptTo 16 256 parted parted_cells (omega (arith, parted-end))
      (omega (arith, parted-end)) parted-Chain_bounds

swept-keeps_example :
    let out = swept 16 256 true parted in
    (cells : List Block) × Chain out.0.word 0 cells out.1.end
    × (helds cells ≡ helds parted_cells)
    × IsCompact cells
swept-keeps_example =
    swept-keeps 16 256 parted parted_cells (omega (arith, parted-end)) (omega (arith, parted-end))
      parted-Chain_bounds

parted-IsRest : IsRest parted parted_cells []
parted-IsRest = record {
  e = 104;
  t = 256;
  small = omega arith;
  placed = (omega arith, omega arith);
  bounds = omega arith;
  over_end = refl;
  over_top = refl;
  gap = omega arith;
  within = omega arith;
  lower = parted-Chain;
  upper = refl;
}

bumped-IsRest_example :
    let out = bumped 7 (up_take 7 3 (listed 1) parted) true parted in
    let foot = owner_place (listed 1) * 2 ^ 56 + 7 % 2 ^ 52 in
    (out.1 ≡ 4096 + parted-IsRest.e + 8)
    × IsRest out.0 (parted_cells ++ (laid_block parted.word parted-IsRest.e 3 foot ∷ [])) []
bumped-IsRest_example =
    bumped-IsRest 7 3 (listed 1) parted parted_cells [] parted-IsRest
      (unfold owner_place in omega arith) (omega arith) (omega arith)
      (unfold parted-IsRest in omega arith)
