-- ===== src/Carcer/Take/Kept.antt =====
-- What a sweep of src/locus_carcerum keeps of a tier.
use mmgr.Prelude.{ℕ, ◌^◌, ◌≤◌, ◌<◌, ◌≡◌, List, true}
use mmgr.Carcer.Word.{bounds_end}
use mmgr.Carcer.Series.{Series}
use mmgr.Carcer.Take.{swept}
use mmgr.Carcer.Take.Runs.{swept-IsSweptTo}
use mmgr.Carcer.Chain.{Block, Chain, merged}
use mmgr.Carcer.Chain.Merged.{helds, helds-merged, IsCompact, merged-IsCompact}

-- Where the persistent tier is a chain of cells whose end is below 2 ^ 32 and not past `below`: the
-- sweep leaves a chain of cells up to the end that it answers, with the held cells of the chain
-- before it in their order, payloads and owner words included, and a held cell right behind each
-- free one.
pub swept-keeps :
    (want below : ℕ) (s : Series) (cs : List Block)
    → bounds_end s.bounds < 2 ^ 32
    → bounds_end s.bounds ≤ below
    → Chain s.word 0 cs (bounds_end s.bounds)
    → let out = swept want below true s in
      (cells : List Block) × Chain out.0.word 0 cells out.1.end
      × (helds cells ≡ helds cs)
      × IsCompact cells
swept-keeps want below s cs small reach h = (
  merged 0 cs,
  (swept-IsSweptTo want below s cs small reach h).chain,
  helds-merged 0 cs,
  merged-IsCompact 0 cs,
)
