-- ===== src/Carcer/Round/Safety.antt =====
-- What the concurrent takes of src/locus_carcerum guarantee, whatever the order of their steps.
mod Phases
mod Ahead
mod Up
mod Down
mod Short
mod Overrun
use Ahead.{read_ahead-IsSound}
use Up.{add_up-IsSound, fits_up-settled}
use Down.{add_down-IsSound, fits_down-settled}
use Short.{add_short-IsSound}
use Overrun.{overrun-IsSound, exclusive-IsSound}
use Phases.{delta, refused-le}
use mmgr.Prelude.{
  ℕ, ◌+◌, ◌-◌, ◌*◌, ◌%◌, ◌^◌, ◌≤◌, ◌<◌, ◌≡◌, ◌⊎◌, inl, inr, refl, sym, ap, ◌∙◌, arith,
}
use mmgr.Prelude.{Bool, true, false, List, [], ◌∷◌, ◌++◌, length, Bool-cases}
use mathlib.Core.Path.{subst}
use mmgr.Carcer.Word.{add64, sub64, bounds_end, bounds_top, pack_bounds}
use mmgr.Carcer.Word.Laws.{pack_bounds_lem, bounds_end_lem, bounds_top_lem}
use mmgr.Carcer.Series.{settled}
use mmgr.Carcer.Take.{bump_fits}
use mmgr.Carcer.Take.Bump.{halves, end-halves, top-halves, settle-halves}
use mmgr.Carcer.Round.{
  Phase, idle, ready, short, waiting, Laid, System, Tiles, Step, Reach, IsDrained,
}
use mmgr.Carcer.Round.{read_ahead, add_up, add_down, add_short, overrun, exclusive, here, next}
use mmgr.Carcer.Round.Sound.{IsSound, refused, sum_of, refused_bytes, ready_bytes, waiting_bytes}
use mmgr.Carcer.Round.Sound.{contexts_most, Bounded}
use mmgr.Carcer.Round.Apart.{
  AllFrom, AllTo, Disjoint, AllFrom-le, AllTo-le, Tiles-AllFrom, Tiles-AllTo, AllTo-append,
}
use mmgr.Carcer.Round.Apart.{Tiles-Disjoint, Disjoint-append}

-- Every step keeps the invariant of the word, the overruns and the chains.
pub Step-IsSound : {y z : System} → Step y z → IsSound y → IsSound z
Step-IsSound (read_ahead y pre post down want hp hw) v =
    read_ahead-IsSound y pre post down want hp hw v
Step-IsSound (add_up y pre post need hp hw) v = add_up-IsSound y pre post need hp hw v
Step-IsSound (add_down y pre post need hp hw) v = add_down-IsSound y pre post need hp hw v
Step-IsSound (add_short y pre post down need hp hw) v =
    add_short-IsSound y pre post down need hp hw v
Step-IsSound (overrun y pre post down need hp) v = overrun-IsSound y pre post down need hp v
Step-IsSound (exclusive y e t P Q hd hP het hQ ht) v = exclusive-IsSound y e t P Q hP het hQ ht v

pub Reach-IsSound : {y z : System} → IsSound y → Reach y z → IsSound z
Reach-IsSound v here = v
Reach-IsSound v (next r s) = Step-IsSound s (Reach-IsSound v r)

abbrev pub AllIdle : List Phase → Type 0
AllIdle [] = Unit {0}
AllIdle (idle ∷ ps) = AllIdle ps
AllIdle (p ∷ ps) = ⊥

-- The cellblock as the site macro lays it, with no context in a call.
pub record IsFresh (y : System) : Type 0 where
  pub small : y.series.size ≤ 2 ^ 31
  pub bounds : y.series.bounds ≡ y.series.size * 2 ^ 32
  pub over_end : y.series.persistent_overrun ≡ 0
  pub over_top : y.series.temporary_overrun ≡ 0
  pub contexts : length y.phases ≤ contexts_most
  pub calls : AllIdle y.phases
  pub persistent : y.persistent ≡ []
  pub temporary : y.temporary ≡ []

idle-phases :
    (ps : List Phase)
    → AllIdle ps
    → (sum_of (refused_bytes true) ps ≡ 0)
      × (sum_of (refused_bytes false) ps ≡ 0)
      × (sum_of (ready_bytes false) ps ≡ 0)
      × (sum_of (waiting_bytes true) ps ≡ 0)
      × (sum_of (waiting_bytes false) ps ≡ 0)
      × Bounded ps
idle-phases [] h = omega arith
idle-phases (idle ∷ ps) h =
    let r = idle-phases ps h in
    (omega arith, omega arith, omega arith, omega arith, omega arith, (omega arith, r.5))
idle-phases (ready d n ∷ ps) h = absurd h
idle-phases (short d n ∷ ps) h = absurd h
idle-phases (waiting d n ∷ ps) h = absurd h

IsFresh-IsSound : (y : System) → IsFresh y → IsSound y
IsFresh-IsSound y f =
    let sums = idle-phases y.phases f.calls in
    record {
      e = 0;
      t = y.series.size;
      small = f.small;
      lower = subst (λ P. Tiles 0 P 0) (sym f.persistent) refl;
      upper = subst (λ P. Tiles y.series.size P y.series.size) (sym f.temporary) refl;
      gap = omega arith;
      within = omega arith;
      contexts = f.contexts;
      bounded = sums.5;
      word = omega arith;
      over_end = omega arith;
      over_top = omega arith;
      head = omega arith;
      crossed = omega arith;
    }

-- From the cellblock as it is laid, after any interleaving of the steps of up to 127 contexts and of
-- exclusive operations, which are any that leave two chains that do not cross: no two cells of either tier overlap, and each ends within the cellblock.
pub Reach-Disjoint :
    (y z : System)
    → IsFresh y
    → Reach y z
    → Disjoint (z.persistent ++ z.temporary) × AllTo z.series.size (z.persistent ++ z.temporary)
Reach-Disjoint y z f r =
    let v = Reach-IsSound (IsFresh-IsSound y f) r in
    (
      Disjoint-append v.e z.persistent z.temporary (Tiles-Disjoint 0 v.e z.persistent v.lower)
          (Tiles-AllTo 0 v.e z.persistent v.lower)
          (AllFrom-le z.temporary v.gap (Tiles-AllFrom v.t z.series.size z.temporary v.upper))
          (Tiles-Disjoint v.t z.series.size z.temporary v.upper),
      AllTo-append z.series.size z.persistent z.temporary
          (AllTo-le z.persistent (omega arith) (Tiles-AllTo 0 v.e z.persistent v.lower))
          (Tiles-AllTo v.t z.series.size z.temporary v.upper),
    )

blocked :
    (z : System) (pre post : List Phase) (down : Bool) (need : ℕ)
    → IsSound z
    → z.phases ≡ pre ++ (ready down need ∷ post)
    → 0 < refused z false + refused z true
    → bump_fits down z.series.size z.series.bounds need ≡ true
    → ⊥
blocked z pre post true need v hp h fit =
    let d = delta (ready_bytes true) pre post (ready true need) idle hp in
    let rest = fits_down-settled v (omega arith) fit in omega arith
blocked z pre post false need v hp h fit =
    let d = delta (ready_bytes false) pre post (ready false need) idle hp in
    let rest = fits_up-settled v (omega arith) fit in omega arith

-- Lemma 2 of the algorithm, after any interleaving from the cellblock as it is laid: while a refused
-- bump of either direction is not settled, the test of the gap refuses the bump of a context that is
-- past its reading ahead, in either direction.
pub refused-absorbing :
    (y z : System) (pre post : List Phase) (down : Bool) (need : ℕ)
    → IsFresh y
    → Reach y z
    → z.phases ≡ pre ++ (ready down need ∷ post)
    → 0 < refused z false + refused z true
    → bump_fits down z.series.size z.series.bounds need ≡ false
refused-absorbing y z pre post down need f r hp h =
    let v = Reach-IsSound (IsFresh-IsSound y f) r in
    elim (Bool-cases (bump_fits down z.series.size z.series.bounds need)) [
      | inr no_fit ↦ no_fit
      | inl fit ↦ absurd (blocked z pre post down need v hp h fit)
    ]

-- A drained context's refused bump has its overrun.
drained-sums :
    (d : Bool) (ps : List Phase)
    → IsDrained ps
    → sum_of (refused_bytes d) ps ≡ sum_of (waiting_bytes d) ps
drained-sums d [] h = refl
drained-sums true (idle ∷ ps) h = omega (arith, drained-sums true ps h)
drained-sums false (idle ∷ ps) h = omega (arith, drained-sums false ps h)
drained-sums d (ready k n ∷ ps) h = absurd h
drained-sums d (short k n ∷ ps) h = absurd h
drained-sums true (waiting true n ∷ ps) h = omega (arith, drained-sums true ps h)
drained-sums true (waiting false n ∷ ps) h = omega (arith, drained-sums true ps h)
drained-sums false (waiting true n ∷ ps) h = omega (arith, drained-sums false ps h)
drained-sums false (waiting false n ∷ ps) h = omega (arith, drained-sums false ps h)

-- Lemma 5 of the algorithm, after any interleaving from the cellblock as it is laid: where no bump is
-- between its steps, settling makes the two halves of the bounds word the ends of the two chains, which
-- do not cross, and clears the overruns.
pub settled-rest :
    (y z : System)
    → IsFresh y
    → Reach y z
    → IsDrained z.phases
    → (e : ℕ) × (t : ℕ) × Tiles 0 z.persistent e
      × Tiles t z.temporary z.series.size
      × (e ≤ t)
      × (bounds_end (settled z.series).bounds ≡ e)
      × (bounds_top (settled z.series).bounds ≡ t)
      × ((settled z.series).persistent_overrun ≡ 0)
      × ((settled z.series).temporary_overrun ≡ 0)
unfolding settled
settled-rest y z f r hd =
    let v = Reach-IsSound (IsFresh-IsSound y f) r in
    let most = refused-le v in
    let df = drained-sums false z.phases hd in
    let dt = drained-sums true z.phases hd in
    let over_end : z.series.persistent_overrun ≡ refused z false = omega arith in
    let over_top : z.series.temporary_overrun ≡ refused z true = omega arith in
    let word : (settled z.series).bounds ≡ halves v.e v.t =
      rw (v.word, over_end, over_top)
        (settle-halves v.e v.t (refused z false) (refused z true) (omega arith) (omega arith)
          (omega arith)) in
    (
      v.e,
      v.t,
      v.lower,
      v.upper,
      v.gap,
      ap bounds_end word ∙ end-halves v.e v.t (omega arith),
      ap bounds_top word ∙ top-halves v.e v.t (omega arith),
      refl,
      refl,
    )
