-- ===== src/Carcer/Round/Sound.antt =====
-- The invariant of the concurrent takes: each boundary is its chain's end displaced by the bumps
-- refused since the bounds were last settled.
use mmgr.Prelude.{ℕ, ◌+◌, ◌-◌, ◌*◌, ◌%◌, ◌^◌, ◌≤◌, ◌<◌, ◌≡◌, ◌⊎◌, arith, Bool, true, false}
use mmgr.Prelude.{List, [], ◌∷◌, ◌++◌, length}
use mmgr.Carcer.Take.Bump.{halves}
use mmgr.Carcer.Round.{Phase, idle, ready, short, waiting, System, Tiles}

-- The bytes of the bumps of one direction in one phase.
abbrev pub ready_bytes : Bool → Phase → ℕ
ready_bytes true (ready true n) = n
ready_bytes false (ready false n) = n
ready_bytes down p = 0

abbrev pub refused_bytes : Bool → Phase → ℕ
refused_bytes true (short true n) = n
refused_bytes true (waiting true n) = n
refused_bytes false (short false n) = n
refused_bytes false (waiting false n) = n
refused_bytes down p = 0

abbrev pub waiting_bytes : Bool → Phase → ℕ
waiting_bytes true (waiting true n) = n
waiting_bytes false (waiting false n) = n
waiting_bytes down p = 0

abbrev pub phase_bytes : Phase → ℕ
phase_bytes idle = 0
phase_bytes (ready d n) = n
phase_bytes (short d n) = n
phase_bytes (waiting d n) = n

abbrev pub sum_of : (Phase → ℕ) → List Phase → ℕ
sum_of f [] = 0
sum_of f (p ∷ ps) = f p + sum_of f ps

-- What a bump takes at most, and the contexts that the word allows.
abbrev pub need_most : ℕ
need_most = 16 + 2 ^ 24

abbrev pub contexts_most : ℕ
contexts_most = 127

abbrev pub Bounded : List Phase → Type 0
Bounded [] = Unit {0}
Bounded (p ∷ ps) = (phase_bytes p ≤ need_most) × Bounded ps

module _ (y : System) where
  abbrev pub refused : Bool → ℕ
  refused d = sum_of (refused_bytes d) y.phases

-- `e` and `t` are the ends of the two chains.
pub record IsSound (y : System) : Type 0 where
  pub e : ℕ
  pub t : ℕ
  pub small : y.series.size ≤ 2 ^ 31
  pub lower : Tiles 0 y.persistent e
  pub upper : Tiles t y.temporary y.series.size
  pub gap : e ≤ t
  pub within : t ≤ y.series.size
  pub contexts : length y.phases ≤ contexts_most
  pub bounded : Bounded y.phases
  pub word : y.series.bounds ≡ halves (e + refused y false) ((t + 2 ^ 32 - refused y true) % 2 ^ 32)
  pub over_end : y.series.persistent_overrun ≡ sum_of (waiting_bytes false) y.phases
  pub over_top : y.series.temporary_overrun ≡ sum_of (waiting_bytes true) y.phases
  pub head :
      e + refused y false + sum_of (ready_bytes false) y.phases ≤ 2 ^ 31 + contexts_most * need_most
  pub crossed : (refused y false + refused y true ≡ 0) ⊎ (t < e + refused y false + refused y true)

pub sum_of-append :
    (f : Phase → ℕ) (ps qs : List Phase) → sum_of f (ps ++ qs) ≡ sum_of f ps + sum_of f qs
sum_of-append f [] qs = omega arith
sum_of-append f (p ∷ ps) qs = omega (arith, sum_of-append f ps qs)

-- Each phase counts once at most.
phase_total :
    (p : Phase)
    → refused_bytes true p + refused_bytes false p + ready_bytes false p + ready_bytes true p
      ≤ phase_bytes p
phase_total idle = omega arith
phase_total (ready true n) = omega arith
phase_total (ready false n) = omega arith
phase_total (short true n) = omega arith
phase_total (short false n) = omega arith
phase_total (waiting true n) = omega arith
phase_total (waiting false n) = omega arith

waiting-le-refused : (d : Bool) (p : Phase) → waiting_bytes d p ≤ refused_bytes d p
waiting-le-refused true idle = omega arith
waiting-le-refused true (ready d n) = omega arith
waiting-le-refused true (short true n) = omega arith
waiting-le-refused true (short false n) = omega arith
waiting-le-refused true (waiting true n) = omega arith
waiting-le-refused true (waiting false n) = omega arith
waiting-le-refused false idle = omega arith
waiting-le-refused false (ready d n) = omega arith
waiting-le-refused false (short true n) = omega arith
waiting-le-refused false (short false n) = omega arith
waiting-le-refused false (waiting true n) = omega arith
waiting-le-refused false (waiting false n) = omega arith

pub sum_total :
    (ps : List Phase)
    → Bounded ps
    → sum_of (refused_bytes true) ps
        + sum_of (refused_bytes false) ps
        + sum_of (ready_bytes false) ps
        + sum_of (ready_bytes true) ps
      ≤ length ps * need_most
sum_total [] h = omega arith
sum_total (p ∷ ps) h = omega (arith, phase_total p, sum_total ps h.1)

pub waiting-sum-le :
    (d : Bool) (ps : List Phase) → sum_of (waiting_bytes d) ps ≤ sum_of (refused_bytes d) ps
waiting-sum-le d [] = omega arith
waiting-sum-le d (p ∷ ps) = omega (arith, waiting-le-refused d p, waiting-sum-le d ps)

pub Bounded-append : (ps qs : List Phase) → Bounded ps → Bounded qs → Bounded (ps ++ qs)
Bounded-append [] qs h k = k
Bounded-append (p ∷ ps) qs h k = (h.0, Bounded-append ps qs h.1 k)

pub Bounded-parts : (ps qs : List Phase) → Bounded (ps ++ qs) → Bounded ps × Bounded qs
Bounded-parts [] qs h = (tt, h)
Bounded-parts (p ∷ ps) qs h = let r = Bounded-parts ps qs h.1 in ((h.0, r.0), r.1)
