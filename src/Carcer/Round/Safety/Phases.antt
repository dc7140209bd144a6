-- ===== src/Carcer/Round/Safety/Phases.antt =====
-- The sums over the contexts' phases when one context moves on.
use mmgr.Prelude.{ℕ, ◌+◌, ◌*◌, ◌^◌, ◌≤◌, ◌<◌, ◌≡◌, arith}
use mmgr.Prelude.{Bool, true, false, List, ◌∷◌, ◌++◌, length, length-append}
use mmgr.Carcer.Take.{bump_within}
use mmgr.Carcer.Take.Bump.{halves, end-halves}
use mmgr.Carcer.Round.{Phase, System}
use mmgr.Carcer.Round.Sound.{IsSound, refused, sum_of, sum_of-append, refused_bytes, ready_bytes}
use mmgr.Carcer.Round.Sound.{phase_bytes, sum_total, Bounded, Bounded-append}
use mmgr.Carcer.Round.Sound.{Bounded-parts, need_most, contexts_most}

-- One context's phase replaced keeps the number of contexts and the bound on the bumps.
pub length-replace :
    {ps : List Phase} (pre post : List Phase) (p q : Phase)
    → ps ≡ pre ++ (p ∷ post)
    → length (pre ++ (q ∷ post)) ≡ length ps
length-replace pre post p q e =
    rw e (omega (arith, length-append pre (q ∷ post), length-append pre (p ∷ post)))

pub Bounded-replace :
    {ps : List Phase} (pre post : List Phase) (p q : Phase)
    → ps ≡ pre ++ (p ∷ post)
    → phase_bytes q ≤ need_most
    → Bounded ps
    → Bounded (pre ++ (q ∷ post))
Bounded-replace pre post p q e small b =
    let parts : Bounded pre × Bounded (p ∷ post) = Bounded-parts pre (p ∷ post) (rw e at b) in
    Bounded-append pre (q ∷ post) parts.0 (small, parts.1.1)

pub bytes-of-Bounded :
    {ps : List Phase} (pre post : List Phase) (p : Phase)
    → ps ≡ pre ++ (p ∷ post)
    → Bounded ps
    → phase_bytes p ≤ need_most
bytes-of-Bounded pre post p e b = (Bounded-parts pre (p ∷ post) (rw e at b)).1.0

pub total-le :
    (ps : List Phase)
    → Bounded ps
    → length ps ≤ contexts_most
    → sum_of (refused_bytes true) ps
        + sum_of (refused_bytes false) ps
        + sum_of (ready_bytes false) ps
        + sum_of (ready_bytes true) ps
      ≤ contexts_most * need_most
total-le ps b h = omega (arith, sum_total ps b)

pub within-bounds :
    (down : Bool) (want e t : ℕ)
    → e < 2 ^ 32
    → bump_within down want (halves e t) ≡ true
    → (want ≤ 2 ^ 24) × (down ≡ false → e ≤ 2 ^ 31)
unfolding bump_within
within-bounds down want e t he h = ground (arith, end-halves e t he)

pub delta :
    (f : Phase → ℕ) {ps : List Phase} (pre post : List Phase) (p q : Phase)
    → ps ≡ pre ++ (p ∷ post)
    → sum_of f (pre ++ (q ∷ post)) + f p ≡ sum_of f ps + f q
delta f pre post p q e =
    rw e (omega (arith, sum_of-append f pre (p ∷ post), sum_of-append f pre (q ∷ post)))

-- The end and the top that the bounds word carries, within their halves.
pub end-lt : {y : System} (v : IsSound y) → v.e + refused y false < 2 ^ 32
end-lt v = omega arith

pub refused-le :
    {y : System} (v : IsSound y)
    → refused y true
        + refused y false
        + sum_of (ready_bytes false) y.phases
        + sum_of (ready_bytes true) y.phases
      ≤ contexts_most * need_most
refused-le {y} v = total-le y.phases v.bounded v.contexts
