-- ===== src/Carcer/Round/Safety/Overrun.antt =====
-- The add on the overrun and the exclusive operations keep the invariant.
use mmgr.Prelude.{ℕ, ◌≤◌, ◌≡◌, refl, arith}
use mmgr.Prelude.{Bool, true, false, List, [], ◌∷◌, ◌++◌, length}
use mmgr.Carcer.Word.{add64}
use mmgr.Carcer.Round.{Phase, idle, short, waiting, Laid, System, Tiles}
use mmgr.Carcer.Round.Sound.{IsSound, sum_of, refused_bytes, ready_bytes}
use mmgr.Carcer.Round.Sound.{waiting_bytes, waiting-sum-le, Bounded}
use mmgr.Carcer.Round.Safety.Phases.{
  length-replace, Bounded-replace, bytes-of-Bounded, delta, refused-le,
}
use mmgr.Prelude.{map}
use mmgr.Carcer.Word.{pack_bounds}
use mmgr.Carcer.Word.Laws.{pack_bounds_lem}
use mmgr.Carcer.Series.{settled}
use mmgr.Carcer.Round.{add_over}

pub overrun-IsSound :
    (y : System) (pre post : List Phase) (down : Bool) (need : ℕ)
    → y.phases ≡ pre ++ (short down need ∷ post)
    → IsSound y
    → IsSound (record y {
      series = add_over down need y.series;
      phases = pre ++ (waiting down need ∷ post);
    })
unfolding add_over add64
overrun-IsSound y pre post true need hp v =
    let p = short true need in
    let q = waiting true need in
    let most = refused-le v in
    let rf = delta (refused_bytes false) pre post p q hp in
    let rt = delta (refused_bytes true) pre post p q hp in
    let df = delta (ready_bytes false) pre post p q hp in
    let wf = delta (waiting_bytes false) pre post p q hp in
    let wt = delta (waiting_bytes true) pre post p q hp in
    let below = waiting-sum-le true (pre ++ (q ∷ post)) in
    record {
      e = v.e;
      t = v.t;
      small = v.small;
      lower = v.lower;
      upper = v.upper;
      gap = v.gap;
      within = v.within;
      contexts = omega (arith, length-replace pre post p q hp);
      bounded =
          Bounded-replace pre post p q hp (bytes-of-Bounded pre post p hp v.bounded) v.bounded;
      word = omega arith;
      over_end = omega arith;
      over_top = omega arith;
      head = omega arith;
      crossed = omega arith;
    }
overrun-IsSound y pre post false need hp v =
    let p = short false need in
    let q = waiting false need in
    let most = refused-le v in
    let rf = delta (refused_bytes false) pre post p q hp in
    let rt = delta (refused_bytes true) pre post p q hp in
    let df = delta (ready_bytes false) pre post p q hp in
    let wf = delta (waiting_bytes false) pre post p q hp in
    let wt = delta (waiting_bytes true) pre post p q hp in
    let below = waiting-sum-le false (pre ++ (q ∷ post)) in
    record {
      e = v.e;
      t = v.t;
      small = v.small;
      lower = v.lower;
      upper = v.upper;
      gap = v.gap;
      within = v.within;
      contexts = omega (arith, length-replace pre post p q hp);
      bounded =
          Bounded-replace pre post p q hp (bytes-of-Bounded pre post p hp v.bounded) v.bounded;
      word = omega arith;
      over_end = omega arith;
      over_top = omega arith;
      head = omega arith;
      crossed = omega arith;
    }

pub idle-sum : (f : Phase → ℕ) → f idle ≡ 0 → (ps : List Phase) → sum_of f (map (λ p. idle) ps) ≡ 0
idle-sum f h [] = refl
idle-sum f h (p ∷ ps) = omega (arith, idle-sum f h ps)

idle-length : (ps : List Phase) → length (map {B = Phase} (λ p. idle) ps) ≡ length ps
idle-length [] = refl
idle-length (p ∷ ps) = omega (arith, idle-length ps)

idle-Bounded : (ps : List Phase) → Bounded (map (λ p. idle) ps)
idle-Bounded [] = tt
idle-Bounded (p ∷ ps) = (omega arith, idle-Bounded ps)

pub exclusive-IsSound :
    (y : System) (e t : ℕ) (P Q : List Laid)
    → Tiles 0 P e
    → e ≤ t
    → Tiles t Q y.series.size
    → t ≤ y.series.size
    → IsSound y
    → IsSound (record y {
      series = record (settled y.series) { bounds = pack_bounds e t };
      phases = map (λ p. idle) y.phases;
      persistent = P;
      temporary = Q;
    })
unfolding settled
exclusive-IsSound y e t P Q hP het hQ ht v =
    let rf = idle-sum (refused_bytes false) refl y.phases in
    let rt = idle-sum (refused_bytes true) refl y.phases in
    let df = idle-sum (ready_bytes false) refl y.phases in
    record {
      e = e;
      t = t;
      small = v.small;
      lower = hP;
      upper = hQ;
      gap = het;
      within = ht;
      contexts = omega (arith, idle-length y.phases);
      bounded = idle-Bounded y.phases;
      word = omega (arith, pack_bounds_lem e t);
      over_end = omega (arith, idle-sum (waiting_bytes false) refl y.phases);
      over_top = omega (arith, idle-sum (waiting_bytes true) refl y.phases);
      head = omega arith;
      crossed = omega arith;
    }
