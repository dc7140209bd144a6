-- ===== src/Carcer/Round/Safety/Ahead.antt =====
-- The reading ahead of a bump keeps the invariant.
use mmgr.Prelude.{ℕ, ◌+◌, ◌^◌, ◌≤◌, ◌≡◌, refl, arith}
use mmgr.Prelude.{Bool, true, false, List, ◌∷◌, ◌++◌, length}
use mmgr.Carcer.Take.{bump_within}
use mmgr.Carcer.Round.{Phase, idle, ready, System}
use mmgr.Carcer.Round.Sound.{IsSound, refused, refused_bytes, ready_bytes}
use mmgr.Carcer.Round.Sound.{waiting_bytes, Bounded}
use mmgr.Carcer.Round.Sound.{contexts_most}
use mmgr.Carcer.Round.Safety.Phases.{
  length-replace, Bounded-replace, total-le, delta, end-lt, within-bounds,
}

pub read_ahead-IsSound :
    (y : System) (pre post : List Phase) (down : Bool) (want : ℕ)
    → y.phases ≡ pre ++ (idle ∷ post)
    → bump_within down want y.series.bounds ≡ true
    → IsSound y
    → IsSound (record y { phases = pre ++ (ready down (16 + want) ∷ post) })
read_ahead-IsSound y pre post true want hp hw v =
    let q = ready true (16 + want) in
    let hw' = within-bounds true want (v.e + refused y false) _ (end-lt v) (rw v.word at hw) in
    let rf = delta (refused_bytes false) pre post idle q hp in
    let rt = delta (refused_bytes true) pre post idle q hp in
    let df = delta (ready_bytes false) pre post idle q hp in
    record {
      e = v.e;
      t = v.t;
      small = v.small;
      lower = v.lower;
      upper = v.upper;
      gap = v.gap;
      within = v.within;
      contexts = omega (arith, length-replace pre post idle q hp);
      bounded = Bounded-replace pre post idle q hp (omega arith) v.bounded;
      word = omega arith;
      over_end = omega (arith, delta (waiting_bytes false) pre post idle q hp);
      over_top = omega (arith, delta (waiting_bytes true) pre post idle q hp);
      head = omega arith;
      crossed = omega arith;
    }
read_ahead-IsSound y pre post false want hp hw v =
    let p : Phase = idle in
    let q = ready false (16 + want) in
    let hw' = within-bounds false want (v.e + refused y false) _ (end-lt v) (rw v.word at hw) in
    let low : v.e + refused y false ≤ 2 ^ 31 = hw'.1 refl in
    let rf = delta (refused_bytes false) pre post p q hp in
    let rt = delta (refused_bytes true) pre post p q hp in
    let ps' = pre ++ (q ∷ post) in
    let b : Bounded ps' = Bounded-replace pre post p q hp (omega arith) v.bounded in
    let l : length ps' ≤ contexts_most = omega (arith, length-replace pre post p q hp) in
    let most = total-le ps' b l in
    record {
      e = v.e;
      t = v.t;
      small = v.small;
      lower = v.lower;
      upper = v.upper;
      gap = v.gap;
      within = v.within;
      contexts = l;
      bounded = b;
      word = omega arith;
      over_end = omega (arith, delta (waiting_bytes false) pre post p q hp);
      over_top = omega (arith, delta (waiting_bytes true) pre post p q hp);
      head = omega arith;
      crossed = omega arith;
    }
