-- ===== src/Carcer/Round/Safety/Short.antt =====
-- A bump that the gap does not meet keeps the invariant.
use mmgr.Prelude.{ℕ, ◌+◌, ◌-◌, ◌%◌, ◌^◌, ◌<◌, ◌≡◌, ◌⊎◌, ap, ◌∙◌, arith}
use mmgr.Prelude.{Bool, true, false, List, ◌∷◌, ◌++◌, leb, ◌&&◌}
use mmgr.Carcer.Word.{add64}
use mmgr.Carcer.Take.{bump_moved, bump_fits}
use mmgr.Carcer.Take.Bump.{
  halves, add-bump_moved_up, bump_fits_up, add-bump_moved_down, bump_fits_down,
}
use mmgr.Carcer.Round.{Phase, ready, short, System}
use mmgr.Carcer.Round.Sound.{IsSound, refused, refused_bytes, ready_bytes}
use mmgr.Carcer.Round.Sound.{waiting_bytes}
use mmgr.Carcer.Round.Safety.Phases.{
  length-replace, Bounded-replace, bytes-of-Bounded, delta, refused-le,
}

pub add_short-IsSound :
    (y : System) (pre post : List Phase) (down : Bool) (need : ℕ)
    → y.phases ≡ pre ++ (ready down need ∷ post)
    → bump_fits down y.series.size y.series.bounds need ≡ false
    → IsSound y
    → IsSound (record y {
      series = record y.series { bounds = add64 y.series.bounds (bump_moved down need) };
      phases = pre ++ (short down need ∷ post);
    })
add_short-IsSound y pre post true need hp hw v =
    let p = ready true need in
    let q = short true need in
    let top = (v.t + 2 ^ 32 - refused y true) % 2 ^ 32 in
    let end = v.e + refused y false in
    let most = refused-le v in
    let df = delta (ready_bytes false) pre post p q hp in
    let dt = delta (ready_bytes true) pre post p q hp in
    let rf = delta (refused_bytes false) pre post p q hp in
    let rt = delta (refused_bytes true) pre post p q hp in
    let moved : add64 y.series.bounds (bump_moved true need)
        ≡ halves end ((top + 2 ^ 32 - need) % 2 ^ 32) =
      ap (λ w. add64 w (bump_moved true need)) v.word
      ∙ add-bump_moved_down end top need (omega arith) (omega arith) in
    let hw' : (leb need top && leb end (top - need) && leb (top - need) y.series.size) ≡ false =
      rw (← bump_fits_down end top need (omega arith) (omega arith) y.series.size)
        (rw v.word at hw) in
    let crosses : (top < need) ⊎ ((top < end + need) ⊎ (y.series.size + need < top)) =
      ground arith in
    record {
      e = v.e;
      t = v.t;
      small = v.small;
      lower = v.lower;
      upper = v.upper;
      gap = v.gap;
      within = v.within;
      contexts = omega (arith, length-replace pre post p q hp);
      bounded =
          Bounded-replace pre post p q hp (bytes-of-Bounded pre post p hp v.bounded) v.bounded;
      word = omega arith;
      over_end = omega (arith, delta (waiting_bytes false) pre post p q hp);
      over_top = omega (arith, delta (waiting_bytes true) pre post p q hp);
      head = omega arith;
      crossed = omega arith;
    }
add_short-IsSound y pre post false need hp hw v =
    let p = ready false need in
    let q = short false need in
    let top = (v.t + 2 ^ 32 - refused y true) % 2 ^ 32 in
    let end = v.e + refused y false in
    let most = refused-le v in
    let df = delta (ready_bytes false) pre post p q hp in
    let dt = delta (ready_bytes true) pre post p q hp in
    let rf = delta (refused_bytes false) pre post p q hp in
    let rt = delta (refused_bytes true) pre post p q hp in
    let moved : add64 y.series.bounds (bump_moved false need) ≡ halves (end + need) top =
      ap (λ w. add64 w (bump_moved false need)) v.word
      ∙ add-bump_moved_up end top need (omega arith) (omega arith) in
    let hw' : (leb (end + need) top && leb top y.series.size) ≡ false =
      rw (← bump_fits_up end top need (omega arith) (omega arith) y.series.size)
        (rw v.word at hw) in
    let crosses : (top < end + need) ⊎ (y.series.size < top) = ground arith in
    record {
      e = v.e;
      t = v.t;
      small = v.small;
      lower = v.lower;
      upper = v.upper;
      gap = v.gap;
      within = v.within;
      contexts = omega (arith, length-replace pre post p q hp);
      bounded =
          Bounded-replace pre post p q hp (bytes-of-Bounded pre post p hp v.bounded) v.bounded;
      word = omega arith;
      over_end = omega (arith, delta (waiting_bytes false) pre post p q hp);
      over_top = omega (arith, delta (waiting_bytes true) pre post p q hp);
      head = omega arith;
      crossed = omega arith;
    }
