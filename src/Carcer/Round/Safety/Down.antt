-- ===== src/Carcer/Round/Safety/Down.antt =====
-- A bump down that the gap meets keeps the invariant.
use mmgr.Prelude.{ℕ, ◌+◌, ◌-◌, ◌%◌, ◌^◌, ◌≤◌, ◌<◌, ◌≡◌, ap, ◌∙◌, arith}
use mmgr.Prelude.{true, false, List, ◌∷◌, ◌++◌, leb, ◌&&◌}
use mathlib.Core.Path.{subst}
use mmgr.Carcer.Word.{sub64, add64}
use mmgr.Carcer.Take.{bump_moved, bump_now, bump_fits}
use mmgr.Carcer.Take.Bump.{halves, top-halves, add-bump_moved_down, bump_fits_down}
use mmgr.Carcer.Round.{Phase, idle, ready, System, Tiles}
use mmgr.Carcer.Round.Sound.{IsSound, refused, sum_of, refused_bytes, ready_bytes}
use mmgr.Carcer.Round.Sound.{waiting_bytes}
use mmgr.Carcer.Round.Safety.Phases.{length-replace, Bounded-replace, delta, refused-le}

pub fits_down-settled :
    {y : System} {need : ℕ} (v : IsSound y)
    → need ≤ sum_of (ready_bytes true) y.phases
    → bump_fits true y.series.size y.series.bounds need ≡ true
    → (refused y false ≡ 0) × (refused y true ≡ 0) × (v.e + need ≤ v.t)
fits_down-settled {y} {need} v small h =
    let most = refused-le v in
    let top = (v.t + 2 ^ 32 - refused y true) % 2 ^ 32 in
    let end = v.e + refused y false in
    let h' : (leb need top && leb end (top - need) && leb (top - need) y.series.size) ≡ true =
      rw (← bump_fits_down end top need (omega arith) (omega arith) y.series.size)
        (rw v.word at h) in
    let parts : (need ≤ top) × (end ≤ top - need) × (top - need ≤ y.series.size) = ground arith in
    omega arith

pub bump_now-halves :
    (e t need : ℕ) → e < 2 ^ 32 → t < 2 ^ 32 → need ≤ t → bump_now true (halves e t) need ≡ t - need
unfolding bump_now sub64
bump_now-halves e t need he ht h = rw (top-halves e t he) (omega arith)

pub add_down-IsSound :
    (y : System) (pre post : List Phase) (need : ℕ)
    → y.phases ≡ pre ++ (ready true need ∷ post)
    → bump_fits true y.series.size y.series.bounds need ≡ true
    → IsSound y
    → IsSound (record y {
      series = record y.series { bounds = add64 y.series.bounds (bump_moved true need) };
      phases = pre ++ (idle ∷ post);
      temporary = record { off = bump_now true y.series.bounds need; need = need } ∷ y.temporary;
    })
add_down-IsSound y pre post need hp hw v =
    let p = ready true need in
    let q : Phase = idle in
    let dt = delta (ready_bytes true) pre post p q hp in
    let df = delta (ready_bytes false) pre post p q hp in
    let rest = fits_down-settled v (omega arith) hw in
    let rf = delta (refused_bytes false) pre post p q hp in
    let rt = delta (refused_bytes true) pre post p q hp in
    let word : y.series.bounds ≡ halves v.e v.t = omega arith in
    let moved : add64 y.series.bounds (bump_moved true need)
        ≡ halves v.e ((v.t + 2 ^ 32 - need) % 2 ^ 32) =
      ap (λ w. add64 w (bump_moved true need)) word
      ∙ add-bump_moved_down v.e v.t need (omega arith) (omega arith) in
    let at : bump_now true y.series.bounds need ≡ v.t - need =
      ap (λ w. bump_now true w need) word
      ∙ bump_now-halves v.e v.t need (omega arith) (omega arith) (omega arith) in
    let back : v.t ≡ v.t - need + need = omega arith in
    record {
      e = v.e;
      t = v.t - need;
      small = v.small;
      lower = v.lower;
      upper = (at, subst (λ a. Tiles a y.temporary y.series.size) back v.upper);
      gap = omega arith;
      within = omega arith;
      contexts = omega (arith, length-replace pre post p q hp);
      bounded = Bounded-replace pre post p q hp (omega arith) v.bounded;
      word = omega arith;
      over_end = omega (arith, delta (waiting_bytes false) pre post p q hp);
      over_top = omega (arith, delta (waiting_bytes true) pre post p q hp);
      head = omega arith;
      crossed = omega arith;
    }
