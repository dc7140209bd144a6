-- ===== src/Carcer/Round/Safety/Up.antt =====
-- A bump up that the gap meets keeps the invariant.
use mmgr.Prelude.{ℕ, ◌+◌, ◌-◌, ◌%◌, ◌^◌, ◌≤◌, ◌≡◌, refl, sym, ap, ◌∙◌, arith}
use mmgr.Prelude.{true, false, List, [], ◌∷◌, ◌++◌, leb, ◌&&◌}
use mmgr.Carcer.Word.{add64, bounds_end}
use mmgr.Carcer.Take.{bump_moved, bump_fits}
use mmgr.Carcer.Take.Bump.{halves, end-halves, add-bump_moved_up, bump_fits_up}
use mmgr.Carcer.Round.{Phase, idle, ready, Laid, System, Tiles}
use mmgr.Carcer.Round.Sound.{IsSound, refused, sum_of, refused_bytes, ready_bytes}
use mmgr.Carcer.Round.Sound.{waiting_bytes}
use mmgr.Carcer.Round.Safety.Phases.{length-replace, Bounded-replace, delta, refused-le}

pub Tiles-snoc :
    (a e : ℕ) (cs : List Laid) (c : Laid)
    → Tiles a cs e
    → c.off ≡ e
    → Tiles a (cs ++ (c ∷ [])) (e + c.need)
Tiles-snoc a e [] c h k = (k ∙ sym h, rw h refl)
Tiles-snoc a e (b ∷ cs) c h k = (h.0, Tiles-snoc (a + b.need) e cs c h.1 k)

-- A bump up that the gap meets finds no bump refused since the bounds were settled, and the ends of
-- both chains in the word.
pub fits_up-settled :
    {y : System} {need : ℕ} (v : IsSound y)
    → need ≤ sum_of (ready_bytes false) y.phases
    → bump_fits false y.series.size y.series.bounds need ≡ true
    → (refused y false ≡ 0) × (refused y true ≡ 0) × (v.e + need ≤ v.t)
fits_up-settled {y} {need} v small h =
    let most = refused-le v in
    let top = (v.t + 2 ^ 32 - refused y true) % 2 ^ 32 in
    let h' : (leb (v.e + refused y false + need) top && leb top y.series.size) ≡ true =
      rw (← bump_fits_up (v.e + refused y false) top need (omega arith) (omega arith) y.series.size)
        (rw v.word at h) in
    let parts : (v.e + refused y false + need ≤ top) × (top ≤ y.series.size) = ground arith in
    omega arith

pub add_up-IsSound :
    (y : System) (pre post : List Phase) (need : ℕ)
    → y.phases ≡ pre ++ (ready false need ∷ post)
    → bump_fits false y.series.size y.series.bounds need ≡ true
    → IsSound y
    → IsSound (record y {
      series = record y.series { bounds = add64 y.series.bounds (bump_moved false need) };
      phases = pre ++ (idle ∷ post);
      persistent = y.persistent ++ (record { off = bounds_end y.series.bounds; need = need } ∷ []);
    })
add_up-IsSound y pre post need hp hw v =
    let p = ready false need in
    let q : Phase = idle in
    let df = delta (ready_bytes false) pre post p q hp in
    let rest = fits_up-settled v (omega arith) hw in
    let rf = delta (refused_bytes false) pre post p q hp in
    let rt = delta (refused_bytes true) pre post p q hp in
    let word : y.series.bounds ≡ halves v.e v.t = omega arith in
    let moved : add64 y.series.bounds (bump_moved false need) ≡ halves (v.e + need) v.t =
      ap (λ w. add64 w (bump_moved false need)) word
      ∙ add-bump_moved_up v.e v.t need (omega arith) (omega arith) in
    let at : bounds_end y.series.bounds ≡ v.e =
      ap bounds_end word ∙ end-halves v.e v.t (omega arith) in
    record {
      e = v.e + need;
      t = v.t;
      small = v.small;
      lower = Tiles-snoc 0 v.e y.persistent _ v.lower at;
      upper = v.upper;
      gap = rest.2;
      within = v.within;
      contexts = omega (arith, length-replace pre post p q hp);
      bounded = Bounded-replace pre post p q hp (omega arith) v.bounded;
      word = omega arith;
      over_end = omega (arith, delta (waiting_bytes false) pre post p q hp);
      over_top = omega (arith, delta (waiting_bytes true) pre post p q hp);
      head = omega arith;
      crossed = omega arith;
    }
