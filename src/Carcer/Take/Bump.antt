-- ===== src/Carcer/Take/Bump.antt =====
-- The bump of src/locus_carcerum on the two halves of the bounds word, as arithmetic: an end `e`
-- below a top `t`, each in its half.
use mmgr.Prelude.{ℕ, ◌+◌, ◌-◌, ◌*◌, ◌%◌, ◌^◌, ◌≤◌, ◌<◌, ◌≡◌, arith}
use mmgr.Prelude.{true, false, ◌&&◌, leb}
use native.Mathlib.Decide.{dec_le}
use mmgr.Carcer.Word.{add64, sub64, bounds_end, bounds_top, pack_bounds}
use mmgr.Carcer.Word.Laws.{bounds_end_lem, bounds_top_lem, pack_bounds_lem}
use mmgr.Carcer.Take.{bump_moved, bump_now, bump_fits}

-- The bounds word with both halves in range.
abbrev pub halves : ℕ → ℕ → ℕ
halves e t = t * 2 ^ 32 + e

pub end-halves : (e t : ℕ) → e < 2 ^ 32 → bounds_end (halves e t) ≡ e
end-halves e t he = omega (arith, bounds_end_lem (halves e t))

pub top-halves : (e t : ℕ) → e < 2 ^ 32 → bounds_top (halves e t) ≡ t
top-halves e t he = omega (arith, bounds_top_lem (halves e t))

module _ (e t need : ℕ) (he : e + need < 2 ^ 32) (ht : t < 2 ^ 32) where
  -- A bump up adds to the end alone.
  pub add-bump_moved_up : add64 (halves e t) (bump_moved false need) ≡ halves (e + need) t
  unfolding add64 bump_moved
  add-bump_moved_up = omega arith

  pub bump_fits_up :
      (size : ℕ) → bump_fits false size (halves e t) need ≡ (leb (e + need) t && leb t size)
  unfolding bump_fits bump_now add64
  bump_fits_up size =
      let g : e < 2 ^ 32 = omega arith in
      rw (end-halves e t g, top-halves e t g)
        (let h : (e + need) % 2 ^ 64 ≡ e + need = omega arith in rw h (ground arith))

  -- A bump down borrows out of the word, and leaves the end alone.
  pub add-bump_moved_down :
      add64 (halves e t) (bump_moved true need) ≡ halves e ((t + 2 ^ 32 - need) % 2 ^ 32)
  unfolding add64 bump_moved
  add-bump_moved_down = omega arith

  pub bump_fits_down :
      (size : ℕ)
      → bump_fits true size (halves e t) need
        ≡ (leb need t && leb e (t - need) && leb (t - need) size)
  unfolding bump_fits bump_now sub64
  bump_fits_down size =
      let g : e < 2 ^ 32 = omega arith in
      rw (end-halves e t g, top-halves e t g)
        (elim (dec_le need t) [
          | yes p ↦
              let h : (t + 2 ^ 64 - need) % 2 ^ 64 ≡ t - need = omega arith in rw h (ground arith)
          | no p ↦
              let h : (t + 2 ^ 64 - need) % 2 ^ 64 ≡ t + 2 ^ 64 - need = omega arith in
              rw h (ground arith)
        ])

-- The settling takes each overrun off its boundary, also across the borrow of the top.
pub settle-halves :
    (e t over_end over_top : ℕ)
    → e + over_end < 2 ^ 32
    → t < 2 ^ 32
    → over_top ≤ 2 ^ 32
    → let word = halves (e + over_end) ((t + 2 ^ 32 - over_top) % 2 ^ 32) in
      pack_bounds (sub64 (bounds_end word) over_end) (add64 (bounds_top word) over_top) ≡ halves e t
unfolding sub64 add64
settle-halves e t over_end over_top he ht ho =
    let top = (t + 2 ^ 32 - over_top) % 2 ^ 32 in
    rw (end-halves (e + over_end) top he, top-halves (e + over_end) top he)
      (omega (
        arith,
        pack_bounds_lem (e + over_end + 2 ^ 64 - over_end) (top + over_top),
        pack_bounds_lem ((e + over_end + 2 ^ 64 - over_end) % 2 ^ 64) ((top + over_top) % 2 ^ 64),
      ))
