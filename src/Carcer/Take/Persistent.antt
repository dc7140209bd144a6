-- ===== src/Carcer/Take/Persistent.antt =====
-- A take from the persistent tier of src/locus_carcerum, by one context alone.
use mmgr.Prelude.{ℕ, ◌+◌, ◌*◌, ◌%◌, ◌^◌, ◌≤◌, ◌<◌, ◌≡◌, arith, ap, ◌∙◌, sym}
use mmgr.Prelude.{List, [], ◌∷◌, ◌++◌, true, false, ◌&&◌, leb}
use mathlib.Core.Path.{subst}
use mmgr.Carcer.Word.{add64, bounds_end, owner_word}
use mmgr.Carcer.Word.Laws.{owner_word_lem}
use mmgr.Carcer.Series.{Series, Owner, owner_place, laid}
use mmgr.Carcer.Take.{Take, bumped, bump_within, bump_fits, bump_moved}
use mmgr.Carcer.Take.Bump.{halves, end-halves, add-bump_moved_up, bump_fits_up}
use mmgr.Carcer.Take.Lay.{IsRest, IsRest-of, laid_block, laid-true, Chain-laid, Chain-laid_end}
use mmgr.Carcer.Chain.{Block, Chain}

-- `carcer_bumped` upward with its guards read off: the add, and the cell or the overrun.
module _ (now n : ℕ) (owner : Owner) (s : Series) where
  abbrev pub up_take : Take
  up_take = record { want = 8 * n; owner = owner; down = false; permit = true }

  bumped-up-fits :
      bump_within false (8 * n) s.bounds ≡ true
      → bump_fits false s.size s.bounds (16 + 8 * n) ≡ true
      → 8 * n ≤ 2 ^ 24
      → bumped now up_take true s
        ≡ laid now true (bounds_end s.bounds) (8 * n) owner true (record s {
          bounds = add64 s.bounds (bump_moved false (16 + 8 * n));
          persistent_overrun = add64 s.persistent_overrun 0;
        })
  unfolding bumped
  bumped-up-fits hw hf hs =
      let a : add64 16 (8 * n) ≡ 16 + 8 * n = unfold add64 in omega arith in rw (hw, a, hf)

  bumped-up-short :
      bump_within false (8 * n) s.bounds ≡ true
      → bump_fits false s.size s.bounds (16 + 8 * n) ≡ false
      → 8 * n ≤ 2 ^ 24
      → bumped now up_take true s
        ≡ laid now false (bounds_end s.bounds) (8 * n) owner true (record s {
          bounds = add64 s.bounds (bump_moved false (16 + 8 * n));
          persistent_overrun = add64 s.persistent_overrun (16 + 8 * n);
        })
  unfolding bumped
  bumped-up-short hw hf hs =
      let a : add64 16 (8 * n) ≡ 16 + 8 * n = unfold add64 in omega arith in rw (hw, a, hf)

  bumped-up-past :
      bump_within false (8 * n) s.bounds ≡ false
      → bumped now up_take true s
        ≡ laid now false (bounds_end s.bounds) (8 * n) owner true (record s {
          bounds = add64 s.bounds (bump_moved false 0);
          persistent_overrun = add64 s.persistent_overrun 0;
        })
  unfolding bumped
  bumped-up-past hw = rw hw

within-up :
    (n e t : ℕ)
    → e < 2 ^ 32
    → bump_within false (8 * n) (halves e t) ≡ (leb (8 * n) (2 ^ 24) && leb e (2 ^ 31))
unfolding bump_within
within-up n e t he = rw (end-halves e t he)

bumped-laid :
    (now n : ℕ) (owner : Owner) (s : Series) (P Q : List Block) (v : IsRest s P Q)
    → 0 < n
    → 8 * n ≤ 2 ^ 24
    → v.e + (16 + 8 * n) ≤ v.t
    → let out = bumped now (up_take now n owner s) true s in
      let foot = owner_word (owner_place owner) now in
      (out.1 ≡ s.base + v.e + 8) × IsRest out.0 (P ++ (laid_block s.word v.e n foot ∷ [])) Q
bumped-laid now n owner s P Q v pos small fits =
    let need = 16 + 8 * n in
    let foot = owner_word (owner_place owner) now in
    let hw : bump_within false (8 * n) s.bounds ≡ true =
      rw v.bounds (within-up n v.e v.t (omega arith) ∙ ground arith) in
    let hf : bump_fits false s.size s.bounds need ≡ true =
      rw v.bounds (bump_fits_up v.e v.t need (omega arith) (omega arith) s.size ∙ ground arith) in
    let at : bounds_end s.bounds ≡ v.e =
      ap bounds_end v.bounds ∙ end-halves v.e v.t (omega arith) in
    let moved : add64 s.bounds (bump_moved false need) ≡ halves (v.e + need) v.t =
      ap (λ w. add64 w (bump_moved false need)) v.bounds
      ∙ add-bump_moved_up v.e v.t need (omega arith) (omega arith) in
    let over : add64 s.persistent_overrun 0 ≡ 0 = unfold add64 in omega arith in
    let s1 : Series = record s {
      bounds = add64 s.bounds (bump_moved false need);
      persistent_overrun = add64 s.persistent_overrun 0;
    } in
    let l = laid-true now v.e n owner true s1 (omega arith) (omega arith) in
    rw (bumped-up-fits now n owner s hw hf small, at)
      (
        l.1,
        IsRest-of s (laid now true v.e (8 * n) owner true s1).0 (v.e + need) v.t
            (P ++ (laid_block s.word v.e n foot ∷ [])) Q (v.small, v.placed.0, v.placed.1) l.3 l.4
            (l.2 ∙ moved) (l.5 ∙ over, l.6 ∙ v.over_top) (fits, v.within)
            (subst (λ w. Chain w 0 (P ++ (laid_block s.word v.e n foot ∷ [])) (v.e + need))
              (sym l.0) (Chain-laid_end s.word v.e n foot P pos v.lower))
            (subst (λ w. Chain w v.t Q s.size) (sym l.0)
              (Chain-laid s.word v.e n foot v.t s.size Q (omega arith) v.upper)),
      )

-- A bump up on a cellblock at rest, for an owner whose place is a byte, where the request is of a word or
-- more, within the bound on a bump, and the gap holds it: the answer is the payload past the persistent
-- end, the cell there carries the owner's place in its top byte and the lowest 52 bits of the clock's
-- reading, the cellblock is at rest with that cell behind the persistent ones, and every other cell stays.
pub bumped-IsRest :
    (now n : ℕ) (owner : Owner) (s : Series) (P Q : List Block) (v : IsRest s P Q)
    → owner_place owner < 256
    → 0 < n
    → 8 * n ≤ 2 ^ 24
    → v.e + (16 + 8 * n) ≤ v.t
    → let out = bumped now (up_take now n owner s) true s in
      let foot = owner_place owner * 2 ^ 56 + now % 2 ^ 52 in
      (out.1 ≡ s.base + v.e + 8) × IsRest out.0 (P ++ (laid_block s.word v.e n foot ∷ [])) Q
bumped-IsRest now n owner s P Q v place pos small fits =
    let laid = bumped-laid now n owner s P Q v pos small fits in
    let out = bumped now (up_take now n owner s) true s in
    (
      laid.0,
      subst (λ foot. IsRest out.0 (P ++ (laid_block s.word v.e n foot ∷ [])) Q)
          (owner_word_lem (owner_place owner) now place) laid.1,
    )
