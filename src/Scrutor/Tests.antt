-- ===== src/Scrutor/Tests.antt =====
-- Runs of src/verbum_scrutor on a word of eight bytes.
use mmgr.Prelude.{ℕ, ◌≡◌, refl, arith, List, [], ◌∷◌}
use mmgr.Prelude.Value.{AllBytes}
use mmgr.Scrutor.{has_zero, fold_lower}
use mmgr.Scrutor.Laws.{has_zero-marks}
use mmgr.Scrutor.Fold.{fold_lower-lower}

-- "MMGr[2]" and a zero.
abbrev text : List ℕ
text = 77 ∷ 77 ∷ 71 ∷ 114 ∷ 91 ∷ 50 ∷ 93 ∷ 0 ∷ []

text-AllBytes : AllBytes text
text-AllBytes = (
  omega arith,
  (
    omega arith,
    (omega arith, (omega arith, (omega arith, (omega arith, (omega arith, (omega arith, tt)))))),
  ),
)

has_zero-marks_example : has_zero 0x005D_325B_7247_4D4D ≡ 0x8000_0000_0000_0000
has_zero-marks_example = has_zero-marks text text-AllBytes refl

fold_lower-lower_example : fold_lower 0x005D_325B_7247_4D4D ≡ 0x005D_325B_7267_6D6D
fold_lower-lower_example = fold_lower-lower text text-AllBytes refl
