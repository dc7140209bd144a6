-- ===== src/Carcer/Give.antt =====
-- The gives of src/locus_carcerum: the reading of a cell by the address and the owner handed back,
-- the give, the trim, and the release that joins them.
pub mod Once
use mmgr.Prelude.{ℕ, zero, suc, ◌+◌, ◌^◌, ◌/◌, ◌-◌, Bool, true, false, not, ◌&&◌}
use mmgr.Prelude.{if◌then◌else◌, ◌==◌, ltb, ◌∷◌, Option, none, some}
use mmgr.Carcer.Word.{sub64, pack_bounds, bounds_end, bounds_top, header}
use mmgr.Carcer.Word.{foot_of, end_of, free_state, cell_word, owner_is, is_complete}
use mmgr.Carcer.Series.{Series, Owner, null, owner_place, owner_found}
use mmgr.Carcer.Series.{store_picked, size_at, foot_claimed, settled, update}
use mmgr.Carcer.Take.{swept, top_walked}

-- `mmgr_who_owns_buf`.
unfoldable pub who_owns : Series → ℕ → Bool
unfolding sub64
who_owns s at = ltb (sub64 at s.base) s.size

-- `carcer_off_of`.
unfoldable pub off_of : Series → ℕ → ℕ
unfolding sub64
off_of s at = sub64 (sub64 at s.base) cell_word

unfoldable pub is_null : Owner → Bool
is_null null = true
is_null _ = false

-- `CarcerCell`.
pub record Cell : Type 0 where
  pub off : ℕ
  pub size : ℕ
  pub proceeds : Bool

-- `carcer_cell_read`: a cell that counts to another owner is told to the port.
unfoldable pub cell_read : ℕ → Owner → Bool → Series → Series × Cell
cell_read prisoner owner permit s =
    let off = off_of s prisoner in
    let size = size_at s off in
    let named = s.word (foot_of off size) in
    let counted = permit && not (is_complete named) in
    let mine = counted && owner_is named (owner_place owner) in
    let found = owner_found s named in
    let another = counted && not mine && not (is_null found) in
    (
      if another
          then record s {
            told = record { named = owner; cell_owner = found; bytes = size } ∷ s.told;
          }
          else s,
      record { off = off; size = size; proceeds = mine },
    )

-- `mmgr_zero_buf` on a payload: its words, from an offset on.
unfoldable pub zero_words : ℕ → ℕ → Series → Series
zero_words zero off s = s
zero_words (suc n) off s = zero_words n (off + 8) (record s { word = update s.word off 0 })

-- The bits that `carcer_given` answers with.
pub record Given : Type 0 where
  pub back : Bool
  pub at_boundary : Bool
  pub persistent : Bool

-- `carcer_given`; `none` is MMGR_FATAL, for a prisoner that the cellblock does not hold. A call that
-- hands over nothing (`given` clear) reads an empty cellblock of its own, and gives nothing back.
unfoldable pub given : ℕ → Owner → Bool → Bool → Series → Option (Series × Given)
given prisoner owner zeroing permit s =
    let is_given = permit && not (prisoner == 0) && not (is_null owner) in
    let foreign = is_given && not (who_owns s prisoner) in
    let (s1, cell) = cell_read prisoner owner true s in
    let end = bounds_end s1.bounds in
    let top = bounds_top s1.bounds in
    let persistent = ltb cell.off end in
    let at_boundary = if persistent then end_of cell.off cell.size == end else cell.off == top in
    let wiped = if zeroing && cell.proceeds then cell.size / 8 else 0 in
    let s2 = zero_words wiped (cell.off + 8) s1 in
    let s3 = foot_claimed cell.off cell.size persistent cell.proceeds s2 in
    let s4 = store_picked cell.proceeds cell.off (header cell.size free_state) s3 in
    if not is_given
    then some (s, record { back = false; at_boundary = false; persistent = false })
    else if foreign
    then none
    else some (
      s4,
      record {
        back = cell.proceeds;
        at_boundary = cell.proceeds && at_boundary;
        persistent = cell.proceeds && persistent;
      },
    )

-- `carcer_trimmed`, where no other context holds the cellblock closed: the run of free cells at the
-- tier's boundary goes back to the gap.
unfoldable pub trimmed : Bool → Series → Series
unfolding settled swept top_walked pack_bounds
trimmed persistent s =
    let (s1, sweep) = swept (2 ^ 64 - 1) s.size persistent (settled s) in
    let top = top_walked (not persistent) s1 in record s1 { bounds = pack_bounds sweep.end top }

-- `carcer_released`.
unfoldable pub released : ℕ → Owner → Bool → Series → Option Series
unfolding given trimmed
released prisoner owner zeroing s = elim (given prisoner owner zeroing true s) [
  | none ↦ none
  | some (s', g) ↦ some (if g.at_boundary then trimmed g.persistent s' else s')
]
