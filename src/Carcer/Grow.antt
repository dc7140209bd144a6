-- ===== src/Carcer/Grow.antt =====
-- The growth of a cell in place and the rewind of the temporary tier, src/locus_carcerum.
use mmgr.Prelude.{ℕ, zero, suc, ◌+◌, ◌/◌, ◌-◌, Bool, true, false, not, ◌&&◌, ◌||◌}
use mmgr.Prelude.{if◌then◌else◌, ◌==◌, ltb, leb, Option, none, some}
use mmgr.Carcer.Word.{add64, sub64, pack_bounds, bounds_end, bounds_top, header, owner_word}
use mmgr.Carcer.Word.{foot_of, end_of, busy_state, cell_word, cell_want}
use mmgr.Carcer.Series.{
  Series, Owner, owner_place, update, store_picked, size_at, foot_claimed, settled,
}
use mmgr.Carcer.Series.{counted}
use mmgr.Carcer.Give.{who_owns, cell_read, zero_words, is_null}

-- `memor.move_down` on a payload: words copied one by one from the lowest up.
unfoldable pub move_words : ℕ → ℕ → ℕ → Series → Series
move_words zero dst src s = s
move_words (suc n) dst src s =
    move_words n (dst + 8) (src + 8) (record s { word = update s.word dst (s.word src) })

-- `carcer_grown`; `none` is MMGR_FATAL, and the answer 0 is NULL.
unfoldable pub grown : ℕ → ℕ → ℕ → Owner → Bool → Series → Option (Series × ℕ)
unfolding who_owns cell_read cell_want settled bounds_end bounds_top end_of pack_bounds foot_of
    owner_word
grown now prisoner size owner zeroing s =
    let is_given = not (prisoner == 0) && not (is_null owner) in
    let foreign = is_given && not (who_owns s prisoner) in
    let (s1, cell) = cell_read prisoner owner true (settled s) in
    let want = cell_want size in
    let grows = cell.proceeds && ltb cell.size want in
    let extra = if grows then sub64 want cell.size else 0 in
    let end = bounds_end s1.bounds in
    let top = bounds_top s1.bounds in
    let up = ltb cell.off end in
    let newest = if up then end == end_of cell.off cell.size else top == cell.off in
    let room = leb end top && leb extra (sub64 top end) in
    let moving = grows && newest && room in
    let up_by = if moving && up then extra else 0 in
    let down_by = if moving && not up then extra else 0 in
    let at = sub64 cell.off down_by in
    let s2 = record s1 { bounds = pack_bounds (add64 end up_by) (sub64 top down_by) } in
    let s3 =
      store_picked (moving && up) (foot_of cell.off want) (owner_word (owner_place owner) now) s2 in
    let s4 = store_picked moving at (header (if moving then want else cell.size) busy_state) s3 in
    let moved = if moving && not up then cell.size / 8 else 0 in
    let s5 = move_words moved (at + 8) (cell.off + 8) s4 in
    let wiped = if zeroing && moving then extra / 8 else 0 in
    let s6 = zero_words wiped (add64 (add64 at cell_word) cell.size) s5 in
    let s7 = if moving then counted owner extra up s6 else s6 in
    if not is_given
    then some (s, 0)
    else if foreign
    then none
    else some
        (s7, if moving || cell.proceeds && not grows then add64 (add64 s.base at) cell_word else 0)

-- The loop of `carcer_rewound`: every cell from the top to the mark comes off its owner.
unfoldable pub rewind_loop : ℕ → ℕ → ℕ → Series → Series
unfolding size_at foot_claimed end_of
rewind_loop zero off to s = s
rewind_loop (suc f) off to s = elim (ltb off to) [
  | true ↦
      let size = size_at s off in
      rewind_loop f (end_of off size) to (foot_claimed off size false true s)
  | false ↦ s
]

-- `carcer_rewound`.
unfoldable pub rewound : ℕ → Bool → Series → Series
unfolding settled rewind_loop bounds_top bounds_end zero_words pack_bounds
rewound mark zeroing s =
    let s1 = settled s in
    let top = bounds_top s1.bounds in
    let to = if leb mark s1.size && ltb top mark then mark else top in
    let s2 = rewind_loop (s1.size / 16 + 1) top to s1 in
    let s3 = zero_words (if zeroing then (to - top) / 8 else 0) top s2 in
    record s3 { bounds = pack_bounds (bounds_end s1.bounds) to }

-- `mmgr_temporary_buf_mark` and `mmgr_temporary_buf_reset`.
unfoldable pub temporary_mark : Series → ℕ
unfolding bounds_top
temporary_mark s = bounds_top s.bounds

unfoldable pub temporary_reset : Series → Series
unfolding rewound
temporary_reset s = rewound s.size false s
