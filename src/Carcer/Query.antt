-- ===== src/Carcer/Query.antt =====
-- What src/locus_carcerum answers without moving a boundary: the owner of a cell, the room left,
-- the fragmentation; the counts of bytes kept elsewhere; and the emptied cellblock.
use mmgr.Prelude.{ℕ, ◌/◌, Bool, not, ◌&&◌, if◌then◌else◌, ◌==◌, ltb, leb}
use mmgr.Carcer.Word.{add64, sub64, pack_bounds, bounds_end, bounds_top, header_size, header_state}
use mmgr.Carcer.Word.{foot_of, end_of, busy_state, cell_word}
use mmgr.Carcer.Series.{Series, Owner, null, update_owner, owner_found, max_of}
use mmgr.Carcer.Give.{who_owns, off_of}

-- `mmgr_owner_of_buf`.
unfoldable pub owner_of_buf : Series → ℕ → Owner
unfolding who_owns off_of header_size header_state end_of foot_of owner_found
owner_of_buf s prisoner =
    let owns = not (prisoner == 0) && who_owns s prisoner in
    let off = off_of s (if owns then prisoner else add64 s.base cell_word) in
    let word = s.word off in
    let size = header_size word in
    let busy = owns && header_state word == busy_state && leb (end_of off size) s.size in
    let foot = if busy then foot_of off size else off in
    if busy then owner_found s (s.word foot) else null

-- `mmgr_owner_bytes_taken` and `mmgr_owner_bytes_given`.
unfoldable pub owner_bytes_taken : Owner → ℕ → Series → Series
unfolding add64 max_of
owner_bytes_taken owner bytes s =
    let in_use = add64 (s.owner_in_use owner) bytes in
    record s {
      owner_in_use = update_owner s.owner_in_use owner in_use;
      owner_hw = update_owner s.owner_hw owner (max_of (s.owner_hw owner) in_use);
    }

unfoldable pub owner_bytes_given : Owner → ℕ → Series → Series
unfolding sub64
owner_bytes_given owner bytes s = record s {
  owner_in_use = update_owner s.owner_in_use owner (sub64 (s.owner_in_use owner) bytes);
}

-- `mmgr_series_cellularum_fragmentation`: the percent of the persistent tier that no cell counts.
unfoldable pub fragmentation : Series → ℕ
unfolding bounds_end sub64
fragmentation s =
    let occupied = bounds_end s.bounds in
    let holes =
      if ltb s.persistent_in_use occupied then sub64 occupied s.persistent_in_use else 0 in
    if leb 100 occupied then holes / (occupied / 100) else 0

-- `mmgr_buf_available`.
unfoldable pub buf_available : Series → ℕ
unfolding bounds_end bounds_top sub64
buf_available s =
    let end = bounds_end s.bounds in
    let top = bounds_top s.bounds in if leb end top then sub64 top end else 0

-- `mmgr_series_cellularum_idle`.
unfoldable pub idle : Series → Bool
unfolding bounds_end bounds_top
idle s = bounds_end s.bounds == 0 && bounds_top s.bounds == s.size

-- `mmgr_series_cellularum_emptied`: the owners' records and the cellblock's bytes stay.
unfoldable pub emptied : Series → Series
unfolding pack_bounds
emptied s = record s {
  bounds = pack_bounds 0 s.size;
  persistent_overrun = 0;
  temporary_overrun = 0;
  in_use = 0;
  persistent_in_use = 0;
  closed = 0;
  sink = 0;
}
