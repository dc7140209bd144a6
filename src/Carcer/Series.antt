-- ===== src/Carcer/Series.antt =====
-- `SeriesCellularum` of src/locus_carcerum, the owner table beside it, and what the operations do
-- to them in one step: stores by a mask, the counts, the settling of the bounds.
-- The high-water marks are off, which is the default of MMGR_ENABLE_HW_MEM_CAPACITY_CB. The bytes
-- of the cellblock are its 64-bit words, by offset: all offsets are multiples of 8.
pub use mmgr.Prelude.Store.{update}
use mmgr.Prelude.{ℕ, ◌+◌, ◌-◌, bit_or, Bool, true, false, not, ◌&&◌}
use mmgr.Prelude.{if◌then◌else◌, ◌==◌, ltb, leb, List}
use mmgr.Carcer.Word.{add64, sub64, pack_bounds, bounds_end, bounds_top, header, header_size}
use mmgr.Carcer.Word.{foot_of, owner_word, owner_word_place, is_complete}
use mmgr.Carcer.Word.{complete, cell_word}

-- What a `const CellOwner *` points at: nothing, the record outside the table that counts for no
-- owner, the table's record at an index, or a record elsewhere that carries a place.
pub data Owner : Type 0 where
  null nobody : Owner
  listed : ℕ → Owner
  stray : ℕ → ℕ → Owner

-- The place that a record carries: MMGR_OWNERS lays 1 at index 0.
unfoldable pub owner_place : Owner → ℕ
owner_place null = 0
owner_place nobody = 0
owner_place (listed i) = i + 1
owner_place (stray at place) = place

unfoldable pub owner_eq : Owner → Owner → Bool
owner_eq null null = true
owner_eq nobody nobody = true
owner_eq (listed i) (listed j) = i == j
owner_eq (stray i p) (stray j q) = i == j && p == q
owner_eq _ _ = false

-- A call of the port's hook: the owner named, the cell's owner and the cell's bytes.
pub record Misnamed : Type 0 where
  pub named : Owner
  pub cell_owner : Owner
  pub bytes : ℕ

pub record Series : Type 0 where
  pub base : ℕ
  pub size : ℕ
  pub bounds : ℕ
  pub persistent_overrun : ℕ
  pub temporary_overrun : ℕ
  pub in_use : ℕ
  pub persistent_in_use : ℕ
  pub closed : ℕ
  pub sink : ℕ
  pub word : ℕ → ℕ
  pub owner_count : ℕ
  pub owner_in_use : Owner → ℕ
  pub owner_hw : Owner → ℕ
  pub told : List Misnamed

abbrev pub update_owner : (Owner → ℕ) → Owner → ℕ → Owner → ℕ
update_owner f k v o = if owner_eq o k then v else f o

-- A store through `carcer_word_picked`: on the word at the offset, or on the sink.
unfoldable pub store_picked : Bool → ℕ → ℕ → Series → Series
store_picked mask off v s =
    if mask then record s { word = update s.word off v } else record s { sink = v }

unfoldable pub max_of : ℕ → ℕ → ℕ
max_of a b = if ltb a b then b else a

-- `carcer_counted`: the cell's bytes on the owner, its high mark, the cellblock and the tier.
unfoldable pub counted : Owner → ℕ → Bool → Series → Series
unfolding add64 max_of
counted owner bytes persistent s =
    let in_use = add64 (s.owner_in_use owner) bytes in
    record s {
      owner_in_use = update_owner s.owner_in_use owner in_use;
      owner_hw = update_owner s.owner_hw owner (max_of (s.owner_hw owner) in_use);
      in_use = add64 s.in_use bytes;
      persistent_in_use =
          if persistent then add64 s.persistent_in_use bytes else s.persistent_in_use;
    }

-- `carcer_uncounted`: the cell's bytes off them.
unfoldable pub uncounted : Owner → ℕ → Bool → Series → Series
unfolding sub64
uncounted owner bytes persistent s = record s {
  owner_in_use = update_owner s.owner_in_use owner (sub64 (s.owner_in_use owner) bytes);
  in_use = sub64 s.in_use bytes;
  persistent_in_use = if persistent then sub64 s.persistent_in_use bytes else s.persistent_in_use;
}

-- `carcer_owner_at`: the record at a place, and the one for no owner where the table has no such.
unfoldable pub owner_at : Series → ℕ → Owner
owner_at s place =
    if not (place == 0) && leb place s.owner_count then listed (place - 1) else nobody

-- `carcer_owner_found`: NULL where the owner word names no owner of the table.
unfoldable pub owner_found : Series → ℕ → Owner
unfolding owner_at owner_word_place
owner_found s named = elim (owner_at s (owner_word_place named)) [ listed i ↦ listed i | _ ↦ null ]

-- `mmgr_owner_listed`.
unfoldable pub owner_listed : Series → Owner → Bool
owner_listed s (listed i) = ltb i s.owner_count
owner_listed s _ = false

-- `carcer_size_at`.
unfoldable pub size_at : Series → ℕ → ℕ
unfolding header_size
size_at s off = header_size (s.word off)

-- `carcer_foot_claimed`: the completion bit set in the owner word; the bytes come off the owner in
-- the call that finds the bit clear.
unfoldable pub foot_claimed : ℕ → ℕ → Bool → Bool → Series → Series
foot_claimed off size persistent permit s =
    let was = if permit then s.word (foot_of off size) else s.sink in
    let s' =
      store_picked permit (foot_of off size) (if permit then bit_or was complete else was) s in
    let first = permit && not (is_complete was) && not (owner_word_place was == 0) in
    if first then uncounted (owner_at s (owner_word_place was)) size persistent s' else s'

-- `carcer_settled`: each boundary moved back by its overrun.
unfoldable pub settled : Series → Series
unfolding pack_bounds bounds_end bounds_top add64 sub64
settled s =
    let end = bounds_end s.bounds in
    let top = bounds_top s.bounds in
    record s {
      bounds = pack_bounds (sub64 end s.persistent_overrun) (add64 top s.temporary_overrun);
      persistent_overrun = 0;
      temporary_overrun = 0;
    }

-- `carcer_laid`: the owner word behind the payload, the header ahead of it, the counts, and the
-- payload's address; nothing but the sink where the take failed.
unfoldable pub laid : ℕ → Bool → ℕ → ℕ → Owner → Bool → Series → Series × ℕ
unfolding store_picked foot_of owner_word owner_place header counted add64
laid now taken off size owner persistent s =
    let s1 = store_picked taken (foot_of off size) (owner_word (owner_place owner) now) s in
    let s2 = store_picked taken off (header size 1) s1 in
    if taken
    then (counted owner size persistent s2, add64 (add64 s.base off) cell_word)
    else (s2, 0)
