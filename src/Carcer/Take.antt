-- ===== src/Carcer/Take.antt =====
-- The takes of src/locus_carcerum: the bump on the bounds word, the sweep and the walk of the
-- exclusive path, the split, the spill, and the take that joins them.
pub mod Bump
pub mod Merge
pub mod Found
pub mod Runs
pub mod Kept
pub mod Lay
pub mod Persistent
use mmgr.Prelude.{ℕ, zero, suc, ◌+◌, ◌%◌, ◌^◌, ◌/◌, ◌-◌, Bool, true, false, not, ◌&&◌, ◌||◌}
use mmgr.Prelude.{if◌then◌else◌, ◌==◌, ltb, leb, List, [], ◌∷◌}
use mmgr.Carcer.Word.{add64, sub64, shl64, pack_bounds, bounds_end, bounds_top, header, header_size}
use mmgr.Carcer.Word.{
  header_state, foot_of, end_of, cell_want, free_state, cell_hdr, cell_word, align,
}
use mmgr.Carcer.Word.{half_bits, want_most, bytes_most}
use mmgr.Carcer.Series.{
  Series, Owner, nobody, owner_place, owner_listed, store_picked, laid, settled,
}

-- `CarcerTakeCtx`.
pub record Take : Type 0 where
  pub want : ℕ
  pub owner : Owner
  pub down : Bool
  pub permit : Bool

-- What `carcer_bumped` adds to the bounds word: a bump down subtracts in the high half.
unfoldable pub bump_moved : Bool → ℕ → ℕ
unfolding shl64 sub64
bump_moved down need = if down then shl64 (sub64 0 need) half_bits else need

-- The boundary that the bump leaves, by the word before it.
unfoldable pub bump_now : Bool → ℕ → ℕ → ℕ
unfolding add64 sub64 bounds_top bounds_end
bump_now down word need =
    if down then sub64 (bounds_top word) need else add64 (bounds_end word) need

-- Whether the gap met the bump, by the word before it.
unfoldable pub bump_fits : Bool → ℕ → ℕ → ℕ → Bool
unfolding bump_now bounds_top bounds_end
bump_fits down size word need =
    let now = bump_now down word need in
    if down
    then leb (bounds_end word) now && leb now (bounds_top word) && leb now size
    else leb now (bounds_top word) && leb (bounds_end word) now && leb (bounds_top word) size

-- The bound on a take, and on the end that a bump up reads ahead of its add.
unfoldable pub bump_within : Bool → ℕ → ℕ → Bool
unfolding bounds_end
bump_within down want ahead = leb want want_most && (down || leb (bounds_end ahead) bytes_most)

-- `carcer_bumped`, by one context alone: the word that it reads ahead is the word that it adds to.
unfoldable pub bumped : ℕ → Take → Bool → Series → Series × ℕ
unfolding add64 bump_moved bump_now bump_fits bump_within bounds_end laid
bumped now take permit s =
    let allowed = permit && take.permit && bump_within take.down take.want s.bounds in
    let need = if allowed then add64 cell_hdr take.want else 0 in
    let word = s.bounds in
    let taken = allowed && bump_fits take.down s.size word need in
    let off = if take.down then bump_now true word need else bounds_end word in
    let over = if taken then 0 else need in
    let s1 = record s {
      bounds = add64 word (bump_moved take.down need);
      persistent_overrun =
          if take.down then s.persistent_overrun else add64 s.persistent_overrun over;
      temporary_overrun = if take.down then add64 s.temporary_overrun over else s.temporary_overrun;
    } in
    laid now taken off take.want take.owner (not take.down) s1

-- The locals of `carcer_swept`: `found`, `at` and `size` are its answer.
pub record Sweep : Type 0 where
  pub off : ℕ
  pub run_at : ℕ
  pub run_size : ℕ
  pub found : Bool
  pub at : ℕ
  pub size : ℕ

-- One round of the loop of `carcer_swept`.
unfoldable pub sweep_step : ℕ → ℕ → Series → Sweep → Series × Sweep
unfolding header_size header_state store_picked foot_of end_of header add64
sweep_step want below s k =
    let word = s.word k.off in
    let size = header_size word in
    let free = header_state word == free_state in
    let open_run = not (k.run_size == 0) in
    let closes = not free && open_run in
    let takes = closes && not k.found && leb want k.run_size && leb k.off below in
    let s1 = store_picked closes (foot_of k.run_at k.run_size) 0 s in
    let s2 = store_picked closes k.run_at (header k.run_size free_state) s1 in
    (
      s2,
      record {
        off = end_of k.off size;
        run_at = if free && not open_run then k.off else k.run_at;
        run_size =
            if free then add64 (add64 k.run_size size) (if open_run then cell_hdr else 0) else 0;
        found = k.found || takes;
        at = if takes then k.run_at else k.at;
        size = if takes then k.run_size else k.size;
      },
    )

-- The loop, by the rounds that may still be made.
unfoldable pub sweep_loop : ℕ → ℕ → ℕ → ℕ → Series → Sweep → Series × Sweep
unfolding sweep_step
sweep_loop zero walked want below s k = (s, k)
sweep_loop (suc f) walked want below s k = elim (ltb k.off walked) [
  | true ↦ let (s', k') = sweep_step want below s k in sweep_loop f walked want below s' k'
  | false ↦ (s, k)
]

abbrev pub no_sweep : Sweep
no_sweep = record { off = 0; run_at = 0; run_size = 0; found = false; at = 0; size = 0 }

-- The answer of `carcer_swept`.
pub record Swept : Type 0 where
  pub found : Bool
  pub at : ℕ
  pub size : ℕ
  pub end : ℕ

-- `carcer_swept`: merge the free runs of the persistent tier, find the first that holds the want
-- below an offset, and the end without the run of free cells at the tier's end. A round passes a
-- cell, 16 bytes or more.
unfoldable pub swept : ℕ → ℕ → Bool → Series → Series × Swept
unfolding sweep_loop bounds_end
swept want below permit s =
    let end = bounds_end s.bounds in
    let walked = if permit then end else 0 in
    let (s', k) = sweep_loop (end / 16 + 1) walked want below s no_sweep in
    (
      s',
      record {
        found = k.found;
        at = k.at;
        size = k.size;
        end = if k.run_size == 0 then end else k.run_at;
      },
    )

-- `carcer_top_walked`: the temporary top past the free cells on it.
unfoldable pub top_loop : ℕ → Bool → ℕ → Series → ℕ
unfolding header_state header_size end_of add64
top_loop zero more at s = at
top_loop (suc f) more at s = elim more [
  | true ↦
      let word = s.word at in
      let free = header_state word == free_state in
      let at' = if free then add64 at (end_of 0 (header_size word)) else at in
      top_loop f (free && ltb at' s.size) at' s
  | false ↦ at
]

unfoldable pub top_walked : Bool → Series → ℕ
unfolding top_loop bounds_top
top_walked permit s =
    let at = bounds_top s.bounds in top_loop (s.size / 16 + 1) (permit && ltb at s.size) at s

-- `carcer_split`: the run found, split where the rest holds a cell; the answer is the payload kept.
unfoldable pub split : Swept → ℕ → Series → Series × ℕ
unfolding add64 sub64 end_of foot_of store_picked header
split sweep want s =
    let splits = sweep.found && leb (add64 (add64 want cell_hdr) align) sweep.size in
    let rest_at = end_of sweep.at want in
    let rest_size = if splits then sub64 (sub64 sweep.size want) cell_hdr else 0 in
    let s1 = store_picked splits (foot_of rest_at rest_size) 0 s in
    let s2 = store_picked splits rest_at (header rest_size free_state) s1 in
    (s2, if sweep.found && not splits then sweep.size else want)

-- `carcer_spilled`, from the settling on: the cellblock is closed to every pass, and stays so to
-- the end.
unfoldable pub spilled : ℕ → ℕ → Owner → Bool → Series → Series × ℕ
unfolding settled swept top_walked split laid add64 sub64 pack_bounds
spilled now want owner down s =
    let need = add64 cell_hdr want in
    let (s1, sweep) = swept want s.size (not down) (settled s) in
    let top = top_walked down s1 in
    let room = leb sweep.end top && leb need (sub64 top sweep.end) && not sweep.found in
    let end = add64 sweep.end (if room && not down then need else 0) in
    let top_after = sub64 top (if room && down then need else 0) in
    let off = if sweep.found then sweep.at else if down then top_after else sweep.end in
    let (s2, kept) = split sweep want s1 in
    let s3 = record s2 { bounds = pack_bounds end top_after } in
    laid now (sweep.found || room) off kept owner (not down) s3

-- `carcer_passed` over the bump, with the permits that its attempts find: a context that finds no
-- lane, or finds the cellblock closed, tries again.
unfoldable pub passed : ℕ → Take → List Bool → Series → Series × ℕ
unfolding bumped
passed now take [] s = bumped now take true s
passed now take (permit ∷ rest) s =
    let (s', answer) = bumped now take permit s in
    if permit then (s', answer) else passed now take rest s'

-- `carcer_taken`: the bump, and where it answers nothing the exclusive path. The list holds what
-- the attempts before the last find.
unfoldable pub taken : ℕ → List Bool → ℕ → Owner → Bool → Bool → Series → Series × ℕ
unfolding owner_listed passed spilled cell_want
taken now missed size owner down permit s =
    let listed = permit && owner_listed s owner in
    let safe = if listed then owner else nobody in
    let take : Take = record {
      want = cell_want size;
      owner = safe;
      down = down;
      permit = listed;
    } in
    let (s', at) = passed now take missed s in
    if listed && at == 0 then spilled now (cell_want size) safe down s' else (s', at)
