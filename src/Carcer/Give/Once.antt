-- ===== src/Carcer/Give/Once.antt =====
-- A cell of src/locus_carcerum is given back once: the completion bit of its owner word.
use mmgr.Prelude.{
  ℕ, zero, suc, ◌+◌, ◌-◌, ◌*◌, ◌/◌, ◌%◌, ◌^◌, ◌≤◌, ◌<◌, ◌≡◌, ◌⊎◌, inl, inr, refl, arith, ap, ◌∙◌,
}
use mmgr.Prelude.{
  Bool, true, false, not, ◌&&◌, if◌then◌else◌, ◌==◌, ltb, leb, bit_or, Bool-cases, some,
}
use mmgr.Carcer.Word.{
  sub64, bounds_end, bounds_top, end_of, header, header_size, foot_of, owner_word_place, owner_is,
  is_complete,
}
use mmgr.Carcer.Word.Laws.{
  header_lem, header_size_lem, foot_of_lem, owner_word_place_lem, owner_is_lem, is_complete_lem,
  bit_or_complete,
}
use mmgr.Carcer.Series.{
  Series, Owner, listed, owner_place, size_at, foot_claimed, store_picked, uncounted, owner_at,
  update, update_owner,
}
use mmgr.Carcer.Give.{who_owns, off_of, is_null, Given, given, zero_words, cell_read}

-- Where the owner word that stands behind the cell is complete.
abbrev pub IsGiven : Series → ℕ → Type 0
IsGiven s prisoner =
    is_complete (s.word (foot_of (off_of s prisoner) (size_at s (off_of s prisoner)))) ≡ true

cell_read-given :
    (prisoner : ℕ) (owner : Owner) (s : Series)
    → IsGiven s prisoner
    → cell_read prisoner owner true s ≡ (
      s,
      record { off = off_of s prisoner; size = size_at s (off_of s prisoner); proceeds = false },
    )
unfolding cell_read
cell_read-given prisoner owner s done = rw done refl

-- A give of a cell of the cellblock that has been given back already, by whatever owner: nothing
-- comes back, and nothing but the sink changes.
pub given-again :
    (prisoner : ℕ) (owner : Owner) (zeroing : Bool) (s : Series)
    → who_owns s prisoner ≡ true
    → IsGiven s prisoner
    → (s' : Series) × (g : Given) × (given prisoner owner zeroing true s ≡ some (s', g))
      × (g.back ≡ false)
      × (s' ≡ record s { sink = s'.sink })
given-again prisoner owner zeroing s owns done =
    let cell = cell_read-given prisoner owner s done in
    elim (Bool-cases (not (prisoner == 0) && not (is_null owner))) [
      | inl e ↦
          let off = off_of s prisoner in
          let none : (zeroing && false) ≡ false = ground arith in
          (
            record s { sink = header (size_at s off) 0 },
            record { back = false; at_boundary = false; persistent = false },
            unfold given zero_words foot_claimed store_picked in rw (e, owns, cell, none) refl,
            refl,
            refl,
          )
      | inr e ↦ (
        s,
        record { back = false; at_boundary = false; persistent = false },
        unfold given in rw e refl,
        refl,
        refl,
      )
    ]

-- Wiping writes the words of the payload alone.
zero_words_lem :
    (k a j : ℕ) (s : Series)
    → (j < a) ⊎ (a + 8 * k ≤ j)
    → (zero_words k a s ≡ record s { word = (zero_words k a s).word })
      × ((zero_words k a s).word j ≡ s.word j)
unfolding zero_words
zero_words_lem zero a j s h = (refl, refl)
zero_words_lem (suc k) a j s h =
    let s1 : Series = record s { word = update s.word a 0 } in
    let ih = zero_words_lem k (a + 8) j s1 (omega arith) in (ih.0, ih.1 ∙ ground arith)

-- A held cell of an owner of the table: its words, its owner word and where it stands.
pub record IsHeld (s : Series) (off n i : ℕ) : Type 0 where
  pub header_word : s.word off ≡ 32 * n + 1
  pub some_words : 0 < n
  pub within : off + 16 + 8 * n ≤ s.size
  pub small : s.size ≤ 2 ^ 31
  pub placed : (0 < s.base) × (s.base + s.size < 2 ^ 64)
  pub foot_word : s.word (off + 8 + 8 * n) < 2 ^ 64
  pub named : s.word (off + 8 + 8 * n) / 2 ^ 56 ≡ i + 1
  pub open_word : s.word (off + 8 + 8 * n) / 2 ^ 55 % 2 ≡ 0
  pub in_table : (i < s.owner_count) × (s.owner_count < 256)

module _ (s : Series) (off n i : ℕ) (v : IsHeld s off n i) where
  abbrev prisoner : ℕ
  prisoner = s.base + off + 8

  prisoner-off : off_of s prisoner ≡ off
  unfolding off_of sub64
  prisoner-off = omega arith

  prisoner-owned : who_owns s prisoner ≡ true
  unfolding who_owns sub64
  prisoner-owned = ground arith

  held-size : size_at s off ≡ 8 * n
  unfolding size_at header_size
  held-size = rw v.header_word (omega arith)

  held-foot : foot_of off (8 * n) ≡ off + 8 + 8 * n
  held-foot = foot_of_lem off (8 * n) (omega arith)

  held-open : is_complete (s.word (off + 8 + 8 * n)) ≡ false
  held-open = is_complete_lem (s.word (off + 8 + 8 * n)) ∙ ground arith

  held-owner : owner_is (s.word (off + 8 + 8 * n)) (i + 1) ≡ true
  held-owner =
      owner_is_lem (s.word (off + 8 + 8 * n)) (i + 1) v.foot_word (omega arith) ∙ ground arith

  cell_read-held :
      cell_read prisoner (listed i) true s
      ≡ (s, record { off = off; size = 8 * n; proceeds = true })
  unfolding cell_read owner_place
  cell_read-held = rw (prisoner-off, held-size, held-foot, held-open, held-owner) refl

  -- The owner word claimed, whatever words stand elsewhere.
  foot_claimed-held :
      (persistent : Bool) (w : ℕ → ℕ)
      → w (off + 8 + 8 * n) ≡ s.word (off + 8 + 8 * n)
      → foot_claimed off (8 * n) persistent true (record s { word = w })
        ≡ uncounted
            (listed i)
            (8 * n)
            persistent
            (record s { word = update w (off + 8 + 8 * n) (s.word (off + 8 + 8 * n) + 2 ^ 55) })
  unfolding foot_claimed store_picked owner_at
  foot_claimed-held persistent w same =
      let place : owner_word_place (s.word (off + 8 + 8 * n)) ≡ i + 1 =
        owner_word_place_lem (s.word (off + 8 + 8 * n)) v.foot_word ∙ v.named in
      let set : bit_or (s.word (off + 8 + 8 * n)) (2 ^ 55) ≡ s.word (off + 8 + 8 * n) + 2 ^ 55 =
        bit_or_complete (s.word (off + 8 + 8 * n)) ∙ ground arith in
      let some_place : (i + 1 == 0) ≡ false = ground arith in
      let listed_place : leb (i + 1) s.owner_count ≡ true = ground arith in
      let back : i + 1 - 1 ≡ i = omega arith in
      rw (held-foot, same, held-open, place, set, some_place, listed_place, back) refl

-- A give of a held cell by its owner: it comes back, its bytes come off the owner, the cellblock and,
-- for a cell below the persistent end, its tier; its header says free; no port hook is called; the
-- bounds stay; and the cell has been given back.
pub given-once :
    (off n i : ℕ) (zeroing : Bool) (s : Series)
    → IsHeld s off n i
    → let prisoner = s.base + off + 8 in
      (s' : Series) × (g : Given) × (given prisoner (listed i) zeroing true s ≡ some (s', g))
      × (g.back ≡ true)
      × (s'.owner_in_use
          ≡ update_owner s.owner_in_use (listed i) (sub64 (s.owner_in_use (listed i)) (8 * n)))
      × (s'.in_use ≡ sub64 s.in_use (8 * n))
      × (s'.persistent_in_use ≡ (
          if ltb off (bounds_end s.bounds)
          then sub64 s.persistent_in_use (8 * n)
          else s.persistent_in_use))
      × (s'.word off ≡ 32 * n)
      × (s'.told ≡ s.told)
      × (s'.bounds ≡ s.bounds)
      × (who_owns s' prisoner ≡ true)
      × IsGiven s' prisoner
given-once off n i zeroing s v =
    let at = s.base + off + 8 in
    let foot = off + 8 + 8 * n in
    let owns = prisoner-owned s off n i v in
    let cell = cell_read-held s off n i v in
    let k = if zeroing && true then 8 * n / 8 else 0 in
    let few : k ≤ n = ground arith in
    let wiped = zero_words k (off + 8) s in
    let z = zero_words_lem k (off + 8) foot s (omega arith) in
    let persistent = ltb off (bounds_end s.bounds) in
    let claimed = foot_claimed-held s off n i v persistent wiped.word z.1 in
    let there : (at == 0) ≡ false = ground arith in
    let word = update (update wiped.word foot (s.word foot + 2 ^ 55)) off (32 * n) in
    let s' : Series = record s {
      owner_in_use =
          update_owner s.owner_in_use (listed i) (sub64 (s.owner_in_use (listed i)) (8 * n));
      in_use = sub64 s.in_use (8 * n);
      persistent_in_use =
          if persistent then sub64 s.persistent_in_use (8 * n) else s.persistent_in_use;
      word = word;
    } in
    let off' : off_of s' at ≡ off = unfold off_of sub64 in omega arith in
    let freed : word off ≡ 32 * n = ground arith in
    let size' : size_at s' off ≡ 8 * n =
      unfold size_at in ap header_size freed ∙ header_size_lem (32 * n) ∙ omega arith in
    let set : word foot ≡ s.word foot + 2 ^ 55 = ground arith in
    let done : is_complete (s.word foot + 2 ^ 55) ≡ true =
      is_complete_lem (s.word foot + 2 ^ 55) ∙ ground arith in
    let free : header (8 * n) 0 ≡ 32 * n =
      header_lem (8 * n) 0 (omega arith) (omega arith) ∙ omega arith in
    let claimed' = ap (foot_claimed off (8 * n) persistent true) z.0 ∙ claimed in
    (
      s',
      record {
        back = true;
        at_boundary =
            if persistent
            then end_of off (8 * n) == bounds_end s.bounds
            else off == bounds_top s.bounds;
        persistent = persistent;
      },
      unfold given is_null store_picked uncounted sub64 in
          rw (there, owns, cell) (rw (claimed', free) refl),
      refl,
      refl,
      refl,
      refl,
      freed,
      refl,
      refl,
      unfold who_owns sub64 in ground arith,
      rw (off', size', held-foot s off n i v, set) done,
    )
