-- ===== src/Carcer/Tests/Gives.antt =====
-- A cell given back to src/locus_carcerum, and given once more.
use mmgr.Prelude.{ℕ, ◌+◌, ◌*◌, ◌^◌, ◌≡◌, refl, arith, true, false, some, if◌then◌else◌, ltb}
use mmgr.Carcer.Word.{sub64, bounds_end, is_complete, foot_of, header_size}
use mmgr.Carcer.Series.{Series, size_at, listed, update, update_owner}
use mmgr.Carcer.Give.{Given, given, who_owns, off_of}
use mmgr.Carcer.Give.Once.{IsGiven, IsHeld, given-again, given-once}
use mmgr.Carcer.Tests.{fresh}

-- A cell of one word at 48, of the second owner.
abbrev holding : ℕ → Series
holding named = record fresh {
  bounds = 256 * 2 ^ 32 + 72;
  word = update (update (update (λ off. 0) 0 129) 48 33) 64 named;
  owner_in_use = λ o. 40;
  in_use = 40;
}

holding-IsHeld : IsHeld (holding (2 * 2 ^ 56)) 48 1 1
holding-IsHeld = record {
  header_word = refl;
  some_words = omega arith;
  within = omega arith;
  small = omega arith;
  placed = (omega arith, omega arith);
  foot_word = omega arith;
  named = refl;
  open_word = refl;
  in_table = (omega arith, omega arith);
}

given-once_example :
    let s = holding (2 * 2 ^ 56) in
    (s' : Series) × (g : Given) × (given 4152 (listed 1) true true s ≡ some (s', g))
    × (g.back ≡ true)
    × (s'.owner_in_use ≡ update_owner s.owner_in_use (listed 1) (sub64 40 8))
    × (s'.in_use ≡ sub64 40 8)
    × (s'.persistent_in_use ≡ (
        if ltb 48 (bounds_end s.bounds) then sub64 s.persistent_in_use 8 else s.persistent_in_use))
    × (s'.word 48 ≡ 32)
    × (s'.told ≡ s.told)
    × (s'.bounds ≡ s.bounds)
    × (who_owns s' 4152 ≡ true)
    × IsGiven s' 4152
given-once_example = given-once 48 1 1 true (holding (2 * 2 ^ 56)) holding-IsHeld

-- The same cell once its owner word is complete.
holding-owned : who_owns (holding (2 * 2 ^ 56 + 2 ^ 55)) 4152 ≡ true
unfolding who_owns sub64
holding-owned = refl

holding-IsGiven : IsGiven (holding (2 * 2 ^ 56 + 2 ^ 55)) 4152
unfolding is_complete foot_of off_of size_at header_size
holding-IsGiven = refl

given-again_example :
    let s = holding (2 * 2 ^ 56 + 2 ^ 55) in
    (s' : Series) × (g : Given) × (given 4152 (listed 1) true true s ≡ some (s', g))
    × (g.back ≡ false)
    × (s' ≡ record s { sink = s'.sink })
given-again_example =
    given-again 4152 (listed 1) true (holding (2 * 2 ^ 56 + 2 ^ 55)) holding-owned holding-IsGiven
