-- ===== src/Transformo/Normal.antt =====
-- The normal form of src/transformo keeps the number and puts its highest bit at the top.
use mmgr.Prelude.{ℕ, ◌+◌, ◌-◌, ◌*◌, ◌/◌, ◌%◌, ◌^◌, ◌≤◌, ◌<◌, ◌≡◌, refl, arith, ap, ◌∙◌, sym, bit_or}
use mmgr.Prelude.{false, ◌==◌, Bool-cases, inl, inr}
use native.Mathlib.Nat.{mul-div-mul_right, one-le-pow, div-lt_iff_lt-mul, mul_comm}
use mmgr.Prelude.Int.{ℤ, ◌-ℤ◌}
use mmgr.Prelude.Bits.{bit_or_fields, two-pow-add}
use mmgr.Carcer.Word.{shl64}
use mmgr.Clz.{lead}
use mmgr.Clz.Laws.{lead_range}
use mmgr.Transformo.{Scaled, norm}

take_away : (a b c : ℕ) → ℤ.pos a -ℤ ℤ.pos b -ℤ ℤ.pos c ≡ ℤ.pos a -ℤ ℤ.pos (b + c)
take_away a b c = ground arith

more_away : (a b c : ℕ) → ℤ.negsuc a -ℤ ℤ.pos b -ℤ ℤ.pos c ≡ ℤ.negsuc a -ℤ ℤ.pos (b + c)
more_away a b c = ground arith

away : (x : ℤ) (b c : ℕ) → x -ℤ ℤ.pos b -ℤ ℤ.pos c ≡ x -ℤ ℤ.pos (b + c)
away (ℤ.pos a) b c = take_away a b c
away (ℤ.negsuc a) b c = more_away a b c

no_more : (x : ℤ) → x ≡ x -ℤ ℤ.pos 0
no_more (ℤ.pos a) = ground arith
no_more (ℤ.negsuc a) = ground arith

-- The bits that a shift up of the low word by `z` moves into the high one.
moved_up :
    (lo z : ℕ)
    → lo < 2 ^ 64
    → z ≤ 64
    → (lo * 2 ^ z ≡ lo / 2 ^ (64 - z) * 2 ^ 64 + lo * 2 ^ z % 2 ^ 64) × (lo / 2 ^ (64 - z) < 2 ^ z)
moved_up lo z small h =
    let whole : 2 ^ 64 ≡ 2 ^ (64 - z) * 2 ^ z =
      ap (λ k. 2 ^ k) {x = 64} {y = 64 - z + z} (omega arith) ∙ two-pow-add (64 - z) z in
    let pos = one-le-pow z 2 (omega arith) in
    let same : lo * 2 ^ z / 2 ^ 64 ≡ lo / 2 ^ (64 - z) =
      ap (λ p. lo * 2 ^ z / p) whole ∙ mul-div-mul_right lo (2 ^ (64 - z)) pos in
    let few : lo < 2 ^ z * 2 ^ (64 - z) = omega (arith, mul_comm (2 ^ z) (2 ^ (64 - z))) in
    (
      omega arith,
      (div-lt_iff_lt-mul {k = 2 ^ (64 - z)} {x = lo} {y = 2 ^ z}
            (one-le-pow (64 - z) 2 (omega arith))).1
          few,
    )

-- A number with a high word that is not 0, shifted up by that word's leading zeros.
abbrev shifted : ℕ → ℕ → ℕ × ℕ
shifted hi lo = let z = lead hi in (bit_or (shl64 hi z) (lo / 2 ^ (64 - z)), shl64 lo z)

spread_out : (hi lo p : ℕ) → (hi * 2 ^ 64 + lo) * p ≡ hi * p * 2 ^ 64 + lo * p
spread_out hi lo p = grind arith

shifted_lem :
    (hi lo : ℕ)
    → 0 < hi
    → hi < 2 ^ 64
    → lo < 2 ^ 64
    → let z = lead hi in
      ((shifted hi lo).0 * 2 ^ 64 + (shifted hi lo).1 ≡ (hi * 2 ^ 64 + lo) * 2 ^ z)
      × (2 ^ 63 ≤ (shifted hi lo).0)
unfolding shl64
shifted_lem hi lo pos hh hl =
    let z = lead hi in
    let r = lead_range hi pos hh in
    let stays : hi * 2 ^ z % 2 ^ 64 ≡ hi * 2 ^ z = omega (arith, r.1) in
    let up = moved_up lo z hl (omega (arith, r.2)) in
    let join = bit_or_fields z hi (lo / 2 ^ (64 - z)) up.1 in
    let all = spread_out hi lo (2 ^ z) in
    let low = up.0 in let top = r.0 in rw (stays, join) (omega arith, omega arith)

top_set : (v : ℕ) → 0 < v → v < 2 ^ 64 → lead v ≡ 0 → 2 ^ 63 ≤ v
top_set v pos small e =
    let r = lead_range v pos small in
    let one : v * 2 ^ lead v ≡ v * 1 = ap (λ k. v * 2 ^ k) e in omega (arith, r.0)

lifted : (hi lo z : ℕ) → hi ≡ 0 → (lo * 2 ^ 64 + 0) * 2 ^ z ≡ (hi * 2 ^ 64 + lo) * 2 ^ (64 + z)
lifted hi lo z e =
    let a : (lo * 2 ^ 64 + 0) * 2 ^ z ≡ lo * (2 ^ 64 * 2 ^ z) = grind arith in
    let b : hi * 2 ^ 64 + lo ≡ lo = omega arith in
    a ∙ ap (λ p. lo * p) (sym (two-pow-add 64 z)) ∙ ap (λ x. x * 2 ^ (64 + z)) (sym b)

-- A number of 128 bits that is not 0: its normal form is the number shifted up by some bits, as many as
-- the power of two goes down by, with the highest bit of its high word set.
pub norm-normal :
    (s : Scaled)
    → s.hi < 2 ^ 64
    → s.lo < 2 ^ 64
    → 0 < s.hi * 2 ^ 64 + s.lo
    → (k : ℕ) × ((norm s).hi * 2 ^ 64 + (norm s).lo ≡ (s.hi * 2 ^ 64 + s.lo) * 2 ^ k)
      × (2 ^ 63 ≤ (norm s).hi)
      × ((norm s).fe2 ≡ s.fe2 -ℤ ℤ.pos k)
unfolding norm
norm-normal s hh hl pos = elim (Bool-cases (s.hi == 0)) [
  | inl t ↦
      let hi0 : s.hi ≡ 0 = ground arith in
      let some_low : (s.lo == 0) ≡ false = ground arith in
      let z = lead s.lo in
      let g = shifted_lem s.lo 0 (omega arith) hl (omega arith) in
      rw (t, some_low)
        (elim (Bool-cases (z == 0)) [
          | inl u ↦
              let zz : z ≡ 0 = ground arith in
              rw u (64, omega arith, top_set s.lo (omega arith) hl zz, refl)
          | inr u ↦ rw u (64 + z, g.0 ∙ lifted s.hi s.lo z hi0, g.1, away s.fe2 64 z)
        ])
  | inr t ↦
      let z = lead s.hi in
      let g = shifted_lem s.hi s.lo (ground arith) hh hl in
      rw t (elim (Bool-cases (z == 0)) [
        | inl u ↦
            let zz : z ≡ 0 = ground arith in
            rw u (0, omega arith, top_set s.hi (ground arith) hh zz, no_more s.fe2)
        | inr u ↦ rw u (z, g.0, g.1, refl)
      ])
]
