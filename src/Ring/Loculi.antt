-- ===== src/Ring/Loculi.antt =====
-- The loculi of src/memoria_anularis: the holder of one, and the choice of a free one.
use mmgr.Prelude.{ℕ, ◌-◌, ◌%◌, ◌^◌, ◌≤◌, ◌<◌, ◌≡◌, ◌≢◌, refl, ap, ◌∙◌, sym, arith, bit_and, bit_or}
use Prim.Native.Nat.{min}
use mathlib.Core.Path.{ap₂}
use mmgr.Prelude.{
  Bool, true, false, if◌then◌else◌, ltb, leb, ◌==◌, ◌&&◌, ◌||◌, some, Bool-cases, inl, inr,
}
use native.Mathlib.Nat.{pow-le-pow_right, zero-div}
use mmgr.Prelude.Below.{all_below, all_below_lem}
use mmgr.Prelude.Bits.Digit.{
  digit, digit-bit_and, digit-bit_or, digit-not, digit-power, bit_and-power, bit_and-le,
  digit-power_other,
}
use mmgr.Carcer.Word.{not64, add64, sub64}
use mmgr.Ring.{
  Ring, RingSpan, loculi, loculus_bit, loculus_all, loculus_ready, ring_trail, loculus_next,
}
use mmgr.Ring.{loculus_hold, loculus_drop, loculus_mark, loculus_keepout}

bit_lem : (i : ℕ) → i < loculi → loculus_bit i ≡ 2 ^ i
unfolding loculus_bit
bit_lem i h = ground arith

power_small : (i : ℕ) → i < loculi → (1 ≤ 2 ^ i) × (2 ^ i < 2 ^ 64)
power_small i h =
    let a = pow-le-pow_right {n = 2} (omega arith) {i = 0} {j = i} (omega arith) in
    let b = pow-le-pow_right {n = 2} (omega arith) {i = i} {j = 8} (omega arith) in
    (omega arith, omega arith)

-- A loculus is held where its digit of the word is set.
held : (i w : ℕ) → i < loculi → (bit_and w (2 ^ i) == 0) ≡ (digit i w == 0)
held i w h =
    let (a, b) = power_small i h in
    let c = bit_and-power i w in
    elim (Bool-cases (digit i w == 0)) [
      | inl e ↦
          let z : digit i w ≡ 0 = ground arith in
          let d : bit_and w (2 ^ i) ≡ 0 = c ∙ rw z (omega arith) in ground arith
      | inr e ↦
          let z : digit i w ≡ 1 = ground arith in
          let d : bit_and w (2 ^ i) ≡ 2 ^ i = c ∙ rw z (omega arith) in ground arith
    ]

-- What `loculus_hold` tells, and the word after it.
hold_lem :
    (s : Ring) (i src bytes : ℕ)
    → i < loculi
    → ((loculus_hold s i src bytes).1 ≡ (digit i s.pinned == 0))
      × ((loculus_hold s i src bytes).0.pinned ≡ bit_or s.pinned (2 ^ i))
      × ((loculus_hold s i src bytes).0.gratis ≡ s.gratis)
unfolding loculus_hold
hold_lem s i src bytes h =
    let bit = bit_lem i h in
    let (a, b) = power_small i h in
    let d = held i s.pinned h in
    let z : (2 ^ i == 0) ≡ false = ground arith in
    elim (Bool-cases (bit_and s.pinned (2 ^ i) == 0)) [
      | inl e ↦ rw (bit, z, e) (sym (sym d ∙ e), refl, refl)
      | inr e ↦ rw (bit, z, e) (sym (sym d ∙ e), refl, refl)
    ]

-- The span of the one that holds a loculus.
abbrev pub span_of : ℕ → ℕ → RingSpan
span_of src bytes = record { buf = src; bytes = bytes; read_offset = 0 }

keepout_lem :
    (s : Ring) (i src bytes : ℕ)
    → i < loculi
    → let (s', granted) = loculus_hold s i src bytes in
      loculus_keepout s' i ≡ (if granted then some (span_of src bytes) else loculus_keepout s i)
unfolding loculus_hold loculus_keepout
keepout_lem s i src bytes h =
    let bit = bit_lem i h in
    let (a, b) = power_small i h in
    let z : (2 ^ i == 0) ≡ false = ground arith in
    let u : leb 8 i ≡ false = ground arith in
    let same : (i == i) ≡ true = ground arith in
    elim (Bool-cases (bit_and s.pinned (2 ^ i) == 0)) [
      | inl e ↦ rw (bit, z, e, u, same) refl
      | inr e ↦ rw (bit, z, e, u) refl
    ]

-- One of the 8 loculi is held once: the call is granted where the loculus is free, and then keeps the
-- holder's span, and else leaves the span; after it another call is refused.
pub loculus_hold-once :
    (s : Ring) (i src bytes src' bytes' : ℕ)
    → i < loculi
    → let (s', granted) = loculus_hold s i src bytes in
      (granted ≡ (digit i s.pinned == 0))
      × (loculus_keepout s' i ≡ (if granted then some (span_of src bytes) else loculus_keepout s i))
      × ((loculus_hold s' i src' bytes').1 ≡ false)
loculus_hold-once s i src bytes src' bytes' h =
    let (a, b, c) = hold_lem s i src bytes h in
    let s' = (loculus_hold s i src bytes).0 in
    let (d, e, f) = hold_lem s' i src' bytes' h in
    let set : digit i s'.pinned ≡ 1 =
      rw b (digit-bit_or i s.pinned (2 ^ i) ∙ omega (arith, digit-power i)) in
    (a, keepout_lem s i src bytes h, d ∙ rw set refl)

drop_digit :
    (s : Ring) (i j : ℕ)
    → i < loculi
    → j < loculi
    → digit j (loculus_drop s i).pinned ≡ min (digit j s.pinned) (1 - digit j (2 ^ i))
unfolding loculus_drop not64
drop_digit s i j h l =
    let bit = bit_lem i h in
    let (a, b) = power_small i h in
    rw bit (
      digit-bit_and j s.pinned (2 ^ 64 - 1 - 2 ^ i)
      ∙ ap (min (digit j s.pinned)) (digit-not j 64 (2 ^ i) (omega arith) b))

all_digit : (j : ℕ) → j < loculi → digit j loculus_all ≡ 1
unfolding loculus_all
all_digit j h = digit-not j 8 0 h (omega arith) ∙ ap (λ x. 1 - x % 2) (zero-div (2 ^ j))

ready_digit :
    (s : Ring) (j : ℕ)
    → j < loculi
    → s.pinned < 2 ^ 64
    → digit j (loculus_ready s) ≡ min (digit j s.gratis) (1 - digit j s.pinned)
unfolding loculus_ready not64
ready_digit s j l fits =
    let a = digit-bit_and j (bit_and s.gratis (2 ^ 64 - 1 - s.pinned)) loculus_all in
    let b = digit-bit_and j s.gratis (2 ^ 64 - 1 - s.pinned) in
    let c = digit-not j 64 s.pinned (omega arith) fits in omega (arith, all_digit j l)

drop_fields :
    (s : Ring) (i : ℕ)
    → i < loculi
    → let s' = loculus_drop (loculus_mark s i) i in
      (s'.gratis ≡ bit_or s.gratis (2 ^ i))
      × (s'.pinned ≤ s.pinned)
      × ((loculus_mark s i).pinned ≡ s.pinned)
unfolding loculus_drop loculus_mark
drop_fields s i h = let bit = bit_lem i h in rw bit (refl, bit_and-le s.pinned _, refl)

-- One of the 8 loculi that its holder marks as free and drops is among those ready, and may be held
-- again; another one is ready as before. The word of those that are held fits in 64 bits.
pub loculus_drop-ready :
    (s : Ring) (i j src bytes : ℕ)
    → i < loculi
    → j < loculi
    → j ≢ i
    → s.pinned < 2 ^ 64
    → let s' = loculus_drop (loculus_mark s i) i in
      (digit i (loculus_ready s') ≡ 1)
      × (digit j (loculus_ready s') ≡ digit j (loculus_ready s))
      × ((loculus_hold s' i src bytes).1 ≡ true)
loculus_drop-ready s i j src bytes h l apart fits =
    let m = loculus_mark s i in
    let s' = loculus_drop m i in
    let (marked, fewer, same) = drop_fields s i h in
    let small : s'.pinned < 2 ^ 64 = omega (arith, fewer) in
    let one = digit-power i in
    let other = digit-power_other j i apart in
    let gratis_i : digit i s'.gratis ≡ 1 =
      ap (digit i) marked ∙ digit-bit_or i s.gratis (2 ^ i) ∙ omega (arith, one) in
    let gratis_j : digit j s'.gratis ≡ digit j s.gratis =
      ap (digit j) marked ∙ digit-bit_or j s.gratis (2 ^ i) ∙ omega (arith, other) in
    let pinned_i : digit i s'.pinned ≡ 0 = drop_digit m i i h h ∙ omega (arith, one) in
    let pinned_j : digit j s'.pinned ≡ digit j s.pinned =
      drop_digit m i j h l ∙ omega (arith, other, ap (digit j) same) in
    (
      ready_digit s' i h small ∙ rw (gratis_i, pinned_i) refl,
      ready_digit s' j l small
          ∙ ap₂ (λ x y. min x (1 - y)) gratis_j pinned_j
          ∙ sym (ready_digit s j l fits),
      (hold_lem s' i src bytes h).0 ∙ rw pinned_i refl,
    )

-- The least digit of a mask that is set.
unfoldable is_lowest : ℕ → Bool
unfolding ring_trail add64 sub64
is_lowest mask =
    let i = ring_trail mask in
    mask == 0 || ltb i loculi && (digit i mask == 1) && (mask % 2 ^ i == 0)

masks : all_below 256 is_lowest ≡ true
unfolding is_lowest
masks = refl

-- Of a mask of loculi that is not empty, the loculus chosen is the lowest.
pub loculus_next-lowest :
    (mask : ℕ)
    → 0 < mask
    → mask < 2 ^ loculi
    → let i = ring_trail mask in
      (loculus_next mask ≡ some i) × (i < loculi) × (digit i mask ≡ 1) × (mask % 2 ^ i ≡ 0)
unfolding loculus_next is_lowest
loculus_next-lowest mask more fits =
    let good = all_below_lem 256 is_lowest masks mask fits in
    let z : (mask == 0) ≡ false = ground arith in
    rw z (refl, ground arith, ground arith, ground arith)
