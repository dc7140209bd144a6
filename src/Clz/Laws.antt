-- ===== src/Clz/Laws.antt =====
-- The counts of src/clz are those of the bits.
use mmgr.Prelude.{
  ℕ, ◌+◌, ◌-◌, ◌*◌, ◌/◌, ◌%◌, ◌^◌, ◌≤◌, ◌<◌, ◌≡◌, refl, arith, ◌∙◌, ap, sym, inl, inr,
}
use mmgr.Prelude.{false, ◌==◌, Bool-cases}
use native.Mathlib.Nat.{lt-div-mul-add, le_trans, div-eq_of_lt}
use native.Mathlib.Decide.{dec_lt}
use mmgr.Prelude.Bits.{two-pow-add}
use mmgr.Clz.{Search, halve, lead}

-- What the search keeps: the value is what is left, shifted down by the zeros counted, and what is
-- left is at least `low`.
abbrev IsAt : ℕ → ℕ → Search → Type 0
IsAt v low s = (s.remaining ≡ v * 2 ^ s.zeros) × (s.remaining < 2 ^ 64) × (low ≤ s.remaining)

shift-le : (l r q : ℕ) → l ≤ r → l * q ≤ r * q
shift-le l r q h = grind arith

shift-lt : (r p q : ℕ) → r < p → p * q ≡ 2 ^ 64 → r * q < 2 ^ 64
shift-lt r p q h e = elim (dec_lt 0 q) [
  | yes pos ↦ omega (arith, shift-le (r + 1) p q (omega arith))
  | no zero_q ↦ let z : q ≡ 0 = omega arith in absurd (omega (arith, ap (λ (t : ℕ). p * t) z))
]

shift-value : (v z h : ℕ) → v * 2 ^ z * 2 ^ h ≡ v * 2 ^ (z + h)
shift-value v z h = omega (arith, ap (λ (t : ℕ). v * t) (two-pow-add z h))

div-pos : (r p : ℕ) → (r / p == 0) ≡ false → p ≤ r
div-pos r p h = elim (dec_lt r p) [ yes l ↦ ground (arith, div-eq_of_lt l) | no n ↦ omega arith ]

halve-IsAt :
    (h low v : ℕ) (s : Search)
    → 0 < 2 ^ (64 - h)
    → 2 ^ (64 - h) * 2 ^ h ≡ 2 ^ 64
    → 2 ^ (64 - h) ≤ low * 2 ^ h
    → IsAt v low s
    → IsAt v (2 ^ (64 - h)) (halve h s)
unfolding halve
halve-IsAt h low v s pos full fits a = elim (Bool-cases (s.remaining / 2 ^ (64 - h) == 0)) [
  | inl e ↦
      let below : s.remaining < 2 ^ (64 - h) =
        ground (arith, lt-div-mul-add {a = s.remaining} {b = 2 ^ (64 - h)} pos) in
      let up : s.remaining * 2 ^ h < 2 ^ 64 =
        shift-lt s.remaining (2 ^ (64 - h)) (2 ^ h) below full in
      let stays : s.remaining * 2 ^ h % 2 ^ 64 ≡ s.remaining * 2 ^ h = omega arith in
      let value : s.remaining * 2 ^ h ≡ v * 2 ^ (s.zeros + h) =
        ap (λ t. t * 2 ^ h) a.0 ∙ shift-value v s.zeros h in
      rw (e, stays) (value, up, le_trans fits (shift-le low s.remaining (2 ^ h) a.2))
  | inr e ↦
      let above : 2 ^ (64 - h) ≤ s.remaining = div-pos s.remaining (2 ^ (64 - h)) e in
      let stays : s.remaining * 1 % 2 ^ 64 ≡ s.remaining = omega arith in
      let value : v * 2 ^ (s.zeros + 0) ≡ v * 2 ^ s.zeros = ap (λ z. v * 2 ^ z) (omega arith) in
      rw (e, stays) (a.0 ∙ sym value, a.1, above)
]

halve-zeros : (h : ℕ) (s : Search) → (halve h s).zeros ≤ s.zeros + h
unfolding halve
halve-zeros h s = ground arith

abbrev searched : ℕ → Search
searched v = halve 2 (halve 4 (halve 8 (halve 16 (halve 32 (record { remaining = v; zeros = 0 })))))

searched-zeros : (v : ℕ) → (searched v).zeros ≤ 62
searched-zeros v =
    let s0 : Search = record { remaining = v; zeros = 0 } in
    let s1 = halve 32 s0 in
    let s2 = halve 16 s1 in
    let s3 = halve 8 s2 in
    let s4 = halve 4 s3 in
    omega (
      arith,
      halve-zeros 32 s0,
      halve-zeros 16 s1,
      halve-zeros 8 s2,
      halve-zeros 4 s3,
      halve-zeros 2 s4,
    )

searched-IsAt : (v : ℕ) → 0 < v → v < 2 ^ 64 → IsAt v (2 ^ 62) (searched v)
searched-IsAt v pos small = halve-IsAt 2 (2 ^ 60) v _ (omega arith) refl (omega arith) (
    halve-IsAt 4 (2 ^ 56) v _ (omega arith) refl (omega arith) (
      halve-IsAt 8 (2 ^ 48) v _ (omega arith) refl (omega arith) (
        halve-IsAt 16 (2 ^ 32) v _ (omega arith) refl (omega arith) (
          halve-IsAt 32 1 v (record { remaining = v; zeros = 0 }) (omega arith) refl (omega arith)
            (omega arith, small, pos)))))

-- For a value of 64 bits that is not 0, the leading zeros counted are below 64, and a shift up by
-- them puts its highest set bit at the top of the word without a wrap.
pub lead_range :
    (v : ℕ)
    → 0 < v
    → v < 2 ^ 64
    → (2 ^ 63 ≤ v * 2 ^ lead v) × (v * 2 ^ lead v < 2 ^ 64) × (lead v < 64)
unfolding lead
lead_range v pos small =
    let a = searched-IsAt v pos small in
    let z = searched-zeros v in
    let s = searched v in
    elim (Bool-cases (s.remaining / 2 ^ 63 == 0)) [
      | inl e ↦
          let below : s.remaining < 2 ^ 63 = ground arith in
          let value : s.remaining * 2 ≡ v * 2 ^ (s.zeros + 1) =
            ap (λ t. t * 2) a.0 ∙ shift-value v s.zeros 1 in
          rw e (omega arith, omega arith, omega arith)
      | inr e ↦
          let above : 2 ^ 63 ≤ s.remaining = ground arith in
          let value : v * 2 ^ (s.zeros + 0) ≡ v * 2 ^ s.zeros = ap (λ z. v * 2 ^ z) (omega arith) in
          rw e (omega arith, omega arith, omega arith)
    ]

-- A value of 0 is counted as one of 1 is.
pub lead-zero : lead 0 ≡ lead 1
unfolding lead
lead-zero = refl
