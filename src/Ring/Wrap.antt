-- ===== src/Ring/Wrap.antt =====
-- MMGR_RING_WRAP of src/memoria_anularis, at a capacity that is a power of 2.
use mmgr.Prelude.{
  ℕ, zero, suc, ◌+◌, ◌-◌, ◌*◌, ◌/◌, ◌%◌, ◌^◌, ◌≤◌, ◌<◌, ◌≡◌, ◌≢◌, arith, ap, ◌∙◌, sym,
  if◌then◌else◌, ltb,
}
use native.Mathlib.Nat.{
  mod-eq_of_lt, mod-eq-sub-mod, mul-add-mod_self_left, one-le-pow, pow-le-pow_right, mod-lt,
  mod-add-mod, mul_assoc,
}
use native.Mathlib.Decide.{dec_lt}
use mmgr.Prelude.Bits.{bit_and_mask, two-pow-add}
use mmgr.Carcer.Word.{add64, sub64}
use mmgr.Ring.{ring_wrap, ring_used, ring_free}

-- A place once round, at most.
abbrev pub around : ℕ → ℕ → ℕ
around capacity x = if ltb x capacity then x else x - capacity

-- From one place to another, going round.
abbrev pub distance : ℕ → ℕ → ℕ → ℕ
distance capacity from to = if ltb to from then to + capacity - from else to - from

mod-around : (c x : ℕ) → x < c + c → x % c ≡ around c x
mod-around c x h = elim (dec_lt x c) [
  | yes l ↦ ground (arith, mod-eq_of_lt l)
  | no n ↦
      let e : x % c ≡ (x - c) % c = mod-eq-sub-mod (omega arith) in
      let f : (x - c) % c ≡ x - c = mod-eq_of_lt (omega arith) in ground arith
]

one_less : (c q : ℕ) → 1 ≤ q → c * q ≡ c * (q - 1) + c
one_less c zero h = absurd (omega arith)
one_less c (suc q) h = let e : suc q - 1 ≡ q = omega arith in rw e (omega arith)

-- Two places nearer than the capacity are two places.
pub mod_apart : (c x d : ℕ) → 0 < d → d < c → (x + d) % c ≢ x % c
mod_apart c x d apart near e =
    let small : x % c < c = mod-lt x (omega arith) in
    let a : (x + d) % c ≡ (x % c + d) % c = sym (mod-add-mod x c d) in
    let b : (x % c + d) % c ≡ around c (x % c + d) = mod-around c (x % c + d) (omega arith) in
    ground arith

module _ (k : ℕ) (small : k < 64) where
  whole : 2 ^ 64 ≡ 2 ^ k * 2 ^ (64 - k)
  whole = let e : 64 ≡ k + (64 - k) = omega arith in ap (λ n. 2 ^ n) e ∙ two-pow-add k (64 - k)

  pub mod_whole : (x : ℕ) → x % 2 ^ 64 % 2 ^ k ≡ x % 2 ^ k
  mod_whole x =
      let q = 2 ^ (64 - k) * (x / 2 ^ 64) in
      let a : 2 ^ 64 * (x / 2 ^ 64) ≡ 2 ^ k * q =
        ap (λ w. w * (x / 2 ^ 64)) whole ∙ mul_assoc (2 ^ k) (2 ^ (64 - k)) (x / 2 ^ 64) in
      let b : x ≡ 2 ^ k * q + x % 2 ^ 64 = omega arith in
      sym (ap (λ y. y % 2 ^ k) b ∙ mul-add-mod_self_left (2 ^ k) q (x % 2 ^ 64))

  pub capacity_small : 2 ^ k ≤ 2 ^ 63
  capacity_small = pow-le-pow_right {n = 2} (omega arith) {i = k} {j = 63} (omega arith)

  pub capacity_some : 1 ≤ 2 ^ k
  capacity_some = one-le-pow k 2 (omega arith)

  pub ring_wrap-mod : (x : ℕ) → ring_wrap x (2 ^ k) ≡ x % 2 ^ k
  unfolding ring_wrap sub64
  ring_wrap-mod x =
      let most = capacity_small in
      let some_place = capacity_some in
      let e : (2 ^ k + 2 ^ 64 - 1) % 2 ^ 64 ≡ 2 ^ k - 1 = omega arith in rw e (bit_and_mask k x)

  pub ring_wrap-add :
      (a b : ℕ) → a < 2 ^ k → b ≤ 2 ^ k → ring_wrap (add64 a b) (2 ^ k) ≡ around (2 ^ k) (a + b)
  unfolding add64
  ring_wrap-add a b ha hb =
      let most = capacity_small in
      let e : (a + b) % 2 ^ 64 ≡ a + b = omega arith in
      rw e (ring_wrap-mod (a + b) ∙ mod-around (2 ^ k) (a + b) (omega arith))

  pub ring_used_lem :
      (head tail : ℕ)
      → head < 2 ^ k
      → tail < 2 ^ k
      → ring_used head tail (2 ^ k) ≡ distance (2 ^ k) tail head
  unfolding ring_used sub64
  ring_used_lem head tail hh ht =
      let most = capacity_small in
      elim (dec_lt head tail) [
        | yes l ↦
            let e : (head + 2 ^ 64 - tail) % 2 ^ 64 ≡ 2 ^ 64 - (tail - head) = omega arith in
            let q = 2 ^ (64 - k) in
            let some_turn = one-le-pow (64 - k) 2 (omega arith) in
            let p : 2 ^ k * q ≡ 2 ^ k * (q - 1) + 2 ^ k = one_less (2 ^ k) q some_turn in
            let f : 2 ^ 64 - (tail - head) ≡ 2 ^ k * (q - 1) + (2 ^ k - (tail - head)) =
              omega (arith, whole, p) in
            let g : (2 ^ k * (q - 1) + (2 ^ k - (tail - head))) % 2 ^ k
                ≡ (2 ^ k - (tail - head)) % 2 ^ k =
              mul-add-mod_self_left (2 ^ k) (q - 1) (2 ^ k - (tail - head)) in
            let i : (2 ^ k - (tail - head)) % 2 ^ k ≡ 2 ^ k - (tail - head) =
              mod-eq_of_lt (omega arith) in
            rw e (rw f (ring_wrap-mod _ ∙ g ∙ i ∙ ground arith))
        | no n ↦
            let e : (head + 2 ^ 64 - tail) % 2 ^ 64 ≡ head - tail = omega arith in
            rw e (
              ring_wrap-mod (head - tail)
              ∙ mod-around (2 ^ k) (head - tail) (omega arith)
              ∙ ground arith)
      ]

  pub ring_free_lem :
      (head tail : ℕ)
      → head < 2 ^ k
      → tail < 2 ^ k
      → ring_free head tail (2 ^ k) ≡ 2 ^ k - 1 - distance (2 ^ k) tail head
  unfolding ring_free sub64
  ring_free_lem head tail hh ht =
      let most = capacity_small in
      let some_place = capacity_some in
      let used = ring_used_lem head tail hh ht in rw used (ground arith)
