-- ===== src/Ring/Init.antt =====
-- `mmgr_anular_init` of src/memoria_anularis: the ring that it makes.
use mmgr.Prelude.{ℕ, ◌+◌, ◌-◌, ◌%◌, ◌^◌, ◌<◌, ◌≡◌, ◌⊎◌, refl, arith, ◌∙◌}
use mmgr.Prelude.{◌==◌, true, some, Bool-cases, inl, inr}
use mmgr.Prelude.{[]}
use mmgr.Prelude.Bits.Power.{power_of_test}
use mmgr.Prelude.Store.{IsBytes}
use mmgr.Carcer.Word.{sub64}
use mmgr.Ring.{Ring, init, ring_pow2}
use mmgr.Ring.Queue.{IsRing, queue}

pow2_lem : (c : ℕ) → 0 < c → c < 2 ^ 64 → ring_pow2 c ≡ true → (k : ℕ) × (c ≡ 2 ^ k) × (k < 64)
unfolding ring_pow2 sub64
pow2_lem c more small e =
    let less : (c + 2 ^ 64 - 1) % 2 ^ 64 ≡ c - 1 = omega arith in
    let e' = rw less at e in power_of_test c more small (ground arith)

-- What `init` has found, and the fields that the queue stands on.
init-fields :
    (m : ℕ → ℕ) (buf capacity segment_count segment_bytes : ℕ) (s : Ring)
    → init m buf capacity segment_count segment_bytes ≡ some s
    → (0 < capacity)
      × (s.head ≡ 0)
      × (s.tail ≡ 0)
      × ((a : ℕ) → s.memory a ≡ m a)
      × (((s.capacity ≡ 1)) ⊎ ((s.capacity ≡ capacity) × (ring_pow2 capacity ≡ true)))
unfolding init
init-fields m buf capacity segment_count segment_bytes s e = (
  ground arith,
  ground arith,
  ground arith,
  λ a. ground arith,
  elim (Bool-cases (segment_bytes == 0)) [
    | inl b ↦ inr (ground arith, ground arith)
    | inr b ↦ inl (ground arith)
  ],
)

-- A ring that `init` makes, over words that fit, is a ring with nothing in it.
pub init-IsRing :
    (m : ℕ → ℕ) (buf capacity segment_count segment_bytes : ℕ) (s : Ring)
    → IsBytes m
    → capacity < 2 ^ 64
    → init m buf capacity segment_count segment_bytes ≡ some s
    → IsRing s × (queue s ≡ [])
init-IsRing m buf capacity segment_count segment_bytes s h small e =
    let (more, a, b, c, d) = init-fields m buf capacity segment_count segment_bytes s e in
    let f : IsBytes s.memory = λ x. let g = h x in let i = c x in omega arith in
    let power : (k : ℕ) × (s.capacity ≡ 2 ^ k) × (k < 64) = elim d [
      | inl one ↦ (0, one, omega arith)
      | inr (same, test) ↦ let (k, p, l) = pow2_lem capacity more small test in (k, same ∙ p, l)
    ] in
    let room : 0 < s.capacity = elim d [ inl one ↦ omega arith | inr (same, test) ↦ omega arith ] in
    (
      record {
        bits = power.0;
        small = power.2;
        power = power.1;
        head_in = omega arith;
        tail_in = omega arith;
        bytes = f;
      },
      rw (a, b) refl,
    )
