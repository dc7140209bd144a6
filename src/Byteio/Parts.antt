-- ===== src/Byteio/Parts.antt =====
-- The parts of 4, 2 and 1 bytes of src/octetus_introitus_exitus are one number in its bytes.
use mmgr.Prelude.{
  ℕ, zero, suc, ◌+◌, ◌*◌, ◌/◌, ◌%◌, ◌^◌, ◌≤◌, ◌<◌, ◌≡◌, refl, arith, ap, ◌∙◌, sym, bit_or,
}
use mmgr.Prelude.Bits.{bit_or_fields_swap, zero-bit_or, two-pow-add}
use native.Mathlib.Nat.{mod-eq_of_lt, one-le-pow, pow-le-pow_right, mul-lt-mul_of_pos_right}
use mathlib.Core.Path.{ap₂}
use mmgr.Prelude.Store.{load, store, IsBytes, store-mod, store-add, load-add, load-lt}
use mmgr.Proximus.{load16, load32, load64, put16, put32, put64}
use mmgr.Byteio.{put_four, put_two, put_one, put_parts, take_four, take_two, take_one, take_parts}

pub put_parts-store :
    (bytes : ℕ) (m : ℕ → ℕ) (a v : ℕ)
    → 0 < bytes
    → bytes ≤ 8
    → v < 2 ^ 64
    → put_parts bytes (record { memory = m; at = a; reversed = v }) ≡ store bytes m a v
unfolding put_parts put_one put_two put_four put16 put32 put64 store
put_parts-store zero m a v h l fits = absurd (omega arith)
put_parts-store (suc zero) m a v h l fits = refl
put_parts-store (suc (suc zero)) m a v h l fits = store-mod 2 m a v
put_parts-store (suc (suc (suc zero))) m a v h l fits =
    ap (λ f. store 1 f (a + 2) (v / 2 ^ 16)) (store-mod 2 m a v) ∙ store-add 2 1 m a v
put_parts-store (suc (suc (suc (suc zero)))) m a v h l fits = store-mod 4 m a v
put_parts-store (suc (suc (suc (suc (suc zero))))) m a v h l fits =
    ap (λ f. store 1 f (a + 4) (v / 2 ^ 32)) (store-mod 4 m a v) ∙ store-add 4 1 m a v
put_parts-store (suc (suc (suc (suc (suc (suc zero)))))) m a v h l fits =
    store-mod 2 _ (a + 4) (v / 2 ^ 32)
    ∙ ap (λ f. store 2 f (a + 4) (v / 2 ^ 32)) (store-mod 4 m a v)
    ∙ store-add 4 2 m a v
put_parts-store (suc (suc (suc (suc (suc (suc (suc zero))))))) m a v h l fits =
    ap (λ f. store 1 f (a + 4 + 2) (v / 2 ^ 32 / 2 ^ 16))
      (store-mod 2 _ (a + 4) (v / 2 ^ 32)
        ∙ ap (λ f. store 2 f (a + 4) (v / 2 ^ 32)) (store-mod 4 m a v))
    ∙ store-add 2 1 (store 4 m a v) (a + 4) (v / 2 ^ 32)
    ∙ store-add 4 3 m a v
put_parts-store (suc (suc (suc (suc (suc (suc (suc (suc zero)))))))) m a v h l fits = refl
put_parts-store (suc (suc (suc (suc (suc (suc (suc (suc (suc n))))))))) m a v h l fits =
    absurd (omega arith)

-- What is gathered, and the next part above it.
above :
    (k n : ℕ) (m : ℕ → ℕ) (a : ℕ)
    → IsBytes m
    → k + n ≤ 8
    → bit_or (load k m a) (load n m (a + k) * 2 ^ (8 * k) % 2 ^ 64) ≡ load (k + n) m a
above k n m a h most =
    let upper = load n m (a + k) in
    let p = 2 ^ (8 * k) in
    let e : 8 * n + 8 * k ≡ 8 * (k + n) = omega arith in
    let wide : 2 ^ (8 * n) * p ≡ 2 ^ (8 * (k + n)) =
      sym (two-pow-add (8 * n) (8 * k)) ∙ ap (λ x. 2 ^ x) e in
    let word : 2 ^ (8 * (k + n)) ≤ 2 ^ 64 =
      pow-le-pow_right {n = 2} (omega arith) {i = 8 * (k + n)} {j = 64} (omega arith) in
    let some_place : 0 < p = one-le-pow (8 * k) 2 (omega arith) in
    let room : upper * p < 2 ^ (8 * n) * p =
      mul-lt-mul_of_pos_right (load-lt n m (a + k) h) some_place in
    let fits : upper * p % 2 ^ 64 ≡ upper * p = mod-eq_of_lt (omega arith) in
    rw fits (
      bit_or_fields_swap (8 * k) upper (load k m a) (load-lt k m a h)
      ∙ rw (load-add k n m a) (omega arith))

-- The first part, and a part of one byte.
start :
    (n : ℕ) (m : ℕ → ℕ) (a : ℕ)
    → IsBytes m
    → n ≤ 8
    → bit_or 0 (load n m a * 1 % 2 ^ 64) ≡ load n m a
start n m a h most =
    let small = load-lt n m a h in
    let word : 2 ^ (8 * n) ≤ 2 ^ 64 =
      pow-le-pow_right {n = 2} (omega arith) {i = 8 * n} {j = 64} (omega arith) in
    rw zero-bit_or (omega arith)

single : (m : ℕ → ℕ) (a : ℕ) → m a ≡ load 1 m a
unfolding load
single m a = omega arith

abbrev joined : ℕ → ℕ → ℕ → ℕ
joined k x y = bit_or x (y * 2 ^ (8 * k) % 2 ^ 64)

pub take_parts-load :
    (bytes : ℕ) (m : ℕ → ℕ) (a : ℕ)
    → 0 < bytes
    → bytes ≤ 8
    → IsBytes m
    → take_parts m bytes a ≡ load bytes m a
unfolding take_parts take_one take_two take_four load16 load32 load64
take_parts-load zero m a h l b = absurd (omega arith)
take_parts-load (suc zero) m a h l b = ap (joined 0 0) (single m a) ∙ start 1 m a b l
take_parts-load (suc (suc zero)) m a h l b = start 2 m a b l
take_parts-load (suc (suc (suc zero))) m a h l b =
    ap₂ (joined 2) (start 2 m a b (omega arith)) (single m (a + 2)) ∙ above 2 1 m a b l
take_parts-load (suc (suc (suc (suc zero)))) m a h l b = start 4 m a b l
take_parts-load (suc (suc (suc (suc (suc zero))))) m a h l b =
    ap₂ (joined 4) (start 4 m a b (omega arith)) (single m (a + 4)) ∙ above 4 1 m a b l
take_parts-load (suc (suc (suc (suc (suc (suc zero)))))) m a h l b =
    ap (λ x. joined 4 x (load 2 m (a + 4))) (start 4 m a b (omega arith)) ∙ above 4 2 m a b l
take_parts-load (suc (suc (suc (suc (suc (suc (suc zero))))))) m a h l b =
    let e : a + 4 + 2 ≡ a + 6 = omega arith in
    ap₂ (joined 6)
      (ap (λ x. joined 4 x (load 2 m (a + 4))) (start 4 m a b (omega arith))
        ∙ above 4 2 m a b (omega arith))
      (single m (a + 4 + 2) ∙ ap (load 1 m) e)
    ∙ above 6 1 m a b l
take_parts-load (suc (suc (suc (suc (suc (suc (suc (suc zero)))))))) m a h l b = refl
take_parts-load (suc (suc (suc (suc (suc (suc (suc (suc (suc n))))))))) m a h l b =
    absurd (omega arith)
