-- ===== src/Endian/Trips.antt =====
-- The writes and reads of src/endian undo each other, and read what the order of the bytes says.
use mmgr.Prelude.{
  ℕ, zero, suc, ◌+◌, ◌*◌, ◌/◌, ◌%◌, ◌^◌, ◌≤◌, ◌<◌, ◌≡◌, refl, ◌⊎◌, inl, inr, arith, ap, ◌∙◌,
}
use mathlib.Core.Path.{subst, sym}
use native.Mathlib.Nat.{mod-eq_of_lt, pow-le-pow_right}
use mmgr.Prelude.Store.{load, IsBytes, store-IsBytes, load-store, load-lt}
use mmgr.Proximus.{load16, load32, load64, put16, put32, put64}
use mmgr.Endian.{endian_put, endian_get, rev, wr_le, wr_be, rd_le, rd_be}
use mmgr.Endian.Reverse.{reversed, rev-reversed}

-- The enumerators of `mmgr_endian_width`.
abbrev pub IsWidth : ℕ → Type 0
IsWidth w = (w ≡ 2) ⊎ (w ≡ 4) ⊎ (w ≡ 8)

-- The number whose bytes stand from an address on, the highest first.
unfoldable pub big : ℕ → (ℕ → ℕ) → ℕ → ℕ
big zero m a = 0
big (suc n) m a = m a * 256 ^ n + big n m (a + 1)

endian_get-load : (m : ℕ → ℕ) (a width : ℕ) → IsWidth width → endian_get m a width ≡ load width m a
unfolding endian_get load16 load32 load64
endian_get-load m a width (inl e) = subst (λ w. endian_get m a w ≡ load w m a) (sym e) refl
endian_get-load m a width (inr (inl e)) = subst (λ w. endian_get m a w ≡ load w m a) (sym e) refl
endian_get-load m a width (inr (inr e)) = subst (λ w. endian_get m a w ≡ load w m a) (sym e) refl

get-put :
    (m : ℕ → ℕ) (a v width : ℕ)
    → IsWidth width
    → endian_get (endian_put m a v width) a width ≡ v % 2 ^ (8 * width)
unfolding endian_get endian_put load16 load32 load64 put16 put32 put64
get-put m a v width (inl e) =
    subst (λ w. endian_get (endian_put m a v w) a w ≡ v % 2 ^ (8 * w)) (sym e)
      (load-store 2 m a (v % 2 ^ 16) ∙ omega arith)
get-put m a v width (inr (inl e)) =
    subst (λ w. endian_get (endian_put m a v w) a w ≡ v % 2 ^ (8 * w)) (sym e)
      (load-store 4 m a (v % 2 ^ 32) ∙ omega arith)
get-put m a v width (inr (inr e)) =
    subst (λ w. endian_get (endian_put m a v w) a w ≡ v % 2 ^ (8 * w)) (sym e) (load-store 8 m a v)

-- A number of 64 bits written and read back in little-endian order, at a width of 2, 4 or 8 bytes, is
-- what of it fits the width.
pub rd_le-wr_le :
    (m : ℕ → ℕ) (a v width : ℕ)
    → IsWidth width
    → rd_le (wr_le m a v width).0 a width ≡ v % 2 ^ (8 * width)
unfolding rd_le wr_le
rd_le-wr_le m a v width w = get-put m a v width w

-- Two reversals leave the lowest bytes.
pub reversed_twice : (n v : ℕ) → 0 < n → n ≤ 8 → reversed n (reversed n v) ≡ v % 2 ^ (8 * n)
unfolding reversed
reversed_twice zero v some_bytes most = absurd (omega arith)
reversed_twice (suc zero) v some_bytes most = omega arith
reversed_twice (suc (suc zero)) v some_bytes most = omega arith
reversed_twice (suc (suc (suc zero))) v some_bytes most = omega arith
reversed_twice (suc (suc (suc (suc zero)))) v some_bytes most = omega arith
reversed_twice (suc (suc (suc (suc (suc zero))))) v some_bytes most = omega arith
reversed_twice (suc (suc (suc (suc (suc (suc zero)))))) v some_bytes most = omega arith
reversed_twice (suc (suc (suc (suc (suc (suc (suc zero))))))) v some_bytes most = omega arith
reversed_twice (suc (suc (suc (suc (suc (suc (suc (suc zero)))))))) v some_bytes most = omega arith
reversed_twice (suc (suc (suc (suc (suc (suc (suc (suc (suc n))))))))) v some_bytes most =
    absurd (omega arith)

pub reversed-lt : (n v : ℕ) → n ≤ 8 → reversed n v < 2 ^ (8 * n)
unfolding reversed
reversed-lt zero v most = omega arith
reversed-lt (suc zero) v most = omega arith
reversed-lt (suc (suc zero)) v most = omega arith
reversed-lt (suc (suc (suc zero))) v most = omega arith
reversed-lt (suc (suc (suc (suc zero)))) v most = omega arith
reversed-lt (suc (suc (suc (suc (suc zero))))) v most = omega arith
reversed-lt (suc (suc (suc (suc (suc (suc zero)))))) v most = omega arith
reversed-lt (suc (suc (suc (suc (suc (suc (suc zero))))))) v most = omega arith
reversed-lt (suc (suc (suc (suc (suc (suc (suc (suc zero)))))))) v most = omega arith
reversed-lt (suc (suc (suc (suc (suc (suc (suc (suc (suc n))))))))) v most = absurd (omega arith)

pub reversed-load : (n : ℕ) (m : ℕ → ℕ) (a : ℕ) → IsBytes m → reversed n (load n m a) ≡ big n m a
unfolding reversed load big
reversed-load zero m a h = refl
reversed-load (suc n) m a h =
    let b = h a in
    let low : (m a + 256 * load n m (a + 1)) % 256 ≡ m a = omega arith in
    let high : (m a + 256 * load n m (a + 1)) / 256 ≡ load n m (a + 1) = omega arith in
    rw (low, high, reversed-load n m (a + 1) h) refl

-- A read in big-endian order at a width of 2, 4 or 8 bytes is the number whose highest byte stands
-- first.
pub rd_be-big :
    (m : ℕ → ℕ) (a width : ℕ) → IsBytes m → IsWidth width → rd_be m a width ≡ big width m a
unfolding rd_be
rd_be-big m a width h w =
    let some_bytes : 0 < width = omega arith in
    let most : width ≤ 8 = omega arith in
    let wide : 2 ^ (8 * width) ≤ 2 ^ 64 =
      pow-le-pow_right {n = 2} (omega arith) {i = 8 * width} {j = 64} (omega arith) in
    let small = load-lt width m a h in
    let loaded = endian_get-load m a width w in
    rw loaded (
      rev-reversed (load width m a) width (omega arith) some_bytes most ∙ reversed-load width m a h)

endian_put-IsBytes :
    (m : ℕ → ℕ) (a v width : ℕ) → IsBytes m → IsWidth width → IsBytes (endian_put m a v width)
unfolding endian_put put16 put32 put64
endian_put-IsBytes m a v width h (inl e) =
    subst (λ w. IsBytes (endian_put m a v w)) (sym e) (store-IsBytes 2 m a (v % 2 ^ 16) h)
endian_put-IsBytes m a v width h (inr (inl e)) =
    subst (λ w. IsBytes (endian_put m a v w)) (sym e) (store-IsBytes 4 m a (v % 2 ^ 32) h)
endian_put-IsBytes m a v width h (inr (inr e)) =
    subst (λ w. IsBytes (endian_put m a v w)) (sym e) (store-IsBytes 8 m a v h)

rd_be-back :
    (m : ℕ → ℕ) (a v width : ℕ)
    → v < 2 ^ 64
    → IsWidth width
    → rd_be (wr_be m a v width).0 a width ≡ v % 2 ^ (8 * width)
unfolding rd_be wr_be
rd_be-back m a v width h w =
    let some_bytes : 0 < width = omega arith in
    let most : width ≤ 8 = omega arith in
    let there = rev-reversed v width h some_bytes most in
    let low : reversed width v < 2 ^ (8 * width) = reversed-lt width v most in
    let wide : 2 ^ (8 * width) ≤ 2 ^ 64 =
      pow-le-pow_right {n = 2} (omega arith) {i = 8 * width} {j = 64} (omega arith) in
    let written : endian_get (endian_put m a (rev v width) width) a width ≡ reversed width v =
      get-put m a (rev v width) width w ∙ ap (λ x. x % 2 ^ (8 * width)) there ∙ mod-eq_of_lt low in
    let back = rev-reversed (reversed width v) width (omega arith) some_bytes most in
    rw written (back ∙ reversed_twice width v some_bytes most)

-- A number of 64 bits written in big-endian order into a memory of bytes, at a width of 2, 4 or 8 bytes:
-- what of it fits the width stands there with its highest byte first, and is read back in that order.
pub rd_be-wr_be :
    (m : ℕ → ℕ) (a v width : ℕ)
    → IsBytes m
    → v < 2 ^ 64
    → IsWidth width
    → (big width (wr_be m a v width).0 a ≡ v % 2 ^ (8 * width))
      × (rd_be (wr_be m a v width).0 a width ≡ v % 2 ^ (8 * width))
unfolding wr_be
rd_be-wr_be m a v width bytes h w =
    let back = rd_be-back m a v width h w in
    let after = endian_put-IsBytes m a (rev v width) width bytes w in
    (sym (rd_be-big (endian_put m a (rev v width) width) a width after w) ∙ back, back)
