-- ===== src/Byteio/Fixed.antt =====
-- `byteio_mpint_fixed` of src/octetus_introitus_exitus: the number in a field of fixed length.
use mmgr.Prelude.{
  ℕ, zero, suc, ◌+◌, ◌-◌, ◌*◌, ◌^◌, ◌≤◌, ◌<◌, ◌≡◌, ◌⊎◌, inl, inr, refl, arith, ap, ◌∙◌, sym,
}
use mmgr.Prelude.{true, false, not, ◌&&◌, if◌then◌else◌, ◌==◌, ltb, leb, Bool-cases}
use mmgr.Prelude.Store.{copied, IsBytes}
use native.Mathlib.Nat.{pow-suc, pow-le-pow_right, mul-le-mul_right}
use mmgr.Endian.Trips.{big}
use mmgr.Memoria.{cpy, set}
use mmgr.Memoria.Copy.{cpy-copies}
use mmgr.Memoria.Fill.{filled, set-fills}
use mmgr.Byteio.{Writing, mpint_fixed, leading_zeros}
use native.Mathlib.Decide.{dec_lt}

pow_add : (k n : ℕ) → 256 ^ (k + n) ≡ 256 ^ k * 256 ^ n
pow_add zero n = let e : 0 + n ≡ n = omega arith in rw e (omega arith)
pow_add (suc k) n =
    let e : suc k + n ≡ suc (k + n) = omega arith in
    rw (e, pow-suc 256 (k + n), pow-suc 256 k, pow_add k n) (omega arith)

big-add : (k n : ℕ) (m : ℕ → ℕ) (a : ℕ) → big (k + n) m a ≡ big k m a * 256 ^ n + big n m (a + k)
unfolding big
big-add zero n m a =
    let e : a + 0 ≡ a = omega arith in let g : 0 + n ≡ n = omega arith in rw (e, g) (omega arith)
big-add (suc k) n m a =
    let e : a + suc k ≡ a + 1 + k = omega arith in
    let g : suc k + n ≡ suc (k + n) = omega arith in
    rw (e, g, pow_add k n, big-add k n m (a + 1)) (omega arith)

big-agree :
    (n : ℕ) (m m' : ℕ → ℕ) (a b : ℕ)
    → ((i : ℕ) → i < n → m (a + i) ≡ m' (b + i))
    → big n m a ≡ big n m' b
unfolding big
big-agree zero m m' a b h = refl
big-agree (suc n) m m' a b h =
    let e : a + 0 ≡ a = omega arith in
    let f : b + 0 ≡ b = omega arith in
    let first : m a ≡ m' b = rw (e, f) at (h 0 (omega arith)) in
    let rest =
      big-agree n m m' (a + 1) (b + 1)
        (λ i l. ap m (omega arith) ∙ h (suc i) (omega arith) ∙ ap m' (omega arith)) in
    rw (first, rest) refl

big-zero : (n : ℕ) (m : ℕ → ℕ) (a : ℕ) → ((i : ℕ) → i < n → m (a + i) ≡ 0) → big n m a ≡ 0
unfolding big
big-zero zero m a h = refl
big-zero (suc n) m a h =
    let e : a + 0 ≡ a = omega arith in
    let first : m a ≡ 0 = rw e at (h 0 (omega arith)) in
    let rest = big-zero n m (a + 1) (λ i l. ap m (omega arith) ∙ h (suc i) (omega arith)) in
    rw (first, rest) (omega arith)

zeros_lem :
    (m : ℕ → ℕ) (src n : ℕ) → (leading_zeros m src n ≤ n) × (big (leading_zeros m src n) m src ≡ 0)
unfolding leading_zeros big
zeros_lem m src zero = (omega arith, refl)
zeros_lem m src (suc n) =
    let (few, none_set) = zeros_lem m (src + 1) n in
    elim (Bool-cases (m src == 0)) [
      | inl e ↦
          let z : m src ≡ 0 = ground arith in rw e (omega arith, rw (z, none_set) (omega arith))
      | inr e ↦ rw e (omega arith, refl)
    ]

-- The memory that `mpint_fixed` leaves where it writes.
abbrev fixed : (ℕ → ℕ) → ℕ → ℕ → ℕ → ℕ → ℕ → ℕ
fixed m buf pad src n =
    let cleared = set (record { memory = m; dst = buf; bytes = pad; val = 0 }) in
    (cpy (record { memory = cleared.memory; dst = buf + pad; src = src; bytes = n })).memory

fixed_lem :
    (m : ℕ → ℕ) (buf pad src n j : ℕ)
    → IsBytes m
    → (src + n ≤ buf) ⊎ (buf + pad + n ≤ src)
    → fixed m buf pad src n j ≡ (
        if leb (buf + pad) j && ltb j (buf + pad + n)
        then m (src + (j - (buf + pad)))
        else (if leb buf j && ltb j (buf + pad) then 0 else m j))
unfolding copied filled
fixed_lem m buf pad src n j h apart =
    let s = set (record { memory = m; dst = buf; bytes = pad; val = 0 }) in
    let c : (x : ℕ) → s.memory x ≡ filled pad m buf 0 x =
      λ x. set-fills (record { memory = m; dst = buf; bytes = pad; val = 0 }) x (omega arith) in
    let b : IsBytes s.memory = λ x. let e = c x in let f = h x in ground arith in
    let d =
      cpy-copies (record { memory = s.memory; dst = buf + pad; src = src; bytes = n }) j b
        (omega arith) in
    let here = c j in let there = c (src + (j - (buf + pad))) in ground arith

same_number :
    (m : ℕ → ℕ) (buf pad src zeros n : ℕ)
    → IsBytes m
    → (src + zeros + n ≤ buf) ⊎ (buf + pad + n ≤ src)
    → big zeros m src ≡ 0
    → big (pad + n) (fixed m buf pad (src + zeros) n) buf ≡ big (zeros + n) m src
same_number m buf pad src zeros n h apart none_set =
    let after = fixed m buf pad (src + zeros) n in
    let byte : (j : ℕ) → _ = λ j. fixed_lem m buf pad (src + zeros) n j h (omega arith) in
    let cleared : big pad after buf ≡ 0 =
      big-zero pad after buf (λ i l. let e = byte (buf + i) in ground arith) in
    let moved : big n after (buf + pad) ≡ big n m (src + zeros) =
      big-agree n after m (buf + pad) (src + zeros) (λ i l.
        let e = byte (buf + pad + i) in
        let at : buf + pad + i - (buf + pad) ≡ i = omega arith in
        let e' = rw at at e in ground arith) in
    rw (big-add pad n after buf, big-add zeros n m src, cleared, none_set, moved) refl

big-lt : (n : ℕ) (m : ℕ → ℕ) (a : ℕ) → IsBytes m → big n m a < 256 ^ n
unfolding big
big-lt zero m a h = omega arith
big-lt (suc n) m a h =
    let b = h a in let rest = big-lt n m (a + 1) h in rw (pow-suc 256 n) (grind arith)

-- The bytes behind the leading zeros are as many as the number has.
zeros-most :
    (m : ℕ → ℕ) (src n : ℕ)
    → (leading_zeros m src n ≡ n) ⊎ (256 ^ (n - leading_zeros m src n - 1) ≤ big n m src)
unfolding leading_zeros big
zeros-most m src zero = inl refl
zeros-most m src (suc n) = elim (Bool-cases (m src == 0)) [
  | inl e ↦
      let z : m src ≡ 0 = ground arith in
      elim (zeros-most m (src + 1) n) [
        | inl all ↦ rw e (inl (omega arith))
        | inr some_left ↦
            let z' = leading_zeros m (src + 1) n in
            let same : suc n - suc z' - 1 ≡ n - z' - 1 = omega arith in
            rw (e, z) (inr (rw same (omega arith)))
      ]
  | inr e ↦
      let some_byte : 1 ≤ m src = ground arith in
      let wide : 1 * 256 ^ n ≤ m src * 256 ^ n = mul-le-mul_right (256 ^ n) some_byte in
      let same : suc n - 0 - 1 ≡ n = omega arith in rw e (inr (rw same (omega arith)))
]

-- A number has no more bytes than a field exactly when it is below the power of 256.
fits-below :
    (m : ℕ → ℕ) (src n cap : ℕ)
    → IsBytes m
    → leb (n - leading_zeros m src n) cap ≡ ltb (big n m src) (256 ^ cap)
fits-below m src n cap h =
    let zeros = leading_zeros m src n in
    let left = n - zeros in
    let (few, none_set) = zeros_lem m src n in
    let b : zeros + left ≡ n = omega arith in
    let number : big n m src ≡ big left m (src + zeros) =
      ap (λ k. big k m src) (sym b) ∙ rw (big-add zeros left m src, none_set) (omega arith) in
    let small = big-lt left m (src + zeros) h in
    elim (dec_lt cap left) [
      | yes over ↦ elim (zeros-most m src n) [
        | inl all ↦ absurd (omega arith)
        | inr most ↦
            let wide =
              pow-le-pow_right {n = 256} (omega arith) {i = cap} {j = left - 1} (omega arith) in
            let t : leb left cap ≡ false = ground arith in
            let u : ltb (big n m src) (256 ^ cap) ≡ false = ground arith in t ∙ sym u
      ]
      | no fits ↦
          let wide = pow-le-pow_right {n = 256} (omega arith) {i = left} {j = cap} (omega arith) in
          let t : leb left cap ≡ true = ground arith in
          let u : ltb (big n m src) (256 ^ cap) ≡ true = ground arith in t ∙ sym u
    ]

-- The number of a run of bytes, the highest first, is that of the field of the span's length that it
-- is written into, where it is below the power of 256 that the length names, whatever its leading zeros,
-- and the span has a buffer; else the field stays and the overflow is told. The run stands outside of the
-- field.
pub mpint_fixed-holds :
    (w : Writing) (src bytes : ℕ)
    → IsBytes w.memory
    → (src + bytes ≤ w.span.buf) ⊎ (w.span.buf + w.span.cap ≤ src)
    → let (w', held) = mpint_fixed w src bytes in
      (held ≡ (not (w.span.buf == 0) && ltb (big bytes w.memory src) (256 ^ w.span.cap)))
      × (big w.span.cap w'.memory w.span.buf
          ≡ (if held then big bytes w.memory src else big w.span.cap w.memory w.span.buf))
      × (w'.span.overflow ≡ (if held then w.span.overflow else true))
unfolding mpint_fixed
mpint_fixed-holds w src bytes h apart =
    let zeros = leading_zeros w.memory src bytes in
    let n = bytes - zeros in
    let buf = w.span.buf in
    let cap = w.span.cap in
    let (few, none_set) = zeros_lem w.memory src bytes in
    elim (Bool-cases (buf == 0)) [
      | inl e ↦ rw e (refl, refl, refl)
      | inr e ↦ elim (dec_lt cap n) [
        | yes over ↦
            let t : ltb cap n ≡ true = ground arith in
            let u : leb n cap ≡ false = ground arith in
            let below = sym (fits-below w.memory src bytes cap h) ∙ u in
            rw (e, t, below) (refl, refl, refl)
        | no fits ↦
            let t : ltb cap n ≡ false = ground arith in
            let u : leb n cap ≡ true = ground arith in
            let below = sym (fits-below w.memory src bytes cap h) ∙ u in
            let pad = cap - n in
            let a : pad + n ≡ cap = omega arith in
            let b : zeros + n ≡ bytes = omega arith in
            let number = same_number w.memory buf pad src zeros n h (omega arith) none_set in
            rw (e, t, below)
              (
                refl,
                ap (λ x. big x (fixed w.memory buf pad (src + zeros) n) buf) (sym a)
                    ∙ number
                    ∙ ap (λ x. big x w.memory src) b,
                refl,
              )
      ]
    ]
