-- ===== src/Prelude/Store.antt =====
-- Bytes by address, and the little-endian numbers that stand in them.
use Prim.Native.Nat.{ℕ, zero, suc, ◌+◌, ◌-◌, ◌*◌, ◌/◌, ◌%◌, ◌^◌, ◌≤◌, ◌<◌}
use mathlib.Core.Path.{◌≡◌, refl, sym, ap, ◌∙◌}
use mathlib.Core.Logic.{◌⊎◌}
use mathlib.Core.Bool.{◌&&◌}
use native.Mathlib.Omega.{arith}
use native.Mathlib.Nat.{mod_def, div-div-eq-div-mul, div-mul-le_self}
use native.Mathlib.Decide.{dec_lt}
use mmgr.Prelude.Bits.{two-pow-add}
use mmgr.Prelude.Tests.{if◌then◌else◌, ◌==◌, ltb, leb}

-- A store at one index.
abbrev pub update : (ℕ → ℕ) → ℕ → ℕ → ℕ → ℕ
update f k v j = if j == k then v else f j

-- The number in `n` bytes from an address on, the lowest byte first.
unfoldable pub load : ℕ → (ℕ → ℕ) → ℕ → ℕ
load zero m a = 0
load (suc n) m a = m a + 256 * load n m (a + 1)

-- A number written over `n` bytes from an address on; what does not fit is dropped.
unfoldable pub store : ℕ → (ℕ → ℕ) → ℕ → ℕ → ℕ → ℕ
store zero m a v = m
store (suc n) m a v = store n (update m a (v % 256)) (a + 1) (v / 256)

-- The bytes of `n` from one address on, at another.
unfoldable pub copied : ℕ → (ℕ → ℕ) → ℕ → ℕ → ℕ → ℕ
copied n m dst src j = if leb dst j && ltb j (dst + n) then m (src + (j - dst)) else m j

abbrev pub IsBytes : (ℕ → ℕ) → Type 0
IsBytes m = (a : ℕ) → m a < 256

pub store-outside : (n : ℕ) (m : ℕ → ℕ) (a v j : ℕ) → (j < a) ⊎ (a + n ≤ j) → store n m a v j ≡ m j
unfolding store
store-outside zero m a v j h = refl
store-outside (suc n) m a v j h =
    store-outside n (update m a (v % 256)) (a + 1) (v / 256) j (omega arith) ∙ ground arith

pub store-IsBytes : (n : ℕ) (m : ℕ → ℕ) (a v : ℕ) → IsBytes m → IsBytes (store n m a v)
unfolding store
store-IsBytes zero m a v h = h
store-IsBytes (suc n) m a v h =
    store-IsBytes n (update m a (v % 256)) (a + 1) (v / 256) (λ j. let b = h j in ground arith)

-- Bytes that agree hold one number.
pub load-agree :
    (n : ℕ) (m m' : ℕ → ℕ) (a : ℕ)
    → ((j : ℕ) → a ≤ j → j < a + n → m' j ≡ m j)
    → load n m' a ≡ load n m a
unfolding load
load-agree zero m m' a h = refl
load-agree (suc n) m m' a h =
    let first : m' a ≡ m a = h a (omega arith) (omega arith) in
    let rest = load-agree n m m' (a + 1) (λ j l u. h j (omega arith) (omega arith)) in omega arith

-- One byte more.
byte-pow : (n : ℕ) → 2 ^ (8 * suc n) ≡ 256 * 2 ^ (8 * n)
byte-pow n = let e : 8 * suc n ≡ 8 + 8 * n = omega arith in rw e (two-pow-add 8 (8 * n))

pub load-lt : (n : ℕ) (m : ℕ → ℕ) (a : ℕ) → IsBytes m → load n m a < 2 ^ (8 * n)
unfolding load
load-lt zero m a h = omega arith
load-lt (suc n) m a h = let b = h a in let rest = load-lt n m (a + 1) h in omega (arith, byte-pow n)

mod-split : (v p : ℕ) → v % (256 * p) ≡ v % 256 + 256 * (v / 256 % p)
mod-split v p =
    let whole = mod_def v (256 * p) in
    let upper = mod_def (v / 256) p in
    let parts = div-div-eq-div-mul v 256 p in
    let most = div-mul-le_self (v / 256) p in
    let same : v / (256 * p) ≡ v / 256 / p = sym parts in
    let product : 256 * p * (v / (256 * p)) ≡ 256 * p * (v / 256 / p) =
      ap (λ q. 256 * p * q) same in
    omega arith

-- What is loaded after a store is what of the number fits.
pub load-store : (n : ℕ) (m : ℕ → ℕ) (a v : ℕ) → load n (store n m a v) a ≡ v % 2 ^ (8 * n)
unfolding load store
load-store zero m a v = omega arith
load-store (suc n) m a v =
    let m1 = update m a (v % 256) in
    let first : store n m1 (a + 1) (v / 256) a ≡ v % 256 =
      store-outside n m1 (a + 1) (v / 256) a (omega arith) ∙ ground arith in
    let rest = load-store n m1 (a + 1) (v / 256) in
    rw (first, rest, byte-pow n) (sym (mod-split v (2 ^ (8 * n))))

-- A store of what was loaded is a copy.
pub store-load :
    (n : ℕ) (m m' : ℕ → ℕ) (dst src j : ℕ)
    → IsBytes m
    → store n m' dst (load n m src) j
      ≡ (if leb dst j && ltb j (dst + n) then m (src + (j - dst)) else m' j)
unfolding load store
store-load zero m m' dst src j h = ground arith
store-load (suc n) m m' dst src j h =
    let b = h src in
    let low : (m src + 256 * load n m (src + 1)) % 256 ≡ m src = omega arith in
    let high : (m src + 256 * load n m (src + 1)) / 256 ≡ load n m (src + 1) = omega arith in
    let ih = store-load n m (update m' dst (m src)) (dst + 1) (src + 1) j h in
    rw (low, high, ih)
      (elim (dec_lt dst j) [
        | yes past ↦
            let at : src + 1 + (j - (dst + 1)) ≡ src + (j - dst) = omega arith in
            rw at (ground arith)
        | no here ↦ let at : src + (j - dst) ≡ src = omega arith in rw at (ground arith)
      ])

-- Bytes of a place that the copy does not write are what they were.
pub copied-outside :
    (n : ℕ) (m : ℕ → ℕ) (dst src j : ℕ) → (j < dst) ⊎ (dst + n ≤ j) → copied n m dst src j ≡ m j
unfolding copied
copied-outside n m dst src j h = ground arith

-- A word carried over is a copy of its bytes.
pub carried :
    (n : ℕ) (m : ℕ → ℕ) (dst src j : ℕ)
    → IsBytes m
    → store n m dst (load n m src) j ≡ copied n m dst src j
unfolding copied
carried n m dst src j h = store-load n m m dst src j h

-- A copy, and one after it of what follows, where the first left the second's bytes.
pub copied-then :
    (k n : ℕ) (m m' : ℕ → ℕ) (dst src j : ℕ)
    → ((i : ℕ) → m' i ≡ copied k m dst src i)
    → (dst ≤ src) ⊎ (src + k + n ≤ dst)
    → copied n m' (dst + k) (src + k) j ≡ copied (k + n) m dst src j
unfolding copied
copied-then k n m m' dst src j h apart = elim (dec_lt j (dst + k)) [
  | yes low ↦ let here = h j in ground arith
  | no high ↦
      let here = h j in
      let there = h (src + (j - dst)) in
      let at : src + k + (j - (dst + k)) ≡ src + (j - dst) = omega arith in rw at (ground arith)
]

-- A copy, and one after it of what comes ahead, where the first left the second's bytes.
pub copied-before :
    (n k : ℕ) (m m' : ℕ → ℕ) (dst src j : ℕ)
    → ((i : ℕ) → m' i ≡ copied k m (dst + n) (src + n) i)
    → (src ≤ dst) ⊎ (dst + n + k ≤ src)
    → copied n m' dst src j ≡ copied (n + k) m dst src j
unfolding copied
copied-before n k m m' dst src j h apart = elim (dec_lt j (dst + n)) [
  | yes low ↦ let here = h j in let there = h (src + (j - dst)) in ground arith
  | no high ↦
      let here = h j in
      let at : src + n + (j - (dst + n)) ≡ src + (j - dst) = omega arith in
      let here' : m' j
          ≡ (if leb (dst + n) j && ltb j (dst + n + k) then m (src + (j - dst)) else m j) =
        here ∙ ap (λ x. if leb (dst + n) j && ltb j (dst + n + k) then m x else m j) at in
      ground arith
]

-- What of a number does not fit is not stored.
pub store-mod : (n : ℕ) (m : ℕ → ℕ) (a v : ℕ) → store n m a (v % 2 ^ (8 * n)) ≡ store n m a v
unfolding store
store-mod zero m a v = refl
store-mod (suc n) m a v =
    let e : v % 2 ^ (8 * suc n) ≡ v % 256 + 256 * (v / 256 % 2 ^ (8 * n)) =
      ap (λ x. v % x) (byte-pow n) ∙ mod-split v (2 ^ (8 * n)) in
    let low : v % 2 ^ (8 * suc n) % 256 ≡ v % 256 = omega arith in
    let high : v % 2 ^ (8 * suc n) / 256 ≡ v / 256 % 2 ^ (8 * n) = omega arith in
    rw (low, high) (store-mod n (update m a (v % 256)) (a + 1) (v / 256))

-- A store in two parts.
pub store-add :
    (k n : ℕ) (m : ℕ → ℕ) (a v : ℕ)
    → store n (store k m a v) (a + k) (v / 2 ^ (8 * k)) ≡ store (k + n) m a v
unfolding store
store-add zero n m a v =
    let e : a + 0 ≡ a = omega arith in
    let f : v / 1 ≡ v = omega arith in let g : 0 + n ≡ n = omega arith in rw (e, f, g) refl
store-add (suc k) n m a v =
    let e : a + suc k ≡ a + 1 + k = omega arith in
    let p : 2 ^ (8 * suc k) ≡ 256 * 2 ^ (8 * k) = byte-pow k in
    let f : v / 2 ^ (8 * suc k) ≡ v / 256 / 2 ^ (8 * k) =
      rw p (sym (div-div-eq-div-mul v 256 (2 ^ (8 * k)))) in
    let g : suc k + n ≡ suc (k + n) = omega arith in
    rw (e, f, g) (store-add k n (update m a (v % 256)) (a + 1) (v / 256))

-- A load in two parts.
pub load-add :
    (k n : ℕ) (m : ℕ → ℕ) (a : ℕ) → load (k + n) m a ≡ load k m a + 2 ^ (8 * k) * load n m (a + k)
unfolding load
load-add zero n m a =
    let e : a + 0 ≡ a = omega arith in let g : 0 + n ≡ n = omega arith in rw (e, g) (omega arith)
load-add (suc k) n m a =
    let e : a + suc k ≡ a + 1 + k = omega arith in
    let g : suc k + n ≡ suc (k + n) = omega arith in
    let ih = load-add k n m (a + 1) in rw (e, g, byte-pow k, ih) (omega arith)
