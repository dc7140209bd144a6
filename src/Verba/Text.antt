-- ===== src/Verba/Text.antt =====
-- What a text in the buffer of src/verba_scribo is: characters by place, and the digits of a number.
use mmgr.Prelude.{
  ℕ, zero, suc, ◌+◌, ◌-◌, ◌*◌, ◌/◌, ◌%◌, ◌^◌, ◌≤◌, ◌<◌, ◌≡◌, refl, arith, ◌∙◌, ap, sym,
}
use mmgr.Prelude.{if◌then◌else◌, ◌==◌, ltb, leb, ◌&&◌, Bool-cases, inl, inr}
use native.Mathlib.Decide.{dec_lt}
use native.Mathlib.Nat.{
  pow-suc, div-div-eq-div-mul, mod_def, mul_comm, mul_assoc, mul-sub, div-mul-le_self,
  mul-le-mul_left, pow-zero,
}

-- A memory with the `n` characters of a text written from an address on.
unfoldable pub placed : (ℕ → ℕ) → ℕ → ℕ → (ℕ → ℕ) → ℕ → ℕ
placed m a n text j = if leb a j && ltb j (a + n) then text (j - a) else m j

-- The digit at a place of a number written with `n` digits in a base, the highest first.
unfoldable pub digit : ℕ → ℕ → ℕ → ℕ → ℕ
digit b zero value i = 0
digit b (suc n) value i = let upper = digit b n (value / b) i in if i == n then value % b else upper

-- The number that the first `n` digits of a text make in a base.
unfoldable pub number : ℕ → ℕ → (ℕ → ℕ) → ℕ
number b zero ds = 0
number b (suc n) ds = number b n ds * b + ds n

-- `mmgr_hex_lower`.
abbrev pub hex_char : ℕ → ℕ
hex_char d = if ltb d 10 then b'0' + d else 87 + d

pub number-agree :
    (b n : ℕ) (ds es : ℕ → ℕ) → ((i : ℕ) → i < n → ds i ≡ es i) → number b n ds ≡ number b n es
unfolding number
number-agree b zero ds es h = refl
number-agree b (suc n) ds es h =
    let upper = number-agree b n ds es (λ i l. h i (omega arith)) in
    let last = h n (omega arith) in rw (upper, last) refl

digit_last : (b n value : ℕ) → digit b (suc n) value n ≡ value % b
unfolding digit
digit_last b n value = ground arith

digit_upper : (b n value i : ℕ) → i < n → digit b (suc n) value i ≡ digit b n (value / b) i
unfolding digit
digit_upper b n value i h = ground arith

pub mod-suc : (v b p : ℕ) → v / b % p * b + v % b ≡ v % (b * p)
mod-suc v b p =
    let q = v / b in
    let t = q / p in
    let same : v / (b * p) ≡ t = sym (div-div-eq-div-mul v b p) in
    let whole : v % (b * p) ≡ v - b * (p * t) =
      mod_def v (b * p) ∙ ap (λ x. v - b * p * x) same ∙ ap (λ x. v - x) (mul_assoc b p t) in
    let spread : q % p * b ≡ b * q - b * (p * t) =
      mul_comm (q % p) b ∙ ap (λ x. b * x) (mod_def q p) ∙ mul-sub b q (p * t) in
    let fits : p * t ≤ q = omega (arith, div-mul-le_self q p, mul_comm p t) in
    let least : b * (p * t) ≤ b * q = mul-le-mul_left b fits in
    omega (arith, mod_def v b, div-mul-le_self v b, mul_comm b q)

-- The digits of a number make it again, what of it the digits hold.
pub number-digit : (b n value : ℕ) → number b n (digit b n value) ≡ value % b ^ n
unfolding number
number-digit b zero value =
    let one : value % 1 ≡ 0 = omega arith in sym (ap (λ x. value % x) (pow-zero b) ∙ one)
number-digit b (suc n) value =
    let upper =
      number-agree b n (digit b (suc n) value) (digit b n (value / b)) (digit_upper b n value) in
    let last = digit_last b n value in
    let ih = number-digit b n (value / b) in
    let step : b ^ suc n ≡ b * b ^ n = pow-suc b n ∙ mul_comm (b ^ n) b in
    rw (upper, last, ih, step) (mod-suc value b (b ^ n))

agree_at :
    (m m' : ℕ → ℕ) (a n : ℕ) (f g : ℕ → ℕ) (j : ℕ)
    → m j ≡ m' j
    → ((i : ℕ) → i < n → f i ≡ g i)
    → placed m a n f j ≡ placed m' a n g j
unfolding placed
agree_at m m' a n f g j here e = elim (Bool-cases (leb a j && ltb j (a + n))) [
  | inl t ↦ let there = e (j - a) (ground arith) in rw (t, there) refl
  | inr t ↦ rw (t, here) refl
]

-- Texts that agree at their places are placed alike.
pub placed-agree :
    (m : ℕ → ℕ) (a n : ℕ) (f g : ℕ → ℕ)
    → ((i : ℕ) → i < n → f i ≡ g i)
    → placed m a n f ≡ placed m a n g
placed-agree m a n f g e = λ i j. agree_at m m a n f g j refl e i

then_at :
    (m : ℕ → ℕ) (a k n : ℕ) (text : ℕ → ℕ) (j : ℕ)
    → placed (placed m a k text) (a + k) n (λ i. text (k + i)) j ≡ placed m a (k + n) text j
unfolding placed
then_at m a k n text j = elim (dec_lt j (a + k)) [
  | yes low ↦ ground arith
  | no high ↦ let at : k + (j - (a + k)) ≡ j - a = omega arith in rw at (ground arith)
]

-- A text placed in two parts.
pub placed-then :
    (m : ℕ → ℕ) (a k n : ℕ) (text : ℕ → ℕ)
    → placed (placed m a k text) (a + k) n (λ i. text (k + i)) ≡ placed m a (k + n) text
placed-then m a k n text = λ i j. then_at m a k n text j i

-- The digits of a number in two parts.
pub digit_front :
    (b k n value i : ℕ) → i < k → digit b (k + n) value i ≡ digit b k (value / b ^ n) i
digit_front b k zero value i h =
    let e : k + 0 ≡ k = omega arith in
    let one : value / 1 ≡ value = omega arith in
    let f : value / b ^ 0 ≡ value = ap (λ x. value / x) (pow-zero b) ∙ one in rw (e, f) refl
digit_front b k (suc n) value i h =
    let e : k + suc n ≡ suc (k + n) = omega arith in
    let step : b ^ suc n ≡ b * b ^ n = pow-suc b n ∙ mul_comm (b ^ n) b in
    rw (e, digit_upper b (k + n) value i (omega arith), step, ← div-div-eq-div-mul value b (b ^ n))
      (digit_front b k n (value / b) i h)

pub digit_back : (b k n value i : ℕ) → i < n → digit b (k + n) value (k + i) ≡ digit b n value i
unfolding digit
digit_back b k zero value i h = absurd (omega arith)
digit_back b k (suc n) value i h =
    let e : k + suc n ≡ suc (k + n) = omega arith in
    rw e (elim (dec_lt i n) [
      | yes low ↦ let ih = digit_back b k n (value / b) i low in ground arith
      | no last ↦ ground arith
    ])

pub digit_rest : (n value i : ℕ) → digit 10 n (value % 10 ^ n) i ≡ digit 10 n value i
unfolding digit
digit_rest zero value i = refl
digit_rest (suc n) value i =
    let whole = mod-suc value 10 (10 ^ n) in
    let step : 10 ^ suc n ≡ 10 * 10 ^ n = omega (arith, pow-suc 10 n) in
    let last : value % (10 * 10 ^ n) % 10 ≡ value % 10 = omega arith in
    let upper : value % (10 * 10 ^ n) / 10 ≡ value / 10 % 10 ^ n = omega arith in
    rw (step, last, upper, digit_rest n (value / 10) i) refl
