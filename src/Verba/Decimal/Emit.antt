-- ===== src/Verba/Decimal/Emit.antt =====
-- The two writers of digits of src/verba_scribo write the digits of the value.
use mmgr.Prelude.{
  ℕ, zero, suc, ◌+◌, ◌-◌, ◌*◌, ◌/◌, ◌%◌, ◌^◌, ◌≤◌, ◌<◌, ◌≡◌, refl, arith, ap, ◌∙◌, sym,
}
use mmgr.Prelude.{Bool, true, if◌then◌else◌, leb, get_or, ◌&&◌, ◌==◌, Bool-cases, inl, inr}
use native.Mathlib.Decide.{dec_lt}
use native.Mathlib.Nat.{pow-suc, pow-le-pow_right}
use mmgr.Prelude.Below.{all_below, all_below_lem}
use mmgr.Prelude.Store.{update}
use mmgr.Carcer.Word.{sub64}
use mmgr.Verba.Text.{placed, digit, placed-agree, placed-then, digit_front, digit_back, digit_rest}
use mmgr.Verba.Decimal.{cut8, emit10, emit20, pairs}
use mmgr.Verba.Decimal.Divide.{div100_lem, cut8_lem}

-- The characters of a number's decimal digits.
abbrev pub decimal : ℕ → ℕ → ℕ → ℕ
decimal n value i = b'0' + digit 10 n value i

is_pair : ℕ → Bool
is_pair r =
    (get_or pairs (r * 2) 0 == b'0' + r / 10) && (get_or pairs (r * 2 + 1) 0 == b'0' + r % 10)

pairs_all : all_below 100 is_pair ≡ true
unfolding is_pair
pairs_all = refl

pair_of : (a b c d : ℕ) → ((a == b) && (c == d)) ≡ true → (a ≡ b) × (c ≡ d)
pair_of a b c d h = ground arith

pairs_lem :
    (r : ℕ)
    → r < 100
    → (get_or pairs (r * 2) 0 ≡ b'0' + r / 10) × (get_or pairs (r * 2 + 1) 0 ≡ b'0' + r % 10)
unfolding is_pair
pairs_lem r h = pair_of _ _ _ _ (all_below_lem 100 is_pair pairs_all r h)

-- Two characters written ahead of the digits before them.
two_more :
    (n value : ℕ) (m m2 : ℕ → ℕ) (out j c d : ℕ)
    → c ≡ b'0' + value / 10 % 10
    → d ≡ b'0' + value % 10
    → m2 j ≡ update (update m (out + n) c) (out + n + 1) d j
    → placed m2 out n (decimal n (value / 100)) j
      ≡ placed m out (suc (suc n)) (decimal (suc (suc n)) value) j
unfolding placed digit
two_more n value m m2 out j c d ec ed em =
    let e : value / 10 / 10 ≡ value / 100 = omega arith in rw e (ground arith)

emit10_at :
    (n : ℕ) (m : ℕ → ℕ) (out value j : ℕ)
    → value < 2 ^ 32
    → value < 10 ^ n
    → emit10 m out value n j ≡ placed m out n (decimal n value) j
unfolding emit10
emit10_at zero m out value j small fits = unfold placed in ground arith
emit10_at (suc zero) m out value j small fits = unfold placed digit in ground arith
emit10_at (suc (suc n)) m out value j small fits =
    let r = value % 100 in
    let q = div100_lem value small in
    let er : (value + 2 ^ 32 - value / 100 * 100 % 2 ^ 32) % 2 ^ 32 ≡ r = omega arith in
    let pair = pairs_lem r (omega arith) in
    let m2 =
      update (update m (out + n) (get_or pairs (r * 2) 0)) (out + n + 1)
        (get_or pairs (r * 2 + 1) 0) in
    let fewer : value / 100 < 10 ^ n = omega (arith, pow-suc 10 n, pow-suc 10 (suc n)) in
    rw (q, er)
      (emit10_at n m2 out (value / 100) j (omega arith) fewer
        ∙ two_more n value m m2 out j _ _ (omega (arith, pair.0)) (omega (arith, pair.1)) refl)

-- A value of 32 bits that `n` digits hold is written as them.
pub emit10-digits :
    (n : ℕ) (m : ℕ → ℕ) (out value : ℕ)
    → value < 2 ^ 32
    → value < 10 ^ n
    → emit10 m out value n ≡ placed m out n (decimal n value)
emit10-digits n m out value small fits = λ i j. emit10_at n m out value j small fits i

-- A value whose digits are written in two parts, 8 of them in the second.
two_parts :
    (m : ℕ → ℕ) (out n value : ℕ)
    → placed (placed m out n (decimal n (value / 10 ^ 8))) (out + n) 8 (decimal 8 (value % 10 ^ 8))
      ≡ placed m out (n + 8) (decimal (n + 8) value)
two_parts m out n value =
    ap (λ w. placed w (out + n) 8 (decimal 8 (value % 10 ^ 8)))
      (placed-agree m out n (decimal n (value / 10 ^ 8)) (decimal (n + 8) value)
        (λ i l. ap (λ d. b'0' + d) (sym (digit_front 10 n 8 value i l))))
    ∙ placed-agree (placed m out n (decimal (n + 8) value)) (out + n) 8 (decimal 8 (value % 10 ^ 8))
        (λ i. decimal (n + 8) value (n + i))
        (λ i l. ap (λ d. b'0' + d) (digit_rest 8 value i ∙ sym (digit_back 10 n 8 value i l)))
    ∙ placed-then m out n 8 (decimal (n + 8) value)

eight_more : (n : ℕ) → 10 ^ (n + 8) ≡ 100000000 * 10 ^ n
eight_more n = omega (
  arith,
  ap (λ k. 10 ^ k) {x = n + 8} {y = suc (suc (suc (suc (suc (suc (suc (suc n)))))))} (omega arith),
  pow-suc 10 n,
  pow-suc 10 (suc n),
  pow-suc 10 (suc (suc n)),
  pow-suc 10 (suc (suc (suc n))),
  pow-suc 10 (suc (suc (suc (suc n)))),
  pow-suc 10 (suc (suc (suc (suc (suc n))))),
  pow-suc 10 (suc (suc (suc (suc (suc (suc n)))))),
  pow-suc 10 (suc (suc (suc (suc (suc (suc (suc n))))))),
)

-- More than 32 bits take more than 8 digits.
past_cut : (value digits : ℕ) → 2 ^ 32 ≤ value → value < 10 ^ digits → 8 ≤ digits
past_cut value digits big fits = elim (dec_lt digits 8) [
  | yes few ↦
      absurd
        (omega (arith, pow-le-pow_right {n = 10} (omega arith) {i = digits} {j = 8} (omega arith)))
  | no more ↦ omega arith
]

upper_fits : (value n : ℕ) → value < 10 ^ (n + 8) → value / 10 ^ 8 < 10 ^ n
upper_fits value n h = omega (arith, eight_more n)

low_lem :
    (value : ℕ)
    → value < 2 ^ 64
    → sub64 value (value / 10 ^ 8 * 100000000 % 2 ^ 64) % 2 ^ 32 ≡ value % 10 ^ 8
unfolding sub64
low_lem value small = omega arith

-- What stands above the last cut.
upper_digits :
    (m : ℕ → ℕ) (out rest n : ℕ)
    → rest < 2 ^ 40
    → rest < 10 ^ n
    → (if leb rest 0xFFFFFFFF
        then emit10 m out rest n
        else emit10
            (emit10 m out (cut8 rest % 2 ^ 32) (n - 8))
            (out + (n - 8))
            (sub64 rest (cut8 rest * 100000000 % 2 ^ 64) % 2 ^ 32)
            8)
      ≡ placed m out n (decimal n rest)
upper_digits m out rest n small fits = elim (Bool-cases (leb rest 0xFFFFFFFF)) [
  | inl t ↦ rw t (emit10-digits n m out rest (ground arith) fits)
  | inr t ↦
      let big : 2 ^ 32 ≤ rest = ground arith in
      let k = n - 8 in
      let more = past_cut rest n big fits in
      let e : n ≡ k + 8 = omega arith in
      let above = upper_fits rest k (rw (← e) fits) in
      let narrow : rest / 10 ^ 8 % 2 ^ 32 ≡ rest / 10 ^ 8 = omega arith in
      let high = emit10-digits k m out (rest / 10 ^ 8) (omega arith) above in
      rw (t, cut8_lem rest (omega arith), narrow, low_lem rest (omega arith), high)
        (emit10-digits 8 (placed m out k (decimal k (rest / 10 ^ 8))) (out + k) (rest % 10 ^ 8)
            (omega arith) (omega arith)
          ∙ two_parts m out k rest
          ∙ ap (λ d. placed m out d (decimal d rest)) (sym e))
]

-- A value of 64 bits that `digits` decimal digits hold is written as them, with leading zeros.
pub emit20-digits :
    (m : ℕ → ℕ) (out value digits : ℕ)
    → value < 2 ^ 64
    → value < 10 ^ digits
    → emit20 m out value digits ≡ placed m out digits (decimal digits value)
unfolding emit20
emit20-digits m out value digits small fits = elim (Bool-cases (leb value 0xFFFFFFFF)) [
  | inl t ↦ rw t (emit10-digits digits m out value (ground arith) fits)
  | inr t ↦
      let big : 2 ^ 32 ≤ value = ground arith in
      let n = digits - 8 in
      let more = past_cut value digits big fits in
      let e : digits ≡ n + 8 = omega arith in
      let above = upper_fits value n (rw (← e) fits) in
      let high = upper_digits m out (value / 10 ^ 8) n (omega arith) above in
      let twice : digits - 16 ≡ n - 8 = omega arith in
      rw (t, cut8_lem value small, low_lem value small, twice, high)
        (emit10-digits 8 (placed m out n (decimal n (value / 10 ^ 8))) (out + n) (value % 10 ^ 8)
            (omega arith) (omega arith)
          ∙ two_parts m out n value
          ∙ ap (λ d. placed m out d (decimal d value)) (sym e))
]
