-- ===== src/Verba/Numbers/Padded.antt =====
-- What src/verba_scribo writes about a number's digits: spaces, a sign, zeros, and a point.
use mmgr.Prelude.{ℕ, zero, suc, ◌+◌, ◌-◌, ◌^◌, ◌<◌, ◌≡◌, refl, arith, ap, ◌∙◌, inl, inr}
use mmgr.Prelude.{true, false, not, if◌then◌else◌, ◌==◌, ltb, ◌&&◌, Bool-cases}
use native.Mathlib.Decide.{dec_lt}
use mmgr.Prelude.Store.{update}
use mmgr.Prelude.Int.{ℤ}
use mmgr.Verba.{Verba, room}
use mmgr.Verba.Text.{placed, placed-agree, placed-then, digit, hex_char}
use mmgr.Verba.Append.{append, ch-append, written-append}
use mmgr.Verba.Chain.{append-append}
use mmgr.Verba.Decimal.{emit20, digits10}
use mmgr.Verba.Decimal.Count.{digits10-least}
use mmgr.Verba.Decimal.Emit.{emit20-digits, decimal}
use mmgr.Verba.Numbers.{
  spaces, u64_clip, zeros_from, zeros, back_one, digits, i64, uint, uint_digits,
}
use mmgr.Verba.Numbers.Uint.{uint-append}

spaces_at : (n : ℕ) (m : ℕ → ℕ) (to j : ℕ) → spaces n m to j ≡ placed m to n (λ i. b' ') j
unfolding spaces placed
spaces_at zero m to j = ground arith
spaces_at (suc n) m to j = let ih = spaces_at n (update m (to + n) b' ') to j in ground arith

zeros_at : (n : ℕ) (m : ℕ → ℕ) (to j : ℕ) → zeros_from n m to j ≡ placed m to n (λ i. b'0') j
unfolding zeros_from placed
zeros_at zero m to j = ground arith
zeros_at (suc n) m to j = let ih = zeros_at n (update m to b'0') (to + 1) j in ground arith

-- A run of zeros is appended whole, or refused.
pub zeros-append : (v : Verba) (want : ℕ) → zeros v want ≡ append v want (λ i. b'0')
unfolding zeros
zeros-append v want =
    written-append v (zeros_from want v.memory (v.out + v.at)) want (λ i. b'0')
      (λ i j. zeros_at want v.memory (v.out + v.at) j i)

-- A number in a column: spaces, then its digits.
abbrev pub column : ℕ → ℕ → ℕ → ℕ
column pad val i = if ltb i pad then b' ' else decimal (digits10 val) val (i - pad)

before_pad : (i pad c : ℕ) → i < pad → b' ' ≡ (if ltb i pad then b' ' else c)
before_pad i pad c l = ground arith

after_pad : (i pad : ℕ) (f : ℕ → ℕ) → f i ≡ (if ltb (pad + i) pad then b' ' else f (pad + i - pad))
after_pad i pad f =
    let t : ltb (pad + i) pad ≡ false = ground arith in
    let e : pad + i - pad ≡ i = omega arith in rw (t, e) refl

column_placed :
    (m : ℕ → ℕ) (to pad val : ℕ)
    → val < 2 ^ 64
    → emit20 (spaces pad m to) (to + pad) val (digits10 val)
      ≡ placed m to (pad + digits10 val) (column pad val)
column_placed m to pad val small =
    let n = digits10 val in
    let c = digits10-least val small in
    emit20-digits (spaces pad m to) (to + pad) val n small c.0
    ∙ ap (λ m. placed m (to + pad) n (decimal n val)) (λ i j. spaces_at pad m to j i)
    ∙ ap (λ m. placed m (to + pad) n (decimal n val))
        (placed-agree m to pad (λ i. b' ') (column pad val) (λ i l. before_pad i pad _ l))
    ∙ placed-agree (placed m to pad (column pad val)) (to + pad) n (decimal n val)
        (λ i. column pad val (pad + i)) (λ i l. after_pad i pad (decimal n val))
    ∙ placed-then m to pad n (column pad val)

-- A number of 64 bits is written right aligned in its column, which its digits widen where they need
-- to, and where there is no room the buffer and the offset stay.
pub u64_clip-column :
    (v : Verba) (val columns : ℕ)
    → val < 2 ^ 64
    → let pad = columns - digits10 val in
      u64_clip v val columns
      ≡ (if room v (pad + digits10 val) then append v (pad + digits10 val) (column pad val) else v)
unfolding u64_clip append
u64_clip-column v val columns small =
    let n = digits10 val in
    let pad = columns - n in
    let width : (if ltb n columns then columns else n) ≡ pad + n = ground arith in
    let left : pad + n - n ≡ pad = omega arith in
    let text = column_placed v.memory (v.out + v.at) pad val small in
    rw (width, left)
      (elim (Bool-cases (room v (pad + n))) [
        | inl t ↦ rw t (ap (λ m. record v { memory = m; at = v.at + (pad + n) }) text)
        | inr t ↦ rw t refl
      ])

sign_first : (i c : ℕ) → i < 1 → b'-' ≡ (if i == 0 then b'-' else c)
sign_first i c l = ground arith

sign_after : (i : ℕ) (f : ℕ → ℕ) → f i ≡ (if 1 + i == 0 then b'-' else f (1 + i - 1))
sign_after i f =
    let t : (1 + i == 0) ≡ false = ground arith in
    let e : 1 + i - 1 ≡ i = omega arith in rw (t, e) refl

-- A negative number of 64 bits for whose digits and sign there is room is written as them.
pub i64-negative :
    (v : Verba) (k : ℕ)
    → k < 2 ^ 63
    → let n = uint_digits (k + 1) 10 1 in
      room v (1 + n) ≡ true
      → i64 v (ℤ.negsuc k)
        ≡ append v (1 + n) (λ i. if i == 0 then b'-' else hex_char (digit 10 n (k + 1) (i - 1)))
unfolding i64
i64-negative v k small t =
    let n = uint_digits (k + 1) 10 1 in
    let w = append v 1 (λ i. b'-') in
    let text : ℕ → ℕ = λ i. if i == 0 then b'-' else hex_char (digit 10 n (k + 1) (i - 1)) in
    ap (λ w. uint w (k + 1) 10 1) (ch-append v b'-')
    ∙ (uint-append w (k + 1) 10 1 (omega arith)).0
    ∙ append-append v 1 n (λ i. b'-') (λ i. hex_char (digit 10 n (k + 1) i)) text t
        (λ i l. sign_first i _ l) (λ i l. sign_after i (λ d. hex_char (digit 10 n (k + 1) d)))

back_at : (n : ℕ) (m : ℕ → ℕ) (to j : ℕ) → back_one n m to j ≡ placed m to n (λ i. m (to + i + 1)) j
unfolding back_one placed
back_at zero m to j = ground arith
back_at (suc n) m to j =
    let ih = back_at n (update m to (m (to + 1))) (to + 1) j in
    elim (dec_lt to j) [
      | yes above ↦
          let e : to + 1 + (j - (to + 1)) + 1 ≡ j + 1 = omega arith in
          let f : to + (j - to) + 1 ≡ j + 1 = omega arith in
          rw f (ground (arith, ap m e, ap (update m to (m (to + 1))) e))
      | no at ↦ elim (Bool-cases (j == to)) [
        | inl t ↦ let f : to + (j - to) + 1 ≡ to + 1 = ground arith in rw f (ground arith)
        | inr t ↦ ground arith
      ]
    ]

-- Digits with a point after some of them.
abbrev pub pointed : ℕ → ℕ → ℕ → ℕ → ℕ
pointed count mant point i =
    if ltb i point
    then decimal count mant i
    else if i == point
    then b'.'
    else decimal count mant (i - 1)

pointed_at :
    (m : ℕ → ℕ) (to count mant point j : ℕ)
    → point < count
    → update
        (placed
          (placed m (to + 1) count (decimal count mant))
          to
          point
          (λ i. placed m (to + 1) count (decimal count mant) (to + i + 1)))
        (to + point)
        b'.'
        j
      ≡ placed m to (count + 1) (pointed count mant point) j
unfolding placed
pointed_at m to count mant point j l = elim (dec_lt j (to + point)) [
  | yes low ↦ let e : to + (j - to) + 1 - (to + 1) ≡ j - to = omega arith in rw e (ground arith)
  | no high ↦ let e : j - (to + 1) ≡ j - to - 1 = omega arith in rw e (ground arith)
]

-- Digits that hold a number of 64 bits are written with a point after as many of them as are asked for,
-- with none where that is 0 or not fewer than they are, whole or refused.
pub digits-pointed :
    (v : Verba) (mant count point_after : ℕ)
    → mant < 2 ^ 64
    → mant < 10 ^ count
    → digits v mant count point_after ≡ (
        if not (point_after == 0) && ltb point_after count
        then append v (count + 1) (pointed count mant point_after)
        else append v count (decimal count mant))
unfolding digits
digits-pointed v mant count point_after small fits =
    let to = v.out + v.at in
    let m = emit20-digits v.memory (to + 1) mant count small fits in
    let plain = emit20-digits v.memory to mant count small fits in
    elim (Bool-cases (not (point_after == 0) && ltb point_after count)) [
      | inl t ↦
          let inside : point_after < count = ground arith in
          rw (t, m)
            (written-append v
              (update
                (back_one point_after (placed v.memory (to + 1) count (decimal count mant)) to)
                (to + point_after) b'.')
              (count + 1) (pointed count mant point_after)
              ((λ i.
                  update
                    (λ j.
                      back_at point_after (placed v.memory (to + 1) count (decimal count mant)) to j
                        i)
                    (to + point_after) b'.')
                ∙ λ i j. pointed_at v.memory to count mant point_after j inside i))
      | inr t ↦
          let z : count + 0 ≡ count = omega arith in
          rw (t, z)
            (written-append v (emit20 v.memory to mant count) count (decimal count mant) plain)
    ]
