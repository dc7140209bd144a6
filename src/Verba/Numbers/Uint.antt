-- ===== src/Verba/Numbers/Uint.antt =====
-- The numbers that src/verba_scribo writes in a base are their digits, and read back as themselves.
use mmgr.Prelude.{
  ℕ, zero, suc, ◌+◌, ◌-◌, ◌/◌, ◌^◌, ◌≤◌, ◌<◌, ◌≡◌, ◌⊎◌, refl, arith, ap, ◌∙◌, inl, inr,
}
use mmgr.Prelude.{true, if◌then◌else◌, ◌==◌, ltb, Bool-cases}
use native.Mathlib.Nat.{pow-le-pow_right, mod-lt, mod-eq_of_lt}
use mmgr.Verba.{Verba, room}
use mmgr.Verba.Text.{placed, placed-agree, digit, hex_char, number, number-agree, number-digit}
use mmgr.Verba.Append.{append, append_in, written-append}
use mmgr.Verba.Decimal.{emit20, digits10}
use mmgr.Verba.Decimal.Count.{digits10-least}
use mmgr.Verba.Decimal.Emit.{emit20-digits}
use mmgr.Verba.Numbers.{shift_digits, shift_count, bits_per_digit, uint_digits, uint}
use mmgr.Verba.Numbers.Digits.{shift_digits-digit, shift_count-IsLeast, IsLeast}

-- The base that a number is written in.
abbrev pub radix : ℕ → ℕ
radix base = if base == 16 then 16 else if base == 8 then 8 else 10

pub digit-lt : (b n value i : ℕ) → 0 < b → digit b n value i < b
unfolding digit
digit-lt b zero value i h = h
digit-lt b (suc n) value i h =
    let ih = digit-lt b n (value / b) i h in let last = mod-lt value h in ground arith

low_char : (d : ℕ) → d < 10 → b'0' + d ≡ hex_char d
low_char d h = ground arith

pub emit20-hex_char :
    (m : ℕ → ℕ) (to value n : ℕ)
    → value < 2 ^ 64
    → value < 10 ^ n
    → emit20 m to value n ≡ placed m to n (λ i. hex_char (digit 10 n value i))
emit20-hex_char m to value n small fits =
    emit20-digits m to value n small fits
    ∙ placed-agree m to n (λ i. b'0' + digit 10 n value i) (λ i. hex_char (digit 10 n value i))
        (λ i l. low_char (digit 10 n value i) (digit-lt 10 n value i (omega arith)))

-- A count that is raised to a least one.
abbrev IsEnough : ℕ → ℕ → ℕ → ℕ → Type 0
IsEnough b value min n = (value < b ^ n) × (min ≤ n) × ((n ≡ 1) ⊎ (n ≡ min) ⊎ (b ^ (n - 1) ≤ value))

raised :
    (b value min k : ℕ)
    → 0 < b
    → IsLeast b value k
    → IsEnough b value min (if ltb k min then min else k)
raised b value min k pos (fits, least, some_digit) = elim (Bool-cases (ltb k min)) [
  | inl t ↦
      let more : k ≤ min = ground arith in
      let grows = pow-le-pow_right {n = b} pos {i = k} {j = min} more in
      rw t (omega arith, omega arith, inr (inl refl))
  | inr t ↦ rw t (fits, ground arith, elim least [ inl one ↦ inl one | inr low ↦ inr (inr low) ])
]

-- A number of 64 bits is written in base 16 or 8 where that is asked for, and else in base 10, as its
-- digits in that base, whole or refused; they hold it, are as many as asked for at least, and no more
-- than that or than it needs.
pub uint-append :
    (v : Verba) (val base min : ℕ)
    → val < 2 ^ 64
    → let b = radix base in
      let n = uint_digits val base min in
      (uint v val base min ≡ append v n (λ i. hex_char (digit b n val i)))
      × (val < b ^ n)
      × (min ≤ n)
      × ((n ≡ 1) ⊎ (n ≡ min) ⊎ (b ^ (n - 1) ≤ val))
unfolding uint uint_digits bits_per_digit
uint-append v val base min small = elim (Bool-cases (base == 16)) [
  | inl t ↦
      let e = raised 16 val min _ (omega arith) (shift_count-IsLeast 22 4 val (omega arith)) in
      let n = if ltb (shift_count 22 4 val) min then min else shift_count 22 4 val in
      let to = v.out + v.at in
      rw t (
        written-append v (shift_digits n 4 v.memory to val) n _
            (shift_digits-digit n 4 v.memory to val),
        e.0,
        e.1,
        e.2,
      )
  | inr t ↦ elim (Bool-cases (base == 8)) [
    | inl u ↦
        let e = raised 8 val min _ (omega arith) (shift_count-IsLeast 22 3 val (omega arith)) in
        let n = if ltb (shift_count 22 3 val) min then min else shift_count 22 3 val in
        let to = v.out + v.at in
        rw (t, u)
          (
            written-append v (shift_digits n 3 v.memory to val) n _
                (shift_digits-digit n 3 v.memory to val),
            e.0,
            e.1,
            e.2,
          )
    | inr u ↦
        let c = digits10-least val small in
        let e = raised 10 val min (digits10 val) (omega arith) (c.0, c.1, c.2) in
        let n = if ltb (digits10 val) min then min else digits10 val in
        let to = v.out + v.at in
        rw (t, u)
          (
            written-append v (emit20 v.memory to val n) n _
                (emit20-hex_char v.memory to val n small e.0),
            e.0,
            e.1,
            e.2,
          )
  ]
]

-- The value of a digit's character.
abbrev pub char_value : ℕ → ℕ
char_value c = if ltb c 58 then c - b'0' else c - 87

char_lem : (d : ℕ) → char_value (hex_char d) ≡ d
char_lem d = ground arith

-- A number of 64 bits that there is room for reads back from the buffer, by the values of its digits'
-- characters, as itself.
pub uint-number :
    (v : Verba) (val base min : ℕ)
    → val < 2 ^ 64
    → room v (uint_digits val base min) ≡ true
    → number
        (radix base)
        (uint_digits val base min)
        (λ i. char_value ((uint v val base min).memory (v.out + v.at + i)))
      ≡ val
uint-number v val base min small fits =
    let b = radix base in
    let n = uint_digits val base min in
    let u = uint-append v val base min small in
    number-agree b n (λ i. char_value ((uint v val base min).memory (v.out + v.at + i)))
      (digit b n val)
      (λ i l.
        ap (λ w. char_value (w.memory (v.out + v.at + i))) u.0
        ∙ ap char_value (append_in v n i (λ i. hex_char (digit b n val i)) fits l)
        ∙ char_lem (digit b n val i))
    ∙ number-digit b n val
    ∙ mod-eq_of_lt u.1
