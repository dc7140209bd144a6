-- ===== src/Bitio/Tail.antt =====
-- The residue that `bitor_put` of src/bitorum_introitus_exitus keeps.
use mmgr.Prelude.{ℕ, ◌+◌, ◌-◌, ◌*◌, ◌%◌, ◌^◌, ◌≤◌, ◌<◌, ◌≡◌, inl, inr, refl, arith, ap, ◌∙◌, sym}
use mmgr.Prelude.{bit_and, bit_or, ◌==◌, Bool-cases}
use mmgr.Prelude.Bits.{bit_and_mask, bit_or_fields_swap, two-pow-add}
use mathlib.Core.Path.{subst}
use native.Mathlib.Nat.{mod-eq_of_lt, pow-le-pow_right}
use mmgr.Bitio.{Writer, Pending, put_tail}
use mmgr.Bitio.Stream.{pending, split-pow}
use mmgr.Bitio.Whole.{times-le}

-- The bits that fill no byte join the residue.
pub put_tail_lem :
    (p : Pending) (w : Writer) (above : ℕ)
    → w.bit_count + p.left < 8
    → p.work < 2 ^ p.left
    → w.residue < 2 ^ w.bit_count
    → let w' = put_tail p w in
      (w'.residue + 2 ^ w'.bit_count * above ≡ w.residue + 2 ^ w.bit_count * pending p above)
      × (w'.bit_count ≡ w.bit_count + p.left)
      × (w'.residue < 2 ^ w'.bit_count)
      × (w' ≡ record w { residue = w'.residue; bit_count = w'.bit_count })
unfolding put_tail
put_tail_lem p w above h f r = elim (Bool-cases (p.left == 0)) [
  | inl e ↦
      let none : p.left ≡ 0 = ground arith in
      let f0 : p.work < 2 ^ 0 = subst (λ m. p.work < 2 ^ m) none f in
      let place : 2 ^ p.left * above ≡ above = rw none (omega arith) in
      let same : pending p above ≡ above = omega arith in
      rw e (ap (λ x. w.residue + 2 ^ w.bit_count * x) (sym same), omega arith, r, refl)
  | inr e ↦
      let count : bit_and p.left 7 ≡ p.left = omega (arith, bit_and_mask 3 p.left) in
      let tail : bit_and p.work (2 ^ bit_and p.left 7 - 1) ≡ p.work =
        rw count (bit_and_mask p.left p.work ∙ mod-eq_of_lt f) in
      let sum : (w.bit_count + p.left) % 2 ^ 64 ≡ w.bit_count + p.left = omega arith in
      let split = split-pow w.bit_count p.left above in
      let room = two-pow-add w.bit_count p.left in
      let most : 2 ^ (w.bit_count + p.left) ≤ 2 ^ 7 =
        pow-le-pow_right {n = 2} (omega arith) {i = w.bit_count + p.left} {j = 7} (omega arith) in
      let under = times-le (p.work + 1) (2 ^ p.left) (2 ^ w.bit_count) (omega arith) in
      let byte : p.work * 2 ^ w.bit_count % 256 ≡ p.work * 2 ^ w.bit_count = omega arith in
      let both : bit_or w.residue (p.work * 2 ^ w.bit_count)
          ≡ p.work * 2 ^ w.bit_count + w.residue =
        bit_or_fields_swap w.bit_count p.work w.residue r in
      rw (e, tail, sum, byte, both) (omega arith, refl, omega arith, refl)
]
