-- ===== src/Bitio/Whole.antt =====
-- The whole bytes that `bitor_put` of src/bitorum_introitus_exitus writes.
use mmgr.Prelude.{
  ℕ, zero, suc, ◌+◌, ◌-◌, ◌*◌, ◌/◌, ◌%◌, ◌^◌, ◌≤◌, ◌<◌, ◌≡◌, refl, arith, ap, ◌∙◌, sym,
}
use mmgr.Prelude.{bit_and, bit_or}
use mmgr.Prelude.Bits.{bit_and_mask, bit_or_fields_swap, two-pow-add}
use native.Mathlib.Decide.{dec_lt}
use mmgr.Carcer.Series.{update}
use mmgr.Bitio.{Writer, Pending, put_bytes, put_whole}
use mmgr.Bitio.Stream.{stream, pending, split-pow, stream-byte}

-- The residue with a byte's low bits above it.
joined :
    (k r work high : ℕ)
    → r < 2 ^ k
    → work % 256 * 2 ^ k % 256 ≡ high * 2 ^ k
    → bit_or r (bit_and work 255 * 2 ^ k % 256) ≡ high * 2 ^ k + r
joined k r work high fits e =
    let chunk : bit_and work 255 ≡ work % 256 = bit_and_mask 8 work in
    rw chunk (rw e (bit_or_fields_swap k high r fits))

-- The first byte carries the residue and the low bits of the work, and the rest stands above it.
byte-first :
    (k r work x : ℕ)
    → k < 8
    → r < 2 ^ k
    → bit_or r (bit_and work 255 * 2 ^ k % 256) + 256 * (work / 2 ^ (8 - k) + x)
      ≡ r + 2 ^ k * (work + 2 ^ (8 - k) * x)
byte-first zero r work x h fits = omega (arith, joined 0 r work (work % 256) fits (omega arith))
byte-first (suc zero) r work x h fits =
    omega (arith, joined 1 r work (work % 128) fits (omega arith))
byte-first (suc (suc zero)) r work x h fits =
    omega (arith, joined 2 r work (work % 64) fits (omega arith))
byte-first (suc (suc (suc zero))) r work x h fits =
    omega (arith, joined 3 r work (work % 32) fits (omega arith))
byte-first (suc (suc (suc (suc zero)))) r work x h fits =
    omega (arith, joined 4 r work (work % 16) fits (omega arith))
byte-first (suc (suc (suc (suc (suc zero))))) r work x h fits =
    omega (arith, joined 5 r work (work % 8) fits (omega arith))
byte-first (suc (suc (suc (suc (suc (suc zero)))))) r work x h fits =
    omega (arith, joined 6 r work (work % 4) fits (omega arith))
byte-first (suc (suc (suc (suc (suc (suc (suc zero))))))) r work x h fits =
    omega (arith, joined 7 r work (work % 2) fits (omega arith))
byte-first (suc (suc (suc (suc (suc (suc (suc (suc k)))))))) r work x h fits = absurd (omega arith)

pub times-le : (a b c : ℕ) → a ≤ b → a * c ≤ b * c
times-le a b c h = grind arith

-- Bits taken off a number that fits a count leave one that fits the rest.
rest-fits : (k l work : ℕ) → work < 2 ^ (k + l) → work / 2 ^ k < 2 ^ l
rest-fits k l work h = elim (dec_lt (work / 2 ^ k) (2 ^ l)) [
  | yes fits ↦ fits
  | no over ↦
      let many : 2 ^ l * 2 ^ k ≤ work / 2 ^ k * 2 ^ k =
        times-le (2 ^ l) (work / 2 ^ k) (2 ^ k) (omega arith) in
      let whole = two-pow-add k l in absurd (omega arith)
]

-- The loop writes the low bytes of the work.
put_bytes_lem :
    (n at above : ℕ) (p : Pending)
    → 8 * n ≤ p.left
    → p.left < 2 ^ 62
    → p.work < 2 ^ p.left
    → let p' = put_bytes n at p in
      (stream p'.out (at + n) (pending p' above) ≡ stream p.out at (pending p above))
      × (p'.left ≡ p.left - 8 * n)
      × (p'.work < 2 ^ p'.left)
unfolding put_bytes
put_bytes_lem zero at above p h s f =
    let e : at + 0 ≡ at = omega arith in rw e (refl, omega arith, f)
put_bytes_lem (suc n) at above p h s f =
    let p1 : Pending = record {
      out = update p.out at (bit_and p.work 255);
      work = p.work / 2 ^ 8;
      left = (p.left + 2 ^ 64 - 8) % 2 ^ 64;
    } in
    let l : p1.left ≡ p.left - 8 = omega arith in
    let whole : p.left ≡ 8 + p1.left = omega arith in
    let f1 : p1.work < 2 ^ p1.left = rest-fits 8 p1.left p.work (rw (← whole) f) in
    let ih = put_bytes_lem n (at + 1) above p1 (omega arith) (omega arith) f1 in
    let e : at + suc n ≡ at + 1 + n = omega arith in
    let chunk : bit_and p.work 255 ≡ p.work % 256 = bit_and_mask 8 p.work in
    let split = split-pow 8 p1.left above in
    let place : 2 ^ p.left * above ≡ 2 ^ (8 + p1.left) * above = ap (λ m. 2 ^ m * above) whole in
    let same : bit_and p.work 255 + 256 * pending p1 above ≡ pending p above = omega arith in
    rw e (
      ih.0
          ∙ stream-byte p.out at (bit_and p.work 255) (pending p1 above)
          ∙ ap (stream p.out at) same,
      omega arith,
      ih.2,
    )

-- The whole bytes of a put, the first with the residue in it.
pub put_whole_lem :
    (whole above : ℕ) (w : Writer) (p : Pending)
    → 0 < whole
    → w.bit_count < 8
    → w.residue < 2 ^ w.bit_count
    → 8 * whole ≤ w.bit_count + p.left
    → p.left < 2 ^ 60
    → p.work < 2 ^ p.left
    → let p' = put_whole whole w p in
      (stream p'.out (w.bytes_written + whole) (pending p' above)
        ≡ stream p.out w.bytes_written (w.residue + 2 ^ w.bit_count * pending p above))
      × (p'.left ≡ w.bit_count + p.left - 8 * whole)
      × (p'.work < 2 ^ p'.left)
unfolding put_whole
put_whole_lem whole above w p h k r many s f =
    let take : (8 + 2 ^ 64 - w.bit_count) % 2 ^ 64 ≡ 8 - w.bit_count = omega arith in
    let first = bit_or w.residue (bit_and p.work 255 * 2 ^ w.bit_count % 256) in
    let rest : ℕ = p.left - (8 - w.bit_count) in
    let left : (p.left + 2 ^ 64 - (8 - w.bit_count)) % 2 ^ 64 ≡ rest = omega arith in
    let p1 : Pending = record {
      out = update p.out w.bytes_written first;
      work = p.work / 2 ^ (8 - w.bit_count);
      left = rest;
    } in
    let total : p.left ≡ 8 - w.bit_count + rest = omega arith in
    let f1 : p1.work < 2 ^ p1.left = rest-fits (8 - w.bit_count) rest p.work (rw (← total) f) in
    let l =
      put_bytes_lem (whole - 1) (w.bytes_written + 1) above p1 (omega arith) (omega arith) f1 in
    let end : w.bytes_written + whole ≡ w.bytes_written + 1 + (whole - 1) = omega arith in
    let split = split-pow (8 - w.bit_count) rest above in
    let place : 2 ^ p.left * above ≡ 2 ^ (8 - w.bit_count + rest) * above =
      ap (λ m. 2 ^ m * above) total in
    let high : pending p above ≡ p.work + 2 ^ (8 - w.bit_count) * (2 ^ rest * above) =
      omega arith in
    let same : first + 256 * pending p1 above ≡ w.residue + 2 ^ w.bit_count * pending p above =
      byte-first w.bit_count w.residue p.work (2 ^ rest * above) k r
      ∙ ap (λ x. w.residue + 2 ^ w.bit_count * x) (sym high) in
    rw (take, left, end)
      (
        l.0
            ∙ stream-byte p.out w.bytes_written first (pending p1 above)
            ∙ ap (stream p.out w.bytes_written) same,
        omega arith,
        l.2,
      )
