-- ===== src/Ring/Moved.antt =====
-- `ring_move` of src/memoria_anularis is the copy by bytes.
use mmgr.Prelude.{ℕ, zero, suc, ◌+◌, ◌-◌, ◌*◌, ◌/◌, ◌%◌, ◌<◌, ◌≡◌, refl, arith, ap, ◌∙◌}
use mmgr.Prelude.{bit_and, Bool, true, false, not, if◌then◌else◌, ◌==◌}
use mathlib.Core.Path.{subst}
use mmgr.Prelude.Store.{IsBytes, copied, carried, store-IsBytes}
use mmgr.Proximus.{Reading}
use mmgr.Proximus.Copy.{IsMoved, Apart, IsMoved-zero, IsMoved-then}
use mmgr.Memoria.{carry}
use mmgr.Memoria.Copy.{carry-IsMoved, carry-IsBytes, shifted}
use mmgr.Ring.Move.{copy_2, copy_4, copy_8, advanced, move_eights, ring_tail, ring_move}

-- A stage carries a run, and leaves bytes.
record IsRun (n : ℕ) (r s : Reading) : Type 0 where
  pub moved : IsMoved n r s
  pub bytes : IsBytes s.memory

IsRun-then :
    (k n : ℕ) (r s t : Reading) → Apart (k + n) r → IsRun k r s → IsRun n s t → IsRun (k + n) r t
IsRun-then k n r s t apart a b = record {
  moved = IsMoved-then k n r s t apart a.moved b.moved;
  bytes = b.bytes;
}

copy_1-IsRun :
    (o : ℕ) (r : Reading) → IsBytes r.memory → IsRun 8 (shifted o r) (shifted (o + 8) (carry o r))
unfolding carry
copy_1-IsRun o r h = record { moved = carry-IsMoved o r h; bytes = carry-IsBytes o r h }

copy_2-IsRun :
    (o : ℕ) (r : Reading)
    → IsBytes r.memory
    → Apart 16 (shifted o r)
    → IsRun 16 (shifted o r) (shifted (o + 16) (copy_2 o r))
unfolding copy_2
copy_2-IsRun o r h apart =
    let a = copy_1-IsRun o r h in
    let b = copy_1-IsRun (o + 8) (carry o r) a.bytes in
    let e : o + 8 + 8 ≡ o + 16 = omega arith in
    subst (λ x. IsRun 16 (shifted o r) (shifted x (copy_2 o r))) e
      (IsRun-then 8 8 (shifted o r) (shifted (o + 8) (carry o r)) _ apart a b)

copy_4-IsRun :
    (o : ℕ) (r : Reading)
    → IsBytes r.memory
    → Apart 32 (shifted o r)
    → IsRun 32 (shifted o r) (shifted (o + 32) (copy_4 o r))
unfolding copy_4
copy_4-IsRun o r h apart =
    let a = copy_2-IsRun o r h (omega arith) in
    let b = copy_2-IsRun (o + 16) (copy_2 o r) a.bytes (omega (arith, a.moved.dst, a.moved.src)) in
    let e : o + 16 + 16 ≡ o + 32 = omega arith in
    subst (λ x. IsRun 32 (shifted o r) (shifted x (copy_4 o r))) e
      (IsRun-then 16 16 (shifted o r) (shifted (o + 16) (copy_2 o r)) _ apart a b)

copy_8-IsRun :
    (o : ℕ) (r : Reading)
    → IsBytes r.memory
    → Apart 64 (shifted o r)
    → IsRun 64 (shifted o r) (shifted (o + 64) (copy_8 o r))
unfolding copy_8
copy_8-IsRun o r h apart =
    let a = copy_4-IsRun o r h (omega arith) in
    let b = copy_4-IsRun (o + 32) (copy_4 o r) a.bytes (omega (arith, a.moved.dst, a.moved.src)) in
    let e : o + 32 + 32 ≡ o + 64 = omega arith in
    subst (λ x. IsRun 64 (shifted o r) (shifted x (copy_8 o r))) e
      (IsRun-then 32 32 (shifted o r) (shifted (o + 32) (copy_4 o r)) _ apart a b)

-- A stage that begins where the reading stands.
IsRun-start : (n : ℕ) (r s : Reading) → IsRun n (shifted 0 r) s → IsRun n r s
IsRun-start n r s a =
    let d : r.dst + 0 ≡ r.dst = omega arith in
    let x : r.src + 0 ≡ r.src = omega arith in
    record {
      moved = record {
        memory = λ j.
            a.moved.memory j
            ∙ ap (λ y. copied n r.memory y (r.src + 0) j) d
            ∙ ap (λ y. copied n r.memory r.dst y j) x;
        dst = a.moved.dst ∙ ap (λ y. y + n) d;
        src = a.moved.src ∙ ap (λ y. y + n) x;
      };
      bytes = a.bytes;
    }

IsRun-zero : (r : Reading) → IsBytes r.memory → IsRun 0 r r
IsRun-zero r h = record { moved = IsMoved-zero r; bytes = h }

move_eights-IsRun :
    (n : ℕ) (r : Reading) → IsBytes r.memory → Apart (64 * n) r → IsRun (64 * n) r (move_eights n r)
unfolding move_eights
move_eights-IsRun zero r h apart = IsRun-zero r h
move_eights-IsRun (suc n) r h apart =
    let s = advanced 64 (copy_8 0 r) in
    let a : IsRun 64 r s =
      unfold advanced in IsRun-start 64 r s (copy_8-IsRun 0 r h (omega arith)) in
    let rest = move_eights-IsRun n s a.bytes (omega (arith, a.moved.dst, a.moved.src)) in
    let e : 64 * suc n ≡ 64 + 64 * n = omega arith in
    rw e (IsRun-then 64 (64 * n) r s (move_eights n s) (omega arith) a rest)

-- A stage that is made where a test holds.
when :
    (b : Bool) (n : ℕ) (r s : Reading)
    → IsBytes r.memory
    → (b ≡ true → IsRun n r s)
    → IsRun (if b then n else 0) r (if b then s else r)
when true n r s h f = f refl
when false n r s h f = IsRun-zero r h

tail-IsRun :
    (n k : ℕ) (r : Reading)
    → IsBytes r.memory
    → IsRun (if not (bit_and k n == 0) then n else 0) r (ring_tail n k r)
unfolding ring_tail advanced
tail-IsRun n k r h = when (not (bit_and k n == 0)) n r _ h (λ e. record {
  moved = record { memory = λ j. carried n r.memory r.dst r.src j h; dst = refl; src = refl };
  bytes = store-IsBytes n r.memory r.dst _ h;
})

-- The bits of a number below 8 are its parts.
bits_of :
    (k : ℕ)
    → k < 8
    → (if not (bit_and k 4 == 0) then 4 else 0)
        + (if not (bit_and k 2 == 0) then 2 else 0)
        + (if not (bit_and k 1 == 0) then 1 else 0)
      ≡ k
bits_of zero h = refl
bits_of (suc zero) h = refl
bits_of (suc (suc zero)) h = refl
bits_of (suc (suc (suc zero))) h = refl
bits_of (suc (suc (suc (suc zero)))) h = refl
bits_of (suc (suc (suc (suc (suc zero))))) h = refl
bits_of (suc (suc (suc (suc (suc (suc zero)))))) h = refl
bits_of (suc (suc (suc (suc (suc (suc (suc zero))))))) h = refl
bits_of (suc (suc (suc (suc (suc (suc (suc (suc k)))))))) h = absurd (omega arith)

words_of :
    (k : ℕ)
    → k < 8
    → (if not (bit_and k 4 == 0) then 32 else 0)
        + (if not (bit_and k 2 == 0) then 16 else 0)
        + (if not (bit_and k 1 == 0) then 8 else 0)
      ≡ 8 * k
words_of k h = let b = bits_of k h in ground arith

words_4-IsRun :
    (r : Reading) → IsBytes r.memory → Apart 32 r → IsRun 32 r (advanced 32 (copy_4 0 r))
unfolding advanced
words_4-IsRun r h apart = IsRun-start 32 r _ (copy_4-IsRun 0 r h (omega arith))

words_2-IsRun :
    (r : Reading) → IsBytes r.memory → Apart 16 r → IsRun 16 r (advanced 16 (copy_2 0 r))
unfolding advanced
words_2-IsRun r h apart = IsRun-start 16 r _ (copy_2-IsRun 0 r h (omega arith))

words_1-IsRun : (r : Reading) → IsBytes r.memory → IsRun 8 r (advanced 8 (carry 0 r))
unfolding advanced
words_1-IsRun r h = IsRun-start 8 r _ (copy_1-IsRun 0 r h)

-- The words that eights leave.
abbrev words_left : ℕ → Reading → Reading
words_left left r =
    let r4 = if not (bit_and left 4 == 0) then advanced 32 (copy_4 0 r) else r in
    let r2 = if not (bit_and left 2 == 0) then advanced 16 (copy_2 0 r4) else r4 in
    if not (bit_and left 1 == 0) then advanced 8 (carry 0 r2) else r2

words_left-IsRun :
    (left : ℕ) (r : Reading)
    → left < 8
    → IsBytes r.memory
    → Apart (8 * left) r
    → IsRun (8 * left) r (words_left left r)
words_left-IsRun left r small h apart =
    let n4 : ℕ = if not (bit_and left 4 == 0) then 32 else 0 in
    let n2 : ℕ = if not (bit_and left 2 == 0) then 16 else 0 in
    let n1 : ℕ = if not (bit_and left 1 == 0) then 8 else 0 in
    let r4 = if not (bit_and left 4 == 0) then advanced 32 (copy_4 0 r) else r in
    let r2 = if not (bit_and left 2 == 0) then advanced 16 (copy_2 0 r4) else r4 in
    let parts : n4 + n2 + n1 ≡ 8 * left = words_of left small in
    let a4 =
      when (not (bit_and left 4 == 0)) 32 r (advanced 32 (copy_4 0 r)) h
        (λ e. words_4-IsRun r h (ground arith)) in
    let a2 =
      when (not (bit_and left 2 == 0)) 16 r4 (advanced 16 (copy_2 0 r4)) a4.bytes
        (λ e. words_2-IsRun r4 a4.bytes (ground (arith, a4.moved.dst, a4.moved.src))) in
    let a42 = IsRun-then n4 n2 r r4 r2 (omega arith) a4 a2 in
    let a1 =
      when (not (bit_and left 1 == 0)) 8 r2 (advanced 8 (carry 0 r2)) a42.bytes
        (λ e. words_1-IsRun r2 a42.bytes) in
    subst (λ n. IsRun n r (words_left left r)) parts
      (IsRun-then (n4 + n2) n1 r r2 _ (omega arith) a42 a1)

tails-IsRun :
    (k : ℕ) (r : Reading)
    → k < 8
    → IsBytes r.memory
    → Apart k r
    → IsRun k r (ring_tail 1 k (ring_tail 2 k (ring_tail 4 k r)))
tails-IsRun k r small h apart =
    let m4 : ℕ = if not (bit_and k 4 == 0) then 4 else 0 in
    let m2 : ℕ = if not (bit_and k 2 == 0) then 2 else 0 in
    let m1 : ℕ = if not (bit_and k 1 == 0) then 1 else 0 in
    let parts : m4 + m2 + m1 ≡ k = bits_of k small in
    let t4 = ring_tail 4 k r in
    let t2 = ring_tail 2 k t4 in
    let a4 = tail-IsRun 4 k r h in
    let a2 = IsRun-then m4 m2 r t4 t2 (omega arith) a4 (tail-IsRun 2 k t4 a4.bytes) in
    subst (λ n. IsRun n r (ring_tail 1 k t2)) parts
      (IsRun-then (m4 + m2) m1 r t2 _ (omega arith) a2 (tail-IsRun 1 k t2 a2.bytes))

pub ring_move-IsMoved :
    (r : Reading)
    → IsBytes r.memory
    → Apart r.bytes r
    → IsMoved r.bytes r (ring_move r) × IsBytes (ring_move r).memory
unfolding ring_move
ring_move-IsMoved r h apart =
    let words = r.bytes / 8 in
    let remainder = r.bytes - words * 8 in
    let left = words % 8 in
    let n8 = 64 * (words / 8) in
    let r8 = move_eights (words / 8) r in
    let r1 = words_left left r8 in
    let whole : n8 + 8 * left + remainder ≡ r.bytes = omega arith in
    let a8 = move_eights-IsRun (words / 8) r h (omega arith) in
    let a1 =
      words_left-IsRun left r8 (omega arith) a8.bytes (omega (arith, a8.moved.dst, a8.moved.src)) in
    let b = IsRun-then n8 (8 * left) r r8 r1 (omega arith) a8 a1 in
    let c =
      tails-IsRun remainder r1 (omega arith) b.bytes (omega (arith, b.moved.dst, b.moved.src)) in
    let d = IsRun-then (n8 + 8 * left) remainder r r1 _ (omega arith) b c in
    (subst (λ n. IsMoved n r (ring_move r)) whole d.moved, d.bytes)
