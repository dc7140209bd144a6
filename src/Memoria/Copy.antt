-- ===== src/Memoria/Copy.antt =====
-- The copy of src/memoria_operor by four words, by words and by bytes is the copy by bytes.
use mmgr.Prelude.{
  ℕ, zero, suc, ◌+◌, ◌-◌, ◌*◌, ◌/◌, ◌%◌, ◌≤◌, ◌≡◌, ◌⊎◌, refl, arith, ap, ◌∙◌, bit_and,
}
use mmgr.Prelude.Bits.{bit_and_mask}
use mmgr.Prelude.Store.{IsBytes, copied, carried, store-IsBytes, update}
use mmgr.Proximus.{Reading, put_word, load_word}
use mmgr.Proximus.Copy.{IsMoved, Apart, IsMoved-zero, IsMoved-then, byte-IsMoved}
use mmgr.Memoria.{carry, cpy_quads, cpy_words, cpy_bytes, cpy}

-- A word carried at an offset is a run of eight bytes there.
pub carry-IsMoved :
    (o : ℕ) (r : Reading)
    → IsBytes r.memory
    → let at = record r { dst = r.dst + o; src = r.src + o } in
      IsMoved 8 at (record (carry o r) { dst = r.dst + (o + 8); src = r.src + (o + 8) })
unfolding carry put_word load_word
carry-IsMoved o r h = record {
  memory = λ j. carried 8 r.memory (r.dst + o) (r.src + o) j h;
  dst = omega arith;
  src = omega arith;
}

pub carry-IsBytes : (o : ℕ) (r : Reading) → IsBytes r.memory → IsBytes (carry o r).memory
unfolding carry put_word load_word
carry-IsBytes o r h = store-IsBytes 8 r.memory (r.dst + o) _ h

abbrev pub shifted : ℕ → Reading → Reading
shifted o r = record r { dst = r.dst + o; src = r.src + o }

quad-IsMoved :
    (r : Reading)
    → IsBytes r.memory
    → Apart 32 r
    → IsMoved 32 r (shifted 32 (carry 24 (carry 16 (carry 8 (carry 0 r)))))
unfolding carry
quad-IsMoved r h apart =
    let r0 = carry 0 r in
    let r1 = carry 8 r0 in
    let r2 = carry 16 r1 in
    let h0 = carry-IsBytes 0 r h in
    let h1 = carry-IsBytes 8 r0 h0 in
    let h2 = carry-IsBytes 16 r1 h1 in
    let a =
      IsMoved-then 0 8 r (shifted 0 r) (shifted 8 r0) (omega arith)
        record { memory = (IsMoved-zero r).memory; dst = refl; src = refl } (carry-IsMoved 0 r h) in
    let b =
      IsMoved-then 8 8 r (shifted 8 r0) (shifted 16 r1) (omega arith) a (carry-IsMoved 8 r0 h0) in
    let c =
      IsMoved-then 16 8 r (shifted 16 r1) (shifted 24 r2) (omega arith) b
        (carry-IsMoved 16 r1 h1) in
    IsMoved-then 24 8 r (shifted 24 r2) (shifted 32 (carry 24 r2)) apart c (carry-IsMoved 24 r2 h2)

quad-IsBytes :
    (r : Reading) → IsBytes r.memory → IsBytes (carry 24 (carry 16 (carry 8 (carry 0 r)))).memory
quad-IsBytes r h = carry-IsBytes 24 _ (carry-IsBytes 16 _ (carry-IsBytes 8 _ (carry-IsBytes 0 r h)))

cpy_quads-IsMoved :
    (n : ℕ) (r : Reading)
    → IsBytes r.memory
    → Apart (32 * n) r
    → IsMoved (32 * n) r (cpy_quads n r) × IsBytes (cpy_quads n r).memory
unfolding cpy_quads
cpy_quads-IsMoved zero r h apart = (IsMoved-zero r, h)
cpy_quads-IsMoved (suc n) r h apart =
    let s = shifted 32 (carry 24 (carry 16 (carry 8 (carry 0 r)))) in
    let first = quad-IsMoved r h (omega arith) in
    let bytes : IsBytes s.memory = quad-IsBytes r h in
    let rest = cpy_quads-IsMoved n s bytes (omega (arith, first.dst, first.src)) in
    let e : 32 * suc n ≡ 32 + 32 * n = omega arith in
    (rw e (IsMoved-then 32 (32 * n) r s (cpy_quads n s) (omega arith) first rest.0), rest.1)

cpy_words-IsMoved :
    (n : ℕ) (r : Reading)
    → IsBytes r.memory
    → Apart (8 * n) r
    → IsMoved (8 * n) r (cpy_words n r) × IsBytes (cpy_words n r).memory
unfolding cpy_words
cpy_words-IsMoved zero r h apart = (IsMoved-zero r, h)
cpy_words-IsMoved (suc n) r h apart =
    let s = shifted 8 (carry 0 r) in
    let c = carry-IsMoved 0 r h in
    let start : IsMoved 0 r (shifted 0 r) = record {
      memory = (IsMoved-zero r).memory;
      dst = refl;
      src = refl;
    } in
    let first : IsMoved 8 r s =
      unfold carry in IsMoved-then 0 8 r (shifted 0 r) s (omega arith) start c in
    let bytes : IsBytes s.memory = carry-IsBytes 0 r h in
    let rest = cpy_words-IsMoved n s bytes (omega (arith, first.dst, first.src)) in
    let e : 8 * suc n ≡ 8 + 8 * n = omega arith in
    (rw e (IsMoved-then 8 (8 * n) r s (cpy_words n s) (omega arith) first rest.0), rest.1)

cpy_bytes-IsMoved : (n : ℕ) (r : Reading) → Apart n r → IsMoved n r (cpy_bytes n r)
unfolding cpy_bytes
cpy_bytes-IsMoved zero r apart = IsMoved-zero r
cpy_bytes-IsMoved (suc n) r apart =
    let s : Reading = record r {
      memory = update r.memory r.dst (r.memory r.src);
      dst = r.dst + 1;
      src = r.src + 1;
    } in
    let e : suc n ≡ 1 + n = omega arith in
    rw e (
      IsMoved-then 1 n r s (cpy_bytes n s) (omega arith) (byte-IsMoved r)
        (cpy_bytes-IsMoved n s (omega arith)))

-- A copy to a place that is apart from its source, or below it: every byte of the run is the source's,
-- and every other byte of the memory stays.
pub cpy-copies :
    (r : Reading) (j : ℕ)
    → IsBytes r.memory
    → (r.dst ≤ r.src) ⊎ (r.src + r.bytes ≤ r.dst)
    → (cpy r).memory j ≡ copied r.bytes r.memory r.dst r.src j
unfolding cpy
cpy-copies r j h apart =
    let tail : bit_and r.bytes 7 ≡ r.bytes % 8 = bit_and_mask 3 r.bytes in
    let w = r.bytes - r.bytes % 8 in
    let q = cpy_quads-IsMoved (w / 32) r h (omega arith) in
    let s = cpy_quads (w / 32) r in
    let ws = cpy_words-IsMoved (w % 32 / 8) s q.1 (omega (arith, q.0.dst, q.0.src)) in
    let t = cpy_words (w % 32 / 8) s in
    let qw = IsMoved-then (32 * (w / 32)) (8 * (w % 32 / 8)) r s t (omega arith) q.0 ws.0 in
    let b = cpy_bytes-IsMoved (r.bytes % 8) t (omega (arith, qw.dst, qw.src)) in
    let all =
      IsMoved-then (32 * (w / 32) + 8 * (w % 32 / 8)) (r.bytes % 8) r t (cpy_bytes (r.bytes % 8) t)
        (omega arith) qw b in
    let whole : 32 * (w / 32) + 8 * (w % 32 / 8) + r.bytes % 8 ≡ r.bytes = omega arith in
    rw tail (all.memory j ∙ ap (λ n. copied n r.memory r.dst r.src j) whole)
