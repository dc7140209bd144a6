-- ===== src/Memoria/Fill.antt =====
-- The fill of src/memoria_operor by words is the fill by bytes.
use mmgr.Prelude.{
  ℕ, zero, suc, ◌+◌, ◌-◌, ◌*◌, ◌/◌, ◌%◌, ◌^◌, ◌<◌, ◌≡◌, inl, inr, refl, arith, ap, ◌∙◌, bit_and,
}
use mmgr.Prelude.{◌&&◌, if◌then◌else◌, leb, ltb, ◌==◌, Bool-cases}
use native.Mathlib.Decide.{dec_lt}
use mmgr.Prelude.Bits.{bit_and_mask}
use mmgr.Prelude.Store.{store, update}
use mmgr.Proximus.{put_word}
use mmgr.Memoria.{Filling, fill_word, set_quads, set_words, set_bytes, set}

-- The bytes of `n` from an address on set to one value.
unfoldable pub filled : ℕ → (ℕ → ℕ) → ℕ → ℕ → ℕ → ℕ
filled n m dst v j = if leb dst j && ltb j (dst + n) then v else m j

-- Two fills side by side.
filled-then :
    (k n : ℕ) (m m' : ℕ → ℕ) (dst v j : ℕ)
    → m' j ≡ filled k m dst v j
    → filled n m' (dst + k) v j ≡ filled (k + n) m dst v j
unfolding filled
filled-then k n m m' dst v j h = elim (dec_lt j (dst + k)) [
  | yes l ↦ ground arith
  | no l ↦ ground arith
]

byte-filled : (m : ℕ → ℕ) (dst v j : ℕ) → update m dst v j ≡ filled 1 m dst v j
unfolding filled
byte-filled m dst v j = elim (Bool-cases (j == dst)) [ inl e ↦ ground arith | inr e ↦ ground arith ]

-- A byte repeated.
repeated : ℕ → ℕ → ℕ
repeated zero v = 0
repeated (suc n) v = v + 256 * repeated n v

store-filled :
    (n : ℕ) (m : ℕ → ℕ) (dst v j : ℕ)
    → v < 256
    → store n m dst (repeated n v) j ≡ filled n m dst v j
unfolding store repeated
store-filled zero m dst v j h = unfold filled in ground arith
store-filled (suc n) m dst v j h =
    let low : (v + 256 * repeated n v) % 256 ≡ v = omega arith in
    let high : (v + 256 * repeated n v) / 256 ≡ repeated n v = omega arith in
    let e : suc n ≡ 1 + n = omega arith in
    rw (low, high, e)
      (store-filled n (update m dst v) (dst + 1) v j h
        ∙ filled-then 1 n m (update m dst v) dst v j (byte-filled m dst v j))

word-filled :
    (m : ℕ → ℕ) (dst v j : ℕ) → v < 256 → put_word m dst (fill_word v) j ≡ filled 8 m dst v j
unfolding put_word fill_word
word-filled m dst v j h =
    let e : 0x0101_0101_0101_0101 * v % 2 ^ 64 ≡ repeated 8 v = unfold repeated in omega arith in
    rw e (store-filled 8 m dst v j h)

-- What a run of the loops leaves.
record IsFilled (n : ℕ) (f f' : Filling) : Type 0 where
  pub memory : (j : ℕ) → f'.memory j ≡ filled n f.memory f.dst f.val j
  pub dst : f'.dst ≡ f.dst + n
  pub val : f'.val ≡ f.val

IsFilled-zero : (f : Filling) → IsFilled 0 f f
unfolding filled
IsFilled-zero f = record { memory = λ j. ground arith; dst = omega arith; val = refl }

IsFilled-then : (k n : ℕ) (f g h : Filling) → IsFilled k f g → IsFilled n g h → IsFilled (k + n) f h
IsFilled-then k n f g h a b = record {
  memory = λ j.
      b.memory j
      ∙ ap (λ d. filled n g.memory d g.val j) a.dst
      ∙ ap (λ v. filled n g.memory (f.dst + k) v j) a.val
      ∙ filled-then k n f.memory g.memory f.dst f.val j (a.memory j);
  dst = omega (arith, a.dst, b.dst);
  val = b.val ∙ a.val;
}

-- A word at the place reached.
abbrev worded : Filling → Filling
worded f = record f { memory = put_word f.memory f.dst (fill_word f.val); dst = f.dst + 8 }

word-IsFilled : (f : Filling) → f.val < 256 → IsFilled 8 f (worded f)
word-IsFilled f h = record {
  memory = λ j. word-filled f.memory f.dst f.val j h;
  dst = refl;
  val = refl;
}

set_words-IsFilled : (n : ℕ) (f : Filling) → f.val < 256 → IsFilled (8 * n) f (set_words n f)
unfolding set_words
set_words-IsFilled zero f h = IsFilled-zero f
set_words-IsFilled (suc n) f h =
    let e : 8 * suc n ≡ 8 + 8 * n = omega arith in
    rw e (
      IsFilled-then 8 (8 * n) f (worded f) (set_words n (worded f)) (word-IsFilled f h)
        (set_words-IsFilled n (worded f) h))

set_quads-IsFilled : (n : ℕ) (f : Filling) → f.val < 256 → IsFilled (32 * n) f (set_quads n f)
unfolding set_quads
set_quads-IsFilled zero f h = IsFilled-zero f
set_quads-IsFilled (suc n) f h =
    let g = worded f in
    let k = worded g in
    let l = worded k in
    let two = IsFilled-then 8 8 f g k (word-IsFilled f h) (word-IsFilled g h) in
    let three = IsFilled-then 16 8 f k l two (word-IsFilled k h) in
    let four = IsFilled-then 24 8 f l (worded l) three (word-IsFilled l h) in
    let fill = fill_word f.val in
    let m0 = put_word f.memory f.dst fill in
    let m1 = put_word m0 (f.dst + 8) fill in
    let m2 = put_word m1 (f.dst + 16) fill in
    let next : Filling = record f { memory = put_word m2 (f.dst + 24) fill; dst = f.dst + 32 } in
    let second : f.dst + 8 + 8 ≡ f.dst + 16 = omega arith in
    let third : f.dst + 16 + 8 ≡ f.dst + 24 = omega arith in
    let fourth : f.dst + 24 + 8 ≡ f.dst + 32 = omega arith in
    let round : IsFilled 32 f next = rw (second, third, fourth) at four in
    let e : 32 * suc n ≡ 32 + 32 * n = omega arith in
    rw e (IsFilled-then 32 (32 * n) f next (set_quads n next) round (set_quads-IsFilled n next h))

set_bytes-IsFilled : (n : ℕ) (f : Filling) → IsFilled n f (set_bytes n f)
unfolding set_bytes
set_bytes-IsFilled zero f = IsFilled-zero f
set_bytes-IsFilled (suc n) f =
    let g : Filling = record f { memory = update f.memory f.dst f.val; dst = f.dst + 1 } in
    let first : IsFilled 1 f g = record {
      memory = λ j. byte-filled f.memory f.dst f.val j;
      dst = refl;
      val = refl;
    } in
    let e : suc n ≡ 1 + n = omega arith in
    rw e (IsFilled-then 1 n f g (set_bytes n g) first (set_bytes-IsFilled n g))

-- A fill with a byte sets every byte of the run to it, and every other byte of the memory stays.
pub set-fills :
    (f : Filling) (j : ℕ) → f.val < 256 → (set f).memory j ≡ filled f.bytes f.memory f.dst f.val j
unfolding set
set-fills f j h =
    let tail : bit_and f.bytes 7 ≡ f.bytes % 8 = bit_and_mask 3 f.bytes in
    let w = f.bytes - f.bytes % 8 in
    let q = set_quads-IsFilled (w / 32) f h in
    let g = set_quads (w / 32) f in
    let ws = set_words-IsFilled (w % 32 / 8) g (omega (arith, q.val)) in
    let k = set_words (w % 32 / 8) g in
    let qw = IsFilled-then (32 * (w / 32)) (8 * (w % 32 / 8)) f g k q ws in
    let all =
      IsFilled-then (32 * (w / 32) + 8 * (w % 32 / 8)) (f.bytes % 8) f k (set_bytes (f.bytes % 8) k)
        qw (set_bytes-IsFilled (f.bytes % 8) k) in
    let whole : 32 * (w / 32) + 8 * (w % 32 / 8) + f.bytes % 8 ≡ f.bytes = omega arith in
    rw tail (all.memory j ∙ ap (λ n. filled n f.memory f.dst f.val j) whole)
