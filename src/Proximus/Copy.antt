-- ===== src/Proximus/Copy.antt =====
-- The copy by words of src/proximus_operor is the copy by bytes.
use mmgr.Prelude.{
  ℕ, zero, suc, ◌+◌, ◌-◌, ◌*◌, ◌/◌, ◌^◌, ◌≤◌, ◌<◌, ◌≡◌, ◌⊎◌, inl, inr, refl, arith, ap, ◌∙◌, sym,
}
use mmgr.Prelude.{if◌then◌else◌, ◌==◌, ltb, Bool-cases, bit_and}
use mathlib.Core.Path.{subst}
use mmgr.Prelude.Bits.{bit_and_mask, bit_and_shift}
use mmgr.Prelude.Store.{IsBytes, copied, copied-then, carried, store-IsBytes, update}
use mmgr.Carcer.Word.{sub64, not64}
use mmgr.Proximus.{Reading, byte_loop, word_loop, put_word, load_word, head, words, tail, read}

-- One run of bytes carried: the memory by its copy, and both places past it.
pub record IsMoved (n : ℕ) (r r' : Reading) : Type 0 where
  pub memory : (j : ℕ) → r'.memory j ≡ copied n r.memory r.dst r.src j
  pub dst : r'.dst ≡ r.dst + n
  pub src : r'.src ≡ r.src + n

-- Where the run's bytes are read before they are written over, or stay.
abbrev pub Apart : ℕ → Reading → Type 0
Apart n r = (r.dst ≤ r.src) ⊎ (r.src + n ≤ r.dst)

pub IsMoved-zero : (r : Reading) → IsMoved 0 r r
unfolding copied
IsMoved-zero r = record { memory = λ j. ground arith; dst = omega arith; src = omega arith }

pub IsMoved-then :
    (k n : ℕ) (r s t : Reading)
    → Apart (k + n) r
    → IsMoved k r s
    → IsMoved n s t
    → IsMoved (k + n) r t
IsMoved-then k n r s t apart a b = record {
  memory = λ j.
      b.memory j
      ∙ ap (λ d. copied n s.memory d s.src j) a.dst
      ∙ ap (λ x. copied n s.memory (r.dst + k) x j) a.src
      ∙ copied-then k n r.memory s.memory r.dst r.src j a.memory (omega arith);
  dst = omega (arith, a.dst, b.dst);
  src = omega (arith, a.src, b.src);
}

pub byte-IsMoved :
    (r : Reading)
    → IsMoved 1 r (record r {
      memory = update r.memory r.dst (r.memory r.src);
      dst = r.dst + 1;
      src = r.src + 1;
    })
unfolding copied
byte-IsMoved r = record {
  memory = λ j. elim (Bool-cases (j == r.dst)) [
    | inl e ↦ let at : r.src + (j - r.dst) ≡ r.src = ground arith in rw at (ground arith)
    | inr e ↦ ground arith
  ];
  dst = refl;
  src = refl;
}

byte_loop-IsMoved : (n : ℕ) (r : Reading) → Apart n r → IsMoved n r (byte_loop n r)
unfolding byte_loop
byte_loop-IsMoved zero r apart = IsMoved-zero r
byte_loop-IsMoved (suc n) r apart =
    let s : Reading = record r {
      memory = update r.memory r.dst (r.memory r.src);
      dst = r.dst + 1;
      src = r.src + 1;
    } in
    let e : suc n ≡ 1 + n = omega arith in
    rw e (
      IsMoved-then 1 n r s (byte_loop n s) (omega arith) (byte-IsMoved r)
        (byte_loop-IsMoved n s (omega arith)))

word_loop-IsMoved :
    (n : ℕ) (r : Reading) → IsBytes r.memory → Apart (8 * n) r → IsMoved (8 * n) r (word_loop n r)
unfolding word_loop
word_loop-IsMoved zero r h apart = IsMoved-zero r
word_loop-IsMoved (suc n) r h apart =
    let s : Reading = record r {
      memory = put_word r.memory r.dst (load_word r.memory r.src);
      dst = r.dst + 8;
      src = r.src + 8;
    } in
    let e : 8 * suc n ≡ 8 + 8 * n = omega arith in
    let first : IsMoved 8 r s = record {
      memory = unfold put_word load_word in λ j. carried 8 r.memory r.dst r.src j h;
      dst = refl;
      src = refl;
    } in
    let bytes : IsBytes s.memory =
      unfold put_word load_word in store-IsBytes 8 r.memory r.dst _ h in
    rw e (
      IsMoved-then 8 (8 * n) r s (word_loop n s) (omega arith) first
        (word_loop-IsMoved n s bytes (omega arith)))

pub loop-bytes :
    (n : ℕ) (r : Reading) → ((byte_loop n r).bytes ≡ r.bytes) × ((word_loop n r).bytes ≡ r.bytes)
unfolding byte_loop word_loop
loop-bytes zero r = (refl, refl)
loop-bytes (suc n) r = ((loop-bytes n _).0, (loop-bytes n _).1)

-- A stage of the copy: some of the bytes, carried.
record IsStage (r s : Reading) : Type 0 where
  pub count : ℕ
  pub within : count ≤ r.bytes
  pub moved : IsMoved count r s
  pub bytes : s.bytes ≡ r.bytes - count

IsStage-IsBytes : (r s : Reading) → IsStage r s → IsBytes r.memory → IsBytes s.memory
unfolding copied
IsStage-IsBytes r s g h j =
    let here = h j in
    let there = h (r.src + (j - r.dst)) in let carried_byte = g.moved.memory j in ground arith

IsStage-then : (r s t : Reading) → Apart r.bytes r → IsStage r s → IsStage s t → IsStage r t
IsStage-then r s t apart a b = record {
  count = a.count + b.count;
  within = omega (arith, a.within, a.bytes, b.within);
  moved =
      IsMoved-then a.count b.count r s t (omega (arith, a.within, a.bytes, b.within)) a.moved
        b.moved;
  bytes = omega (arith, a.bytes, b.bytes);
}

head-IsStage : (r : Reading) → r.bytes < 2 ^ 64 → Apart r.bytes r → IsStage r (head r)
unfolding head
head-IsStage r small apart =
    let skew = bit_and (sub64 0 r.dst) 7 in
    let n = if ltb skew r.bytes then skew else r.bytes in
    let few : n ≤ r.bytes = ground arith in
    let s : Reading = record r { bytes = r.bytes - n } in
    elim (Bool-cases (n == 0)) [
      | inl e ↦
          rw e (record {
            count = 0;
            within = omega arith;
            moved = IsMoved-zero r;
            bytes = omega arith;
          })
      | inr e ↦
          let m = byte_loop-IsMoved n s (omega arith) in
          rw e (record {
            count = n;
            within = few;
            moved = record { memory = m.memory; dst = m.dst; src = m.src };
            bytes = (loop-bytes n s).0;
          })
    ]

pub whole_words : (b : ℕ) → b < 2 ^ 64 → bit_and b (not64 7) ≡ 8 * (b / 8)
unfolding not64
whole_words b h = omega (arith, bit_and_shift 3 b (2 ^ 61 - 1), bit_and_mask 61 (b / 8))

words-IsStage :
    (r : Reading) → r.bytes < 2 ^ 64 → IsBytes r.memory → Apart r.bytes r → IsStage r (words r)
unfolding words
words-IsStage r small h apart =
    let n = r.bytes / 8 in
    let all = whole_words r.bytes small in
    let s : Reading = record r { bytes = r.bytes - 8 * n } in
    let count : 8 * n / 8 ≡ n = omega arith in
    elim (Bool-cases (8 * n == 0)) [
      | inl e ↦
          rw (all, e)
            (record {
              count = 0;
              within = omega arith;
              moved = IsMoved-zero r;
              bytes = omega arith;
            })
      | inr e ↦
          let m = word_loop-IsMoved n s h (omega arith) in
          rw (all, e, count)
            (record {
              count = 8 * n;
              within = omega arith;
              moved = record { memory = m.memory; dst = m.dst; src = m.src };
              bytes = (loop-bytes n s).1;
            })
    ]

tail-IsMoved : (r : Reading) → Apart r.bytes r → IsMoved r.bytes r (tail r)
unfolding tail
tail-IsMoved r apart = elim (Bool-cases (r.bytes == 0)) [
  | inl e ↦
      let none : r.bytes ≡ 0 = ground arith in
      rw e (subst (λ n. IsMoved n r r) (sym none) (IsMoved-zero r))
  | inr e ↦ rw e (byte_loop-IsMoved r.bytes r apart)
]

-- A read of bytes that it does not write over before it reads them, fewer than 2 ^ 64: its stages up
-- to a boundary, by words and to the end are one copy of all the bytes, and write nothing else.
pub read-copies :
    (r : Reading) (j : ℕ)
    → r.bytes < 2 ^ 64
    → IsBytes r.memory
    → (r.dst ≤ r.src) ⊎ (r.src + r.bytes ≤ r.dst)
    → (read r).memory j ≡ copied r.bytes r.memory r.dst r.src j
unfolding read
read-copies r j small h apart =
    let a = head-IsStage r small apart in
    let s = head r in
    let hs = IsStage-IsBytes r s a h in
    let b =
      words-IsStage s (omega (arith, a.bytes)) hs
        (omega (arith, a.within, a.bytes, a.moved.dst, a.moved.src)) in
    let ab = IsStage-then r s (words s) apart a b in
    let t = words s in
    let last = tail-IsMoved t (omega (arith, ab.within, ab.bytes, ab.moved.dst, ab.moved.src)) in
    let done : ab.count + t.bytes ≡ r.bytes = omega (arith, ab.within, ab.bytes) in
    let all = IsMoved-then ab.count t.bytes r t (tail t) (omega arith) ab.moved last in
    all.memory j ∙ ap (λ n. copied n r.memory r.dst r.src j) done
