-- ===== src/Memoria/Up.antt =====
-- The move of src/memoria_operor from the end down is the copy by bytes, for a place above its source.
use mmgr.Prelude.{
  ℕ, zero, suc, ◌+◌, ◌-◌, ◌*◌, ◌/◌, ◌%◌, ◌≤◌, ◌≡◌, ◌⊎◌, inl, inr, refl, arith, ap, ◌∙◌, sym,
  bit_and,
}
use mmgr.Prelude.{if◌then◌else◌, leb, ltb, ◌==◌, Bool-cases, ◌&&◌}
use native.Mathlib.Decide.{dec_lt}
use mmgr.Prelude.Bits.{bit_and_mask}
use mmgr.Prelude.Store.{IsBytes, copied, copied-before, carried, store-load, store-IsBytes, update}
use mmgr.Proximus.{Reading, put_word, load_word}
use mmgr.Memoria.{up_bytes, up_quad, up_quads, up_words, move_up}

-- The run of bytes that ends where a reading stands, carried.
record IsRaised (n : ℕ) (r r' : Reading) : Type 0 where
  pub memory : (j : ℕ) → r'.memory j ≡ copied n r.memory (r.dst - n) (r.src - n) j
  pub dst : r'.dst ≡ r.dst - n
  pub src : r'.src ≡ r.src - n

-- Where the run lies above address 0, and its bytes are read before they are written over, or stay.
abbrev Above : ℕ → Reading → Type 0
Above n r = (n ≤ r.dst) × (n ≤ r.src) × ((r.src ≤ r.dst) ⊎ (r.dst + n ≤ r.src))

IsRaised-zero : (r : Reading) → IsRaised 0 r r
unfolding copied
IsRaised-zero r = record { memory = λ j. ground arith; dst = omega arith; src = omega arith }

IsRaised-then :
    (k n : ℕ) (r s t : Reading)
    → Above (k + n) r
    → IsRaised k r s
    → IsRaised n s t
    → IsRaised (k + n) r t
IsRaised-then k n r s t above a b =
    let d = r.dst - (k + n) in
    let x = r.src - (k + n) in
    let dn : d + n ≡ r.dst - k = omega arith in
    let xn : x + n ≡ r.src - k = omega arith in
    let bd : s.dst - n ≡ d = omega (arith, a.dst) in
    let bx : s.src - n ≡ x = omega (arith, a.src) in
    let order : n + k ≡ k + n = omega arith in
    record {
      memory = λ j.
          b.memory j
          ∙ ap (λ y. copied n s.memory y (s.src - n) j) bd
          ∙ ap (λ y. copied n s.memory d y j) bx
          ∙ copied-before n k r.memory s.memory d x j
              (λ i.
                a.memory i
                ∙ ap (λ y. copied k r.memory y (r.src - k) i) (sym dn)
                ∙ ap (λ y. copied k r.memory (d + n) y i) (sym xn))
              (omega arith)
          ∙ ap (λ y. copied y r.memory d x j) order;
      dst = omega (arith, a.dst, b.dst);
      src = omega (arith, a.src, b.src);
    }

abbrev lowered : Reading → Reading
lowered r = record r {
  memory = update r.memory (r.dst - 1) (r.memory (r.src - 1));
  dst = r.dst - 1;
  src = r.src - 1;
}

byte-IsRaised : (r : Reading) → IsRaised 1 r (lowered r)
unfolding copied
byte-IsRaised r = record {
  memory = λ j. elim (Bool-cases (j == r.dst - 1)) [
    | inl e ↦
        let at : r.src - 1 + (j - (r.dst - 1)) ≡ r.src - 1 = ground arith in rw at (ground arith)
    | inr e ↦ ground arith
  ];
  dst = refl;
  src = refl;
}

up_bytes-IsRaised : (n : ℕ) (r : Reading) → Above n r → IsRaised n r (up_bytes n r)
unfolding up_bytes
up_bytes-IsRaised zero r above = IsRaised-zero r
up_bytes-IsRaised (suc n) r above =
    let e : suc n ≡ 1 + n = omega arith in
    rw e (
      IsRaised-then 1 n r (lowered r) (up_bytes n (lowered r)) (omega arith) (byte-IsRaised r)
        (up_bytes-IsRaised n (lowered r) (omega arith)))

word-IsRaised :
    (r : Reading)
    → IsBytes r.memory
    → IsRaised 8 r (record r {
      memory = put_word r.memory (r.dst - 8) (load_word r.memory (r.src - 8));
      dst = r.dst - 8;
      src = r.src - 8;
    })
unfolding put_word load_word
word-IsRaised r h = record {
  memory = λ j. carried 8 r.memory (r.dst - 8) (r.src - 8) j h;
  dst = refl;
  src = refl;
}

-- A word loaded from one memory and stored over another, as bytes of the run around it.
part-carried :
    (o : ℕ) (m m' : ℕ → ℕ) (dst src j : ℕ)
    → IsBytes m
    → put_word m' (dst + o) (load_word m (src + o)) j
      ≡ (if leb (dst + o) j && ltb j (dst + o + 8) then m (src + (j - dst)) else m' j)
unfolding put_word load_word
part-carried o m m' dst src j h =
    let s = store-load 8 m m' (dst + o) (src + o) j h in
    elim (dec_lt j (dst + o)) [
      | yes low ↦ s ∙ ground arith
      | no high ↦
          let at : src + o + (j - (dst + o)) ≡ src + (j - dst) = omega arith in s ∙ rw at refl
    ]

quad-IsRaised : (r : Reading) → IsBytes r.memory → IsRaised 32 r (up_quad r)
unfolding up_quad copied
quad-IsRaised r h =
    let d = r.dst - 32 in
    let x = r.src - 32 in
    let m = r.memory in
    let m3 = put_word m (d + 24) (load_word m (x + 24)) in
    let m2 = put_word m3 (d + 16) (load_word m (x + 16)) in
    let m1 = put_word m2 (d + 8) (load_word m (x + 8)) in
    let d0 : d + 0 ≡ d = omega arith in
    let x0 : x + 0 ≡ x = omega arith in
    record {
      memory = λ j.
          let p3 = part-carried 24 m m d x j h in
          let p2 = part-carried 16 m m3 d x j h in
          let p1 = part-carried 8 m m2 d x j h in
          let p0 = rw (d0, x0) at (part-carried 0 m m1 d x j h) in p0 ∙ ground arith;
      dst = refl;
      src = refl;
    }

quad-IsBytes : (r : Reading) → IsBytes r.memory → IsBytes (up_quad r).memory
unfolding up_quad put_word
quad-IsBytes r h =
    store-IsBytes 8 _ _ _
      (store-IsBytes 8 _ _ _ (store-IsBytes 8 _ _ _ (store-IsBytes 8 r.memory _ _ h)))

up_quads-IsRaised :
    (n : ℕ) (r : Reading)
    → IsBytes r.memory
    → Above (32 * n) r
    → IsRaised (32 * n) r (up_quads n r) × IsBytes (up_quads n r).memory
unfolding up_quads
up_quads-IsRaised zero r h above = (IsRaised-zero r, h)
up_quads-IsRaised (suc n) r h above =
    let s = up_quad r in
    let first = quad-IsRaised r h in
    let rest = up_quads-IsRaised n s (quad-IsBytes r h) (omega (arith, first.dst, first.src)) in
    let e : 32 * suc n ≡ 32 + 32 * n = omega arith in
    (rw e (IsRaised-then 32 (32 * n) r s (up_quads n s) (omega arith) first rest.0), rest.1)

store-word-IsBytes :
    (r : Reading)
    → IsBytes r.memory
    → IsBytes (put_word r.memory (r.dst - 8) (load_word r.memory (r.src - 8)))
unfolding put_word load_word
store-word-IsBytes r h = store-IsBytes 8 r.memory (r.dst - 8) _ h

IsRaised-IsBytes : (n : ℕ) (r s : Reading) → IsRaised n r s → IsBytes r.memory → IsBytes s.memory
unfolding copied
IsRaised-IsBytes n r s g h j =
    let here = h j in
    let there = h (r.src - n + (j - (r.dst - n))) in let carried_byte = g.memory j in ground arith

up_words-IsRaised :
    (n : ℕ) (r : Reading) → IsBytes r.memory → Above (8 * n) r → IsRaised (8 * n) r (up_words n r)
unfolding up_words
up_words-IsRaised zero r h above = IsRaised-zero r
up_words-IsRaised (suc n) r h above =
    let s : Reading = record r {
      memory = put_word r.memory (r.dst - 8) (load_word r.memory (r.src - 8));
      dst = r.dst - 8;
      src = r.src - 8;
    } in
    let bytes = store-word-IsBytes r h in
    let rest = up_words-IsRaised n s bytes (omega arith) in
    let e : 8 * suc n ≡ 8 + 8 * n = omega arith in
    rw e (IsRaised-then 8 (8 * n) r s (up_words n s) (omega arith) (word-IsRaised r h) rest)

-- A move to a place that is apart from its source, or above it: every byte of the run is what the
-- source's was, and every other byte of the memory stays.
pub move_up-copies :
    (r : Reading) (j : ℕ)
    → IsBytes r.memory
    → (r.src ≤ r.dst) ⊎ (r.dst + r.bytes ≤ r.src)
    → (move_up r).memory j ≡ copied r.bytes r.memory r.dst r.src j
unfolding move_up
move_up-copies r j h apart =
    let tail : bit_and r.bytes 7 ≡ r.bytes % 8 = bit_and_mask 3 r.bytes in
    let k = r.bytes % 8 in
    let w = r.bytes - k in
    let past : Reading = record r { dst = r.dst + r.bytes; src = r.src + r.bytes } in
    let b = up_bytes-IsRaised k past (omega arith) in
    let s = up_bytes k past in
    let hs = IsRaised-IsBytes k past s b h in
    let q = up_quads-IsRaised (w / 32) s hs (omega (arith, b.dst, b.src)) in
    let t = up_quads (w / 32) s in
    let bq = IsRaised-then k (32 * (w / 32)) past s t (omega arith) b q.0 in
    let ws = up_words-IsRaised (w % 32 / 8) t q.1 (omega (arith, bq.dst, bq.src)) in
    let all =
      IsRaised-then (k + 32 * (w / 32)) (8 * (w % 32 / 8)) past t (up_words (w % 32 / 8) t)
        (omega arith) bq ws in
    let whole : k + 32 * (w / 32) + 8 * (w % 32 / 8) ≡ r.bytes = omega arith in
    let d : r.dst + r.bytes - r.bytes ≡ r.dst = omega arith in
    let x : r.src + r.bytes - r.bytes ≡ r.src = omega arith in
    rw tail (
      all.memory j
      ∙ ap (λ n. copied n r.memory (r.dst + r.bytes - n) (r.src + r.bytes - n) j) whole
      ∙ ap (λ a. copied r.bytes r.memory a (r.src + r.bytes - r.bytes) j) d
      ∙ ap (λ a. copied r.bytes r.memory r.dst a j) x)
