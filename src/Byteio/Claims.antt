-- ===== src/Byteio/Claims.antt =====
-- What the appending calls of src/octetus_introitus_exitus may write, and what they tell.
use mmgr.Prelude.{
  ℕ, ◌+◌, ◌-◌, ◌*◌, ◌%◌, ◌^◌, ◌≤◌, ◌<◌, ◌≡◌, ◌≢◌, ◌⊎◌, inl, inr, refl, arith, ap, ◌∙◌,
}
use mmgr.Prelude.{true, false, ◌==◌, ltb, Option, none, some, Bool-cases}
use mmgr.Prelude.Store.{update, IsBytes, store-outside, copied-outside}
use mmgr.Carcer.Word.{add64, sub64}
use mmgr.Spatium.{Span}
use mmgr.Endian.{rev}
use mmgr.Endian.Reverse.{rev-reversed}
use mmgr.Endian.Trips.{reversed-lt}
use native.Mathlib.Nat.{pow-le-pow_right}
use mmgr.Memoria.{cpy}
use mmgr.Memoria.Copy.{cpy-copies}
use mmgr.Byteio.{Writing, claim, put, raw, put_be, put_parts}
use mmgr.Byteio.Parts.{put_parts-store}

-- A span that bytes may still be appended to.
abbrev pub HasRoom : Span → ℕ → Type 0
HasRoom s n = (s.buf ≢ 0) × (s.overflow ≡ false) × (s.pos + n ≤ s.cap) × (s.cap < 2 ^ 64)

pub claim_room :
    (s : Span) (n : ℕ)
    → HasRoom s n
    → claim s n ≡ (record s { pos = s.pos + n }, some (s.buf + s.pos))
unfolding claim add64 sub64
claim_room s n (some_buf, fine, room, small) =
    let a : (s.buf == 0) ≡ false = ground arith in
    let b : ltb ((s.cap + 2 ^ 64 - s.pos) % 2 ^ 64) n ≡ false = ground arith in
    let c : ltb s.cap s.pos ≡ false = ground arith in
    let d : (s.pos + n) % 2 ^ 64 ≡ s.pos + n = omega arith in rw (a, fine, b, c, d) refl

-- A place that is claimed begins the bytes inside the span.
pub claimed_inside :
    (s : Span) (n at : ℕ)
    → s.cap < 2 ^ 64
    → s.pos < 2 ^ 64
    → (claim s n).1 ≡ some at
    → (at ≡ s.buf + s.pos) × (s.pos + n ≤ s.cap)
unfolding claim sub64
claimed_inside s n at small place e = (ground arith, ground arith)

claim_full :
    (s : Span) (n : ℕ)
    → s.overflow ≡ true
    → claim s n ≡ (record s { pos = add64 s.pos n; overflow = true }, none)
unfolding claim
claim_full s n h = elim (Bool-cases (s.buf == 0)) [
  | inl e ↦ rw (h, e) refl
  | inr e ↦ rw (h, e) refl
]

-- What an append makes of a claim, with what it stores.
abbrev made : Writing → (ℕ → ℕ → ℕ) → Span × Option ℕ → Writing
made w f (span, none) = record w { span = span }
made w f (span, some at) = record { memory = f at; span = span }

-- What each of the appends stores.
abbrev byte_at : Writing → ℕ → ℕ → ℕ → ℕ
byte_at w byte a = update w.memory a byte

abbrev run_at : Writing → ℕ → ℕ → ℕ → ℕ → ℕ
run_at w src n a = (cpy (record { memory = w.memory; dst = a; src = src; bytes = n })).memory

abbrev pub number_at : Writing → ℕ → ℕ → ℕ → ℕ → ℕ
number_at w value n a = put_parts n (record { memory = w.memory; at = a; reversed = rev value n })

put-made : (w : Writing) (byte : ℕ) → put w byte ≡ made w (byte_at w byte) (claim w.span 1)
unfolding put
put-made w byte = refl

raw-made : (w : Writing) (src n : ℕ) → raw w src n ≡ made w (run_at w src n) (claim w.span n)
unfolding raw
raw-made w src n = refl

put_be-made :
    (w : Writing) (value n : ℕ) → put_be w value n ≡ made w (number_at w value n) (claim w.span n)
unfolding put_be
put_be-made w value n = refl

pub put_be_room :
    (w : Writing) (value n : ℕ)
    → HasRoom w.span n
    → put_be w value n ≡ record {
      memory = number_at w value n (w.span.buf + w.span.pos);
      span = record w.span { pos = w.span.pos + n };
    }
put_be_room w value n room =
    put_be-made w value n ∙ ap (made w (number_at w value n)) (claim_room w.span n room)

-- A span that has refused an append takes no other: it stays so, and the memory is as it was.
pub appends-refused :
    (w : Writing) (byte src value n : ℕ)
    → w.span.overflow ≡ true
    → ((put w byte).span.overflow ≡ true)
      × ((put w byte).memory ≡ w.memory)
      × ((raw w src n).span.overflow ≡ true)
      × ((raw w src n).memory ≡ w.memory)
      × ((put_be w value n).span.overflow ≡ true)
      × ((put_be w value n).memory ≡ w.memory)
appends-refused w byte src value n h =
    let a = claim_full w.span 1 h in
    let b = claim_full w.span n h in
    let c = put-made w byte ∙ ap (made w (byte_at w byte)) a in
    let d = raw-made w src n ∙ ap (made w (run_at w src n)) b in
    let e = put_be-made w value n ∙ ap (made w (number_at w value n)) b in
    (
      ap (λ x. x.span.overflow) c,
      ap (λ x. x.memory) c,
      ap (λ x. x.span.overflow) d,
      ap (λ x. x.memory) d,
      ap (λ x. x.span.overflow) e,
      ap (λ x. x.memory) e,
    )

made_lem :
    (w : Writing) (f : ℕ → ℕ → ℕ) (c : Span × Option ℕ) (j : ℕ)
    → ((a : ℕ) → c.1 ≡ some a → f a j ≡ w.memory j)
    → (made w f c).memory j ≡ w.memory j
made_lem w f (span, none) j h = refl
made_lem w f (span, some a) j h = h a refl

rev_small : (value n : ℕ) → value < 2 ^ 64 → 0 < n → n ≤ 8 → rev value n < 2 ^ 64
rev_small value n fits some_bytes most =
    let low = reversed-lt n value most in
    let word : 2 ^ (8 * n) ≤ 2 ^ 64 =
      pow-le-pow_right {n = 2} (omega arith) {i = 8 * n} {j = 64} (omega arith) in
    omega (arith, rev-reversed value n fits some_bytes most)

-- A place outside of a span's buffer.
abbrev pub Beyond : Span → ℕ → Type 0
Beyond s j = (j < s.buf) ⊎ (s.buf + s.cap ≤ j)

-- No append writes outside of the span's buffer, whatever the span's state, its words below 2 ^ 64;
-- a number is appended in 1 to 8 bytes, and a run is read from where its bytes are not written first.
pub appends-inside :
    (w : Writing) (byte src value n j : ℕ)
    → IsBytes w.memory
    → w.span.cap < 2 ^ 64
    → w.span.pos < 2 ^ 64
    → 0 < n
    → n ≤ 8
    → value < 2 ^ 64
    → (w.span.buf + w.span.pos ≤ src) ⊎ (src + n ≤ w.span.buf + w.span.pos)
    → Beyond w.span j
    → ((put w byte).memory j ≡ w.memory j)
      × ((raw w src n).memory j ≡ w.memory j)
      × ((put_be w value n).memory j ≡ w.memory j)
appends-inside w byte src value n j h small place some_bytes most fits apart out =
    let first : (a : ℕ) → (claim w.span 1).1 ≡ some a → byte_at w byte a j ≡ w.memory j =
      λ a e. let (at, room) = claimed_inside w.span 1 a small place e in ground arith in
    let second : (a : ℕ) → (claim w.span n).1 ≡ some a → run_at w src n a j ≡ w.memory j = λ a e.
      let (at, room) = claimed_inside w.span n a small place e in
      cpy-copies (record { memory = w.memory; dst = a; src = src; bytes = n }) j h (omega arith)
      ∙ copied-outside n w.memory a src j (omega arith) in
    let third : (a : ℕ) → (claim w.span n).1 ≡ some a → number_at w value n a j ≡ w.memory j =
      λ a e.
        let (at, room) = claimed_inside w.span n a small place e in
        ap (λ m. m j)
          (put_parts-store n w.memory a (rev value n) some_bytes most
            (rev_small value n fits some_bytes most))
        ∙ store-outside n w.memory a (rev value n) j (omega arith) in
    (
      ap (λ x. x.memory j) (put-made w byte) ∙ made_lem w (byte_at w byte) (claim w.span 1) j first,
      ap (λ x. x.memory j) (raw-made w src n)
          ∙ made_lem w (run_at w src n) (claim w.span n) j second,
      ap (λ x. x.memory j) (put_be-made w value n)
          ∙ made_lem w (number_at w value n) (claim w.span n) j third,
    )
