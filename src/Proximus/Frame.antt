-- ===== src/Proximus/Frame.antt =====
-- The copy of src/proximus_operor writes nothing outside of its destination, whatever the memory holds.
use mmgr.Prelude.{
  ℕ, zero, suc, ◌+◌, ◌-◌, ◌*◌, ◌/◌, ◌^◌, ◌≤◌, ◌<◌, ◌≡◌, ◌⊎◌, inl, inr, refl, arith, ◌∙◌,
}
use mmgr.Prelude.{if◌then◌else◌, ◌==◌, ltb, Bool-cases, bit_and}
use mmgr.Prelude.Store.{store-outside, update}
use mmgr.Carcer.Word.{sub64}
use mmgr.Proximus.{Reading, byte_loop, word_loop, put_word, load_word, head, words, tail, read}
use mmgr.Proximus.Copy.{whole_words, loop-bytes}

-- A stage that writes at the front of the destination, and leaves its end no further on.
record IsInside (r s : Reading) : Type 0 where
  pub memory : (j : ℕ) → (j < r.dst) ⊎ (r.dst + r.bytes ≤ j) → s.memory j ≡ r.memory j
  pub start : r.dst ≤ s.dst
  pub end : s.dst + s.bytes ≤ r.dst + r.bytes
  pub bytes : s.bytes ≤ r.bytes

IsInside-then : (r s t : Reading) → IsInside r s → IsInside s t → IsInside r t
IsInside-then r s t a b = record {
  memory = λ j h. b.memory j (omega (arith, a.start, a.end)) ∙ a.memory j h;
  start = omega (arith, a.start, b.start);
  end = omega (arith, a.end, b.end);
  bytes = omega (arith, a.bytes, b.bytes);
}

byte_at :
    (n : ℕ) (r : Reading) (j : ℕ)
    → (j < r.dst) ⊎ (r.dst + n ≤ j)
    → ((byte_loop n r).memory j ≡ r.memory j) × ((byte_loop n r).dst ≡ r.dst + n)
unfolding byte_loop
byte_at zero r j h = (refl, omega arith)
byte_at (suc n) r j h =
    let ih =
      byte_at n
        (record r {
          memory = update r.memory r.dst (r.memory r.src);
          dst = r.dst + 1;
          src = r.src + 1;
        })
        j (omega arith) in
    (ih.0 ∙ ground arith, omega arith)

word_at :
    (n : ℕ) (r : Reading) (j : ℕ)
    → (j < r.dst) ⊎ (r.dst + 8 * n ≤ j)
    → ((word_loop n r).memory j ≡ r.memory j) × ((word_loop n r).dst ≡ r.dst + 8 * n)
unfolding word_loop
word_at zero r j h = (refl, omega arith)
word_at (suc n) r j h =
    let ih =
      word_at n
        (record r {
          memory = put_word r.memory r.dst (load_word r.memory r.src);
          dst = r.dst + 8;
          src = r.src + 8;
        })
        j (omega arith) in
    (
      ih.0
          ∙ unfold put_word in
            store-outside 8 r.memory r.dst (load_word r.memory r.src) j (omega arith),
      omega arith,
    )

same : (r : Reading) → IsInside r r
same r = record {
  memory = λ j h. refl;
  start = omega arith;
  end = omega arith;
  bytes = omega arith;
}

head-IsInside : (r : Reading) → IsInside r (head r)
unfolding head
head-IsInside r =
    let skew = bit_and (sub64 0 r.dst) 7 in
    let n = if ltb skew r.bytes then skew else r.bytes in
    let few : n ≤ r.bytes = ground arith in
    let s : Reading = record r { bytes = r.bytes - n } in
    elim (Bool-cases (n == 0)) [
      | inl e ↦ rw e (same r)
      | inr e ↦
          let b = (loop-bytes n s).0 in
          let d = (byte_at n s (r.dst + n) (omega arith)).1 in
          rw e (record {
            memory = λ j h. (byte_at n s j (omega arith)).0;
            start = omega arith;
            end = omega arith;
            bytes = omega arith;
          })
    ]

words-IsInside : (r : Reading) → r.bytes < 2 ^ 64 → IsInside r (words r)
unfolding words
words-IsInside r small =
    let n = r.bytes / 8 in
    let all = whole_words r.bytes small in
    let s : Reading = record r { bytes = r.bytes - 8 * n } in
    let count : 8 * n / 8 ≡ n = omega arith in
    elim (Bool-cases (8 * n == 0)) [
      | inl e ↦ rw (all, e) (same r)
      | inr e ↦
          let b = (loop-bytes n s).1 in
          let d = (word_at n s (r.dst + 8 * n) (omega arith)).1 in
          rw (all, e, count)
            (record {
              memory = λ j h. (word_at n s j (omega arith)).0;
              start = omega arith;
              end = omega arith;
              bytes = omega arith;
            })
    ]

tail_at :
    (r : Reading) (j : ℕ) → (j < r.dst) ⊎ (r.dst + r.bytes ≤ j) → (tail r).memory j ≡ r.memory j
unfolding tail
tail_at r j h = elim (Bool-cases (r.bytes == 0)) [
  | inl e ↦ rw e refl
  | inr e ↦ rw e ((byte_at r.bytes r j h).0)
]

-- A read of fewer than 2 ^ 64 bytes leaves what is outside of its destination.
pub read-outside :
    (r : Reading) (j : ℕ)
    → r.bytes < 2 ^ 64
    → (j < r.dst) ⊎ (r.dst + r.bytes ≤ j)
    → (read r).memory j ≡ r.memory j
unfolding read
read-outside r j small h =
    let a = head-IsInside r in
    let b = words-IsInside (head r) (omega (arith, a.bytes)) in
    let ab = IsInside-then r (head r) (words (head r)) a b in
    tail_at (words (head r)) j (omega (arith, ab.start, ab.end)) ∙ ab.memory j h
