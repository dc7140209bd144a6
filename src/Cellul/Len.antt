-- ===== src/Cellul/Len.antt =====
-- The length that src/cellularum_laboro measures by words is the one by bytes.
use mmgr.Prelude.{
  ℕ, zero, suc, ◌+◌, ◌-◌, ◌*◌, ◌/◌, ◌%◌, ◌≤◌, ◌<◌, ◌≡◌, refl, arith, ap, ◌∙◌, sym, bit_and, bit_xor,
}
use mmgr.Prelude.{true, false, if◌then◌else◌, ◌==◌, ltb, Option, none, some, Bool-cases, inl, inr}
use mathlib.Core.Path.{ap₂}
use mmgr.Prelude.Store.{IsBytes, load}
use mmgr.Prelude.Bits.Xor.{bit_xor-zero}
use mmgr.Proximus.{load_word}
use mmgr.Scrutor.{has_zero, lane_lo, lanes_below, broadcast, scrut_load}
use mmgr.Memoria.Search.{chr_bytes, or_else}
use mmgr.Memoria.Found.{kept_found, word_found, chr_bytes-add, first_or}
use mmgr.Cellul.{head_bytes, len_bytes, len_pairs, len_words, len_rest, len}

-- The bytes before the first that is 0, of a run of them, or all.
unfoldable pub text_length : ℕ → (ℕ → ℕ) → ℕ → ℕ
text_length zero m a = 0
text_length (suc n) m a = let rest = text_length n m (a + 1) in if m a == 0 then 0 else suc rest

-- A memory seen from a text's start.
abbrev seen_from : (ℕ → ℕ) → ℕ → ℕ → ℕ
seen_from m src j = m (src + j)

load-from : (n : ℕ) (m : ℕ → ℕ) (src at : ℕ) → load n (seen_from m src) at ≡ load n m (src + at)
unfolding load
load-from zero m src at = refl
load-from (suc n) m src at =
    let e : src + (at + 1) ≡ src + at + 1 = omega arith in
    omega (arith, load-from n m src (at + 1), ap (load n m) e)

-- A word of the text, by the lanes that are 0.
word_from :
    (m : ℕ → ℕ) (src at : ℕ)
    → has_zero (scrut_load m (src + at))
      ≡ has_zero (bit_xor (load_word (seen_from m src) at) (broadcast 0))
unfolding scrut_load load_word broadcast
word_from m src at =
    ap has_zero (sym (load-from 8 m src at) ∙ sym (bit_xor-zero (load 8 (seen_from m src) at)))

search : ℕ → (ℕ → ℕ) → ℕ → ℕ → Option ℕ
search n m src at = chr_bytes n (seen_from m src) at 0

search-add :
    (k n : ℕ) (m : ℕ → ℕ) (src at : ℕ)
    → search (k + n) m src at ≡ or_else (search k m src at) (search n m src (at + k))
unfolding search
search-add k n m src at = chr_bytes-add k n (seen_from m src) at 0

len_bytes-search : (n : ℕ) (m : ℕ → ℕ) (src at : ℕ) → len_bytes n m src at ≡ search n m src at
unfolding len_bytes search chr_bytes
len_bytes-search zero m src at = refl
len_bytes-search (suc n) m src at = rw (len_bytes-search n m src (at + 1)) refl

one_word :
    (m : ℕ → ℕ) (src at : ℕ)
    → IsBytes m
    → (if has_zero (scrut_load m (src + at)) == 0
        then none
        else some (at + lane_lo (has_zero (scrut_load m (src + at)))))
      ≡ search 8 m src at
unfolding search
one_word m src at h =
    ap (λ x. if x == 0 then none else some (at + lane_lo x)) (word_from m src at)
    ∙ word_found (seen_from m src) at 0 (λ j. h (src + j)) (omega arith)

len_words-search :
    (n : ℕ) (m : ℕ → ℕ) (src at : ℕ) → IsBytes m → len_words n m src at ≡ search (8 * n) m src at
unfolding len_words
len_words-search zero m src at h = unfold search chr_bytes in refl
len_words-search (suc n) m src at h =
    let lanes = has_zero (scrut_load m (src + at)) in
    let e : 8 * suc n ≡ 8 + 8 * n = omega arith in
    rw e (
      first_or (lanes == 0) (at + lane_lo lanes) (len_words n m src (at + 8))
      ∙ ap₂ or_else (one_word m src at h) (len_words-search n m src (at + 8) h)
      ∙ unfold search in sym (chr_bytes-add 8 (8 * n) (seen_from m src) at 0))

len_pairs-words :
    (n : ℕ) (m : ℕ → ℕ) (src at : ℕ) → len_pairs n m src at ≡ len_words (2 * n) m src at
unfolding len_pairs len_words
len_pairs-words zero m src at = refl
len_pairs-words (suc n) m src at =
    let e : 2 * suc n ≡ suc (suc (2 * n)) = omega arith in
    let f : src + (at + 8) ≡ src + at + 8 = omega arith in
    let g : at + 8 + 8 ≡ at + 16 = omega arith in
    rw (e, f, g, len_pairs-words n m src (at + 16)) refl

len_rest-search :
    (m : ℕ → ℕ) (src at rest : ℕ)
    → IsBytes m
    → rest < 8
    → len_rest m src at rest ≡ search rest m src at
unfolding len_rest search
len_rest-search m src at zero h few = unfold chr_bytes in refl
len_rest-search m src at (suc rest) h few =
    let t : (suc rest == 0) ≡ false = ground arith in
    rw t (
      ap
        (λ x.
          let k = bit_and x (lanes_below (suc rest)) in
          if k == 0 then none else some (at + lane_lo k))
        (word_from m src at)
      ∙ kept_found (suc rest) (seen_from m src) at 0 (λ j. h (src + j)) (omega arith) (omega arith))

found_length :
    (n : ℕ) (m : ℕ → ℕ) (src at : ℕ)
    → search n m src at ≡ (
        if ltb (text_length n m (src + at)) n then some (at + text_length n m (src + at)) else none)
unfolding search text_length chr_bytes
found_length zero m src at = refl
found_length (suc n) m src at = elim (Bool-cases (m (src + at) == 0)) [
  | inl t ↦
      let z : at + 0 ≡ at = omega arith in
      let some_left : ltb 0 (suc n) ≡ true = ground arith in rw (t, some_left, z) refl
  | inr t ↦
      let e : src + (at + 1) ≡ src + at + 1 = omega arith in
      let l = text_length n m (src + at + 1) in
      let before : ltb (suc l) (suc n) ≡ ltb l n = ground arith in
      let f : at + suc l ≡ at + 1 + l = omega arith in
      rw (t, before, f)
        (found_length n m src (at + 1)
          ∙ ap (λ a. let l = text_length n m a in if ltb l n then some (at + 1 + l) else none) e)
]

found_from_start :
    (n : ℕ) (m : ℕ → ℕ) (src : ℕ)
    → search n m src 0 ≡ (if ltb (text_length n m src) n then some (text_length n m src) else none)
found_from_start n m src =
    let e : src + 0 ≡ src = omega arith in
    let l = text_length n m src in
    found_length n m src 0
    ∙ ap (λ a. let l = text_length n m a in if ltb l n then some (0 + l) else none) e
    ∙ ap (λ k. if ltb l n then some k else none) (omega arith)

pub length_most : (n : ℕ) (m : ℕ → ℕ) (a : ℕ) → text_length n m a ≤ n
unfolding text_length
length_most zero m a = omega arith
length_most (suc n) m a = let ih = length_most n m (a + 1) in ground arith

told_length :
    (l cap : ℕ)
    → l ≤ cap
    → elim (if ltb l cap then some l else none) [ some at ↦ at | none ↦ cap ] ≡ l
told_length l cap h = elim (Bool-cases (ltb l cap)) [
  | inl t ↦ rw t refl
  | inr t ↦ rw t (ground arith)
]

head_few : (start cap : ℕ) → head_bytes start cap ≤ cap
unfolding head_bytes
head_few start cap = ground arith

-- The length measured by the bytes up to a word boundary, by pairs of words, by single ones and by the
-- lanes of a last one is the count of bytes before the first 0, or the bound, on a memory of bytes.
pub len-text_length : (m : ℕ → ℕ) (src cap : ℕ) → IsBytes m → len m src cap ≡ text_length cap m src
unfolding len
len-text_length m src cap h =
    let lead = head_bytes src cap in
    let few = head_few src cap in
    let words = (cap - lead) / 8 in
    let full = lead + words * 8 in
    let rest = cap - full in
    let pairs = words / 2 in
    let at : lead + pairs * 16 ≡ lead + 8 * (2 * pairs) = omega arith in
    let past : full ≡ lead + 8 * (2 * pairs) + 8 * (words % 2) = omega arith in
    let all : lead + (8 * (2 * pairs) + (8 * (words % 2) + rest)) ≡ cap = omega arith in
    let found =
      ap₂ or_else (len_bytes-search lead m src 0) (
        ap₂ or_else (len_pairs-words pairs m src lead ∙ len_words-search (2 * pairs) m src lead h) (
          ap₂ or_else
            (len_words-search (words % 2) m src (lead + pairs * 16) h
              ∙ ap (search (8 * (words % 2)) m src) at)
            (len_rest-search m src full rest h (omega arith) ∙ ap (search rest m src) past)))
      ∙ ap (λ x. or_else (search lead m src 0) (or_else (search (8 * (2 * pairs)) m src lead) x))
          (sym (search-add (8 * (words % 2)) rest m src (lead + 8 * (2 * pairs))))
      ∙ ap (or_else (search lead m src 0))
          (sym (search-add (8 * (2 * pairs)) (8 * (words % 2) + rest) m src lead))
      ∙ ap
          (λ a.
            or_else (search lead m src 0)
              (search (8 * (2 * pairs) + (8 * (words % 2) + rest)) m src a))
          (omega arith)
      ∙ sym (search-add lead (8 * (2 * pairs) + (8 * (words % 2) + rest)) m src 0)
      ∙ ap (λ n. search n m src 0) all
      ∙ found_from_start cap m src in
    ap (λ o. elim o [ some at ↦ at | none ↦ cap ]) found
    ∙ told_length (text_length cap m src) cap (length_most cap m src)
