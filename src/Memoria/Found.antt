-- ===== src/Memoria/Found.antt =====
-- `memor_chr` of src/memoria_operor is the search byte by byte.
use mmgr.Prelude.{
  ℕ, zero, suc, ◌+◌, ◌-◌, ◌*◌, ◌/◌, ◌≤◌, ◌<◌, ◌≡◌, refl, arith, ap, ◌∙◌, sym, bit_and, bit_xor,
}
use mmgr.Prelude.{
  List, [], ◌∷◌, length, Bool, true, false, if◌then◌else◌, ◌==◌, ltb, Option, none, some,
  Bool-cases, inl, inr,
}
use mathlib.Core.Path.{ap₂}
use mmgr.Prelude.Store.{IsBytes}
use mmgr.Proximus.{load_word}
use mmgr.Scrutor.{has_zero, lane_lo, lanes_below, broadcast}
use mmgr.Memoria.Search.{head_bytes, chr_bytes, chr_words, chr_rest, chr}
use mmgr.Memoria.Search.{or_else}
use mmgr.Memoria.Marks.{run_bytes, length-run, flags, place, mask, word_marks, kept_lem, whole_lem}

-- The first byte of a run that is the one sought, by the place of its flag.
chr_bytes-place :
    (r n : ℕ) (m : ℕ → ℕ) (a c : ℕ)
    → r ≤ n
    → chr_bytes r m a c ≡ (
        if ltb (place (flags c (run_bytes n m a))) r
        then some (a + place (flags c (run_bytes n m a)))
        else none)
unfolding chr_bytes
chr_bytes-place zero n m a c h =
    let t : ltb (place (flags c (run_bytes n m a))) 0 ≡ false = ground arith in rw t refl
chr_bytes-place (suc r) zero m a c h = absurd (omega arith)
chr_bytes-place (suc r) (suc n) m a c h = elim (Bool-cases (m a == c)) [
  | inl e ↦
      let z : a + 0 ≡ a = omega arith in
      let t : ltb 0 (suc r) ≡ true = ground arith in rw (e, z, t) refl
  | inr e ↦
      let q = place (flags c (run_bytes n m (a + 1))) in
      let t : ltb (suc q) (suc r) ≡ ltb q r = ground arith in
      let u : a + suc q ≡ a + 1 + q = omega arith in
      rw (e, t, u) (chr_bytes-place r n m (a + 1) c (omega arith))
]

past_of : (r p : ℕ) → r ≤ p → ltb p r ≡ false
past_of r p h = ground arith

before_of : (r p : ℕ) → p < r → ltb p r ≡ true
before_of r p h = ground arith

zero_of : (k : ℕ) → k ≡ 0 → (k == 0) ≡ true
zero_of k h = ground arith

more_of : (k : ℕ) → 0 < k → (k == 0) ≡ false
more_of k h = ground arith

-- A search in two runs.
pub chr_bytes-add :
    (k n : ℕ) (m : ℕ → ℕ) (a c : ℕ)
    → chr_bytes (k + n) m a c ≡ or_else (chr_bytes k m a c) (chr_bytes n m (a + k) c)
unfolding chr_bytes
chr_bytes-add zero n m a c =
    let e : a + 0 ≡ a = omega arith in let g : 0 + n ≡ n = omega arith in rw (e, g) refl
chr_bytes-add (suc k) n m a c =
    let e : a + suc k ≡ a + 1 + k = omega arith in
    let g : suc k + n ≡ suc (k + n) = omega arith in
    elim (Bool-cases (m a == c)) [
      | inl t ↦ rw (e, g, t) refl
      | inr t ↦ rw (e, g, t) (chr_bytes-add k n m (a + 1) c)
    ]

length-flags : (c : ℕ) (bs : List ℕ) → length (flags c bs) ≡ length bs
length-flags c [] = refl
length-flags c (b ∷ bs) = ap suc (length-flags c bs)

-- What a word tells of its first `r` bytes is the search of them.
pub kept_found :
    (r : ℕ) (m : ℕ → ℕ) (a c : ℕ)
    → IsBytes m
    → c < 256
    → r ≤ 8
    → let kept = bit_and (has_zero (bit_xor (load_word m a) (broadcast c))) (lanes_below r) in
      (if kept == 0 then none else some (a + lane_lo kept)) ≡ chr_bytes r m a c
kept_found r m a c h small most =
    let ps = flags c (run_bytes 8 m a) in
    let kept = bit_and (mask ps) (lanes_below r) in
    let eight = length-flags c (run_bytes 8 m a) ∙ length-run 8 m a in
    let found = chr_bytes-place r 8 m a c most in
    rw (word_marks m a c h small) (elim (kept_lem r ps (omega arith) eight) [
      | inl (none_kept, past) ↦
          let t : ltb (place ps) r ≡ false = past_of r (place ps) past in
          let z : (kept == 0) ≡ true = zero_of kept none_kept in rw z (sym (found ∙ rw t refl))
      | inr (some_kept, before, at) ↦
          let t : ltb (place ps) r ≡ true = before_of r (place ps) before in
          let z : (kept == 0) ≡ false = more_of kept some_kept in
          rw (z, at) (sym (found ∙ rw t refl))
    ])

pub word_found :
    (m : ℕ → ℕ) (a c : ℕ)
    → IsBytes m
    → c < 256
    → let matching = has_zero (bit_xor (load_word m a) (broadcast c)) in
      (if matching == 0 then none else some (a + lane_lo matching)) ≡ chr_bytes 8 m a c
word_found m a c h small =
    let ps = flags c (run_bytes 8 m a) in
    let whole = whole_lem ps (length-flags c (run_bytes 8 m a) ∙ length-run 8 m a) in
    let marks = word_marks m a c h small in
    let same = ap (λ x. bit_and x (lanes_below 8)) marks ∙ whole ∙ sym marks in
    ap (λ x. if x == 0 then none else some (a + lane_lo x)) (sym same)
    ∙ kept_found 8 m a c h small (omega arith)

pub first_or :
    (b : Bool) (x : ℕ) (y : Option ℕ)
    → (if b then y else some x) ≡ or_else (if b then none else some x) y
first_or true x y = refl
first_or false x y = refl

chr_words-bytes :
    (n : ℕ) (m : ℕ → ℕ) (a c : ℕ)
    → IsBytes m
    → c < 256
    → chr_words n m a c ≡ chr_bytes (8 * n) m a c
unfolding chr_words
chr_words-bytes zero m a c h small = unfold chr_bytes in refl
chr_words-bytes (suc n) m a c h small =
    let matching = has_zero (bit_xor (load_word m a) (broadcast c)) in
    let e : 8 * suc n ≡ 8 + 8 * n = omega arith in
    rw e (
      first_or (matching == 0) (a + lane_lo matching) (chr_words n m (a + 8) c)
      ∙ ap₂ or_else (word_found m a c h small) (chr_words-bytes n m (a + 8) c h small)
      ∙ sym (chr_bytes-add 8 (8 * n) m a c))

chr_rest-bytes :
    (m : ℕ → ℕ) (a c rest : ℕ)
    → IsBytes m
    → c < 256
    → rest < 8
    → chr_rest m a c rest ≡ chr_bytes rest m a c
unfolding chr_rest
chr_rest-bytes m a c zero h small few = unfold chr_bytes in refl
chr_rest-bytes m a c (suc rest) h small few =
    let t : (suc rest == 0) ≡ false = ground arith in
    rw t (kept_found (suc rest) m a c h small (omega arith))

chr-or :
    (m : ℕ → ℕ) (src val bytes : ℕ)
    → let lead = head_bytes src bytes in
      let words = (bytes - lead) / 8 in
      let full = lead + words * 8 in
      chr m src val bytes
      ≡ or_else (chr_bytes lead m src val) (
          or_else (chr_words words m (src + lead) val) (chr_rest m (src + full) val (bytes - full)))
unfolding chr
chr-or m src val bytes = refl

pub head_few : (at bytes : ℕ) → head_bytes at bytes ≤ bytes
unfolding head_bytes
head_few at bytes = ground arith

-- The search of a byte, by the bytes up to a word boundary, by words and by the lanes of a last one,
-- finds what the search byte by byte does, on a memory of bytes.
pub chr-chr_bytes :
    (m : ℕ → ℕ) (src val bytes : ℕ)
    → IsBytes m
    → val < 256
    → chr m src val bytes ≡ chr_bytes bytes m src val
chr-chr_bytes m src val bytes h small =
    let lead = head_bytes src bytes in
    let few = head_few src bytes in
    let words = (bytes - lead) / 8 in
    let full = lead + words * 8 in
    let rest = bytes - full in
    let at : src + full ≡ src + lead + 8 * words = omega arith in
    let all : lead + (8 * words + rest) ≡ bytes = omega arith in
    chr-or m src val bytes
    ∙ ap₂ (λ x y. or_else (chr_bytes lead m src val) (or_else x y))
        (chr_words-bytes words m (src + lead) val h small)
        (chr_rest-bytes m (src + full) val rest h small (omega arith)
          ∙ ap (λ x. chr_bytes rest m x val) at)
    ∙ ap (or_else (chr_bytes lead m src val))
        (sym (chr_bytes-add (8 * words) rest m (src + lead) val))
    ∙ sym (chr_bytes-add lead (8 * words + rest) m src val)
    ∙ ap (λ n. chr_bytes n m src val) all
