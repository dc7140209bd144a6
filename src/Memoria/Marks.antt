-- ===== src/Memoria/Marks.antt =====
-- The marks that src/memoria_operor takes from a word of the memory, and the place of the first.
use mmgr.Prelude.{
  ℕ, zero, suc, ◌+◌, ◌*◌, ◌%◌, ◌^◌, ◌≤◌, ◌<◌, ◌≡◌, ◌⊎◌, refl, arith, ap, ◌∙◌, bit_and, bit_xor,
}
use mmgr.Prelude.{
  List, [], ◌∷◌, length, map, Bool, true, false, not, ◌&&◌, ◌||◌, if◌then◌else◌, ◌==◌, leb, ltb,
  Bool-cases, inl, inr,
}
use mathlib.Core.Path.{ap₂}
use mmgr.Prelude.Below.{all_below, all_below_lem}
use mmgr.Prelude.Bits.Xor.{bit_xor-fields, bit_xor-eq, bit_xor_self, bit_xor-lt}
use mmgr.Prelude.Store.{load, IsBytes}
use mmgr.Prelude.Value.{value, AllBytes}
use mmgr.Prelude.Lanes.{lanes}
use mmgr.Carcer.Word.{sub64, not64}
use mmgr.Proximus.{load_word}
use mmgr.Scrutor.{has_zero, lane_lo, lane_count, below_lo, lanes_below, bytes_below, broadcast}
use mmgr.Scrutor.Laws.{has_zero-marks, constant}

abbrev pub run_bytes : ℕ → (ℕ → ℕ) → ℕ → List ℕ
run_bytes zero m a = []
run_bytes (suc n) m a = m a ∷ run_bytes n m (a + 1)

run-load : (n : ℕ) (m : ℕ → ℕ) (a : ℕ) → load n m a ≡ value (run_bytes n m a)
unfolding load
run-load zero m a = refl
run-load (suc n) m a = ap (λ x. m a + 256 * x) (run-load n m (a + 1))

pub run-AllBytes : (n : ℕ) (m : ℕ → ℕ) (a : ℕ) → IsBytes m → AllBytes (run_bytes n m a)
run-AllBytes zero m a h = tt
run-AllBytes (suc n) m a h = (h a, run-AllBytes n m (a + 1) h)

pub length-run : (n : ℕ) (m : ℕ → ℕ) (a : ℕ) → length (run_bytes n m a) ≡ n
length-run zero m a = refl
length-run (suc n) m a = ap suc (length-run n m (a + 1))

length-map : (f : ℕ → ℕ) (bs : List ℕ) → length (map f bs) ≡ length bs
length-map f [] = refl
length-map f (b ∷ bs) = ap suc (length-map f bs)

xor-lanes :
    (c : ℕ) (bs : List ℕ)
    → c < 256
    → AllBytes bs
    → bit_xor (value bs) (lanes (λ b. c) bs) ≡ value (map (λ b. bit_xor b c) bs)
xor-lanes c [] small h = refl
xor-lanes c (b ∷ bs) small h =
    let x : value (b ∷ bs) ≡ value bs * 2 ^ 8 + b = omega arith in
    let y : lanes (λ b. c) (b ∷ bs) ≡ lanes (λ b. c) bs * 2 ^ 8 + c = omega arith in
    rw
      (
        x,
        y,
        bit_xor-fields 8 (value bs) b (lanes (λ b. c) bs) c h.0 small,
        xor-lanes c bs small h.1,
      )
      (omega arith)

xor-AllBytes : (c : ℕ) (bs : List ℕ) → c < 256 → AllBytes bs → AllBytes (map (λ b. bit_xor b c) bs)
xor-AllBytes c [] small h = tt
xor-AllBytes c (b ∷ bs) small h = (bit_xor-lt 8 b c h.0 small, xor-AllBytes c bs small h.1)

-- The bytes of a run that are the one sought, and the place of the first, or the length.
abbrev pub flags : ℕ → List ℕ → List Bool
flags c bs = map (λ b. b == c) bs

abbrev pub place : List Bool → ℕ
place [] = 0
place (true ∷ ps) = 0
place (false ∷ ps) = suc (place ps)

abbrev pub mask : List Bool → ℕ
mask ps = value (map (λ p. if p then 128 else 0) ps)

abbrev mark : Bool → ℕ
mark p = if p then 128 else 0

mark_lem : (b c : ℕ) → mark (bit_xor b c == 0) ≡ mark (b == c)
mark_lem b c = elim (Bool-cases (b == c)) [
  | inl e ↦
      let same : b ≡ c = ground arith in
      let z : bit_xor b c ≡ 0 = rw same (bit_xor_self c) in rw (e, z) refl
  | inr e ↦ elim (Bool-cases (bit_xor b c == 0)) [
    | inl f ↦
        let z : bit_xor b c ≡ 0 = ground arith in
        let same = bit_xor-eq b c z in absurd (ground arith)
    | inr f ↦ rw (e, f) refl
  ]
]

marks-mask :
    (c : ℕ) (bs : List ℕ)
    → value (map (λ b. if b == 0 then 128 else 0) (map (λ b. bit_xor b c) bs)) ≡ mask (flags c bs)
marks-mask c [] = refl
marks-mask c (b ∷ bs) = omega (arith, mark_lem b c, marks-mask c bs)

-- The marks of a word of the memory.
pub word_marks :
    (m : ℕ → ℕ) (a c : ℕ)
    → IsBytes m
    → c < 256
    → has_zero (bit_xor (load_word m a) (broadcast c)) ≡ mask (flags c (run_bytes 8 m a))
unfolding load_word broadcast
word_marks m a c h small =
    let bs = run_bytes 8 m a in
    let eight = length-run 8 m a in
    let each : 0x0101_0101_0101_0101 * c % 2 ^ 64 ≡ lanes (λ b. c) bs =
      omega (arith, constant c bs eight) in
    let all = run-AllBytes 8 m a h in
    ap₂ (λ x y. has_zero (bit_xor x y)) (run-load 8 m a) each
    ∙ ap has_zero (xor-lanes c bs small all)
    ∙ has_zero-marks (map (λ b. bit_xor b c) bs) (xor-AllBytes c bs small all)
        (length-map (λ b. bit_xor b c) bs ∙ eight)
    ∙ marks-mask c bs

all_flags : ℕ → (List Bool → Bool) → Bool
all_flags zero f = f []
all_flags (suc n) f = all_flags n (λ ps. f (true ∷ ps)) && all_flags n (λ ps. f (false ∷ ps))

and_left : (a b : Bool) → (a && b) ≡ true → (a ≡ true) × (b ≡ true)
and_left true true h = (refl, refl)
and_left true false h = (refl, h)
and_left false b h = (h, absurd (ground arith))

all_flags_lem :
    (n : ℕ) (f : List Bool → Bool) (ps : List Bool)
    → all_flags n f ≡ true
    → length ps ≡ n
    → f ps ≡ true
unfolding all_flags
all_flags_lem zero f [] h e = h
all_flags_lem zero f (p ∷ ps) h e = absurd (omega arith)
all_flags_lem (suc n) f [] h e = absurd (omega arith)
all_flags_lem (suc n) f (true ∷ ps) h e =
    all_flags_lem n (λ qs. f (true ∷ qs)) ps (and_left _ _ h).0 (omega arith)
all_flags_lem (suc n) f (false ∷ ps) h e =
    all_flags_lem n (λ qs. f (false ∷ qs)) ps (and_left _ _ h).1 (omega arith)

-- The lowest mark below a bound, by all of the masks.
is_place : ℕ → List Bool → Bool
unfolding lane_lo lane_count below_lo lanes_below bytes_below sub64 not64
is_place n ps =
    let kept = bit_and (mask ps) (lanes_below n) in
    ((kept == 0) && leb n (place ps))
    || (not (kept == 0) && ltb (place ps) n && (lane_lo kept == place ps))

places : all_below 9 (λ n. all_flags 8 (is_place n)) ≡ true
unfolding all_flags is_place
places = refl

read_place :
    (k n p l : ℕ)
    → (((k == 0) && leb n p) || (not (k == 0) && ltb p n && (l == p))) ≡ true
    → ((k ≡ 0) × (n ≤ p)) ⊎ ((0 < k) × (p < n) × (l ≡ p))
read_place k n p l h = elim (Bool-cases (k == 0)) [
  | inl e ↦ inl (ground arith, ground arith)
  | inr e ↦ inr (ground arith, ground arith, ground arith)
]

-- What is kept of a mask below a bound: nothing where the first mark is past it, and else its place.
pub kept_lem :
    (n : ℕ) (ps : List Bool)
    → n < 9
    → length ps ≡ 8
    → let kept = bit_and (mask ps) (lanes_below n) in
      ((kept ≡ 0) × (n ≤ place ps)) ⊎ ((0 < kept) × (place ps < n) × (lane_lo kept ≡ place ps))
unfolding is_place
kept_lem n ps small eight =
    let row = all_below_lem 9 (λ n. all_flags 8 (is_place n)) places n small in
    let kept = bit_and (mask ps) (lanes_below n) in
    read_place kept n (place ps) (lane_lo kept) (all_flags_lem 8 (is_place n) ps row eight)

is_whole : List Bool → Bool
unfolding lanes_below bytes_below
is_whole ps = bit_and (mask ps) (lanes_below 8) == mask ps

wholes : all_flags 8 is_whole ≡ true
unfolding all_flags is_whole
wholes = refl

same_of : (a b : ℕ) → (a == b) ≡ true → a ≡ b
same_of a b h = ground arith

pub whole_lem : (ps : List Bool) → length ps ≡ 8 → bit_and (mask ps) (lanes_below 8) ≡ mask ps
unfolding is_whole
whole_lem ps eight =
    same_of (bit_and (mask ps) (lanes_below 8)) (mask ps) (all_flags_lem 8 is_whole ps wholes eight)
