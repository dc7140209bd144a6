-- ===== src/Numeros/Build.antt =====
-- What src/numeros_scribo promises of a build: all of it with a terminator, or nothing of it and the
-- terminator back where it began.
use mmgr.Prelude.{ℕ, ◌+◌, ◌^◌, ◌≤◌, ◌<◌, ◌≡◌, ◌⊎◌, inl, inr, refl, arith, ap, sym}
use mmgr.Prelude.{
  List, [], ◌∷◌, true, false, if◌then◌else◌, ◌==◌, leb, Bool-cases, Option, none, some,
}
use mathlib.Core.Path.{subst}
use mmgr.Prelude.Store.{update}
use mmgr.Verba.{Verba, put_n, finish}
use mmgr.Numeros.{Field, Value, Walk, code, build_walk, emit_walk, abandon, settle, build, emit}
use mmgr.Numeros.Kept.{IsKept, IsKept-self, IsKept-then, put_n-IsKept, is_plain, emit_one-IsKept}

abbrev pub AllPlain : List Value → Type 0
AllPlain [] = Unit {0}
AllPlain (x ∷ xs) = (is_plain x.kind ≡ true) × (x.word < 2 ^ 64) × AllPlain xs

abbrev state : Walk → Verba
state (Walk.reached v) = v
state (Walk.abandoned v) = v

-- A walk ends, and what is before it and past the buffer stays.
abbrev Ends : Verba → Option Walk → Type 0
Ends v o = (w : Walk) × (o ≡ some w) × IsKept v (state w)

Ends-then : (v w : Verba) (o : Option Walk) → IsKept v w → Ends w o → Ends v o
Ends-then v w o a (e, same, b) = (e, same, IsKept-then v w (state e) a b)

build_walk-Ends :
    (fuel : ℕ) (v : Verba) (fs : List Field) (xs : List Value)
    → v.cap < 2 ^ 64
    → v.at ≤ v.cap
    → AllPlain xs
    → Ends v (build_walk fuel v fs xs)
unfolding build_walk
build_walk-Ends fuel v [] [] c le all = (Walk.reached v, refl, IsKept-self v le)
build_walk-Ends fuel v [] (x ∷ xs) c le all = (Walk.abandoned v, refl, IsKept-self v le)
build_walk-Ends fuel v (f ∷ fs) [] c le all = elim (Bool-cases (code f.kind == 1)) [
  | inl t ↦
      let w = put_n v f.literal f.bytes in
      let k = put_n-IsKept v f.literal f.bytes c le in
      rw t (
        Ends-then v w _ k
          (build_walk-Ends fuel w fs [] (omega (arith, k.cap)) (omega (arith, k.most, k.cap)) tt))
  | inr t ↦ rw t (Walk.abandoned v, refl, IsKept-self v le)
]
build_walk-Ends fuel v (f ∷ fs) (x ∷ xs) c le (plain, word, all) =
    elim (Bool-cases (code f.kind == 1)) [
      | inl t ↦
          let w = put_n v f.literal f.bytes in
          let k = put_n-IsKept v f.literal f.bytes c le in
          rw t (
            Ends-then v w _ k (
              build_walk-Ends fuel w fs (x ∷ xs) (omega (arith, k.cap))
                (omega (arith, k.most, k.cap)) (plain, word, all)))
      | inr t ↦ elim (Bool-cases (code x.kind == code f.kind)) [
        | inr u ↦ rw (t, u) (Walk.abandoned v, refl, IsKept-self v le)
        | inl u ↦
            let (w, same, k) = emit_one-IsKept fuel v x f.width plain word c le in
            rw (t, u, same)
              (Ends-then v w _ k (
                build_walk-Ends fuel w fs xs (omega (arith, k.cap)) (omega (arith, k.most, k.cap))
                  all))
      ]
    ]

-- What a walk that is settled leaves at a place, and its terminator.
abbrev IsSettled : Verba → (ℕ → ℕ) × ℕ → ℕ → Type 0
IsSettled v (m, len) j =
    (m j ≡ v.memory j)
    × (((len ≡ 0) × (m (v.out + v.at) ≡ 0))
        ⊎ ((v.at ≤ len) × (len < v.cap) × (m (v.out + len) ≡ 0)))

abandon-IsSettled :
    (v : Verba) (m : ℕ → ℕ) (j : ℕ)
    → v.at < v.cap
    → (j < v.out + v.at) ⊎ (v.out + v.cap ≤ j)
    → m j ≡ v.memory j
    → IsSettled v (abandon m v.out v.at) j
unfolding abandon
abandon-IsSettled v m j h out same = (ground arith, inl (refl, ground arith))

settle-IsSettled :
    (v : Verba) (o : Walk) (j : ℕ)
    → v.at < v.cap
    → (j < v.out + v.at) ⊎ (v.out + v.cap ≤ j)
    → IsKept v (state o)
    → IsSettled v (settle v o) j
unfolding settle finish
settle-IsSettled v (Walk.abandoned w) j h out k =
    abandon-IsSettled v w.memory j h out (k.memory j out)
settle-IsSettled v (Walk.reached w) j h out k =
    let kept = k.memory j out in
    elim (Bool-cases (leb w.cap w.at)) [
      | inl t ↦ rw t (abandon-IsSettled v w.memory j h out kept)
      | inr t ↦
          let m = update w.memory (w.out + w.at) 0 in
          let left : w.at < w.cap = ground arith in
          let o = k.out in
          let c = k.cap in
          let more = k.more in
          let off : (j == w.out + w.at) ≡ false = ground arith in
          let same : m j ≡ v.memory j = rw off kept in
          rw t (elim (Bool-cases (w.at == 0)) [
            | inl u ↦ rw u (abandon-IsSettled v m j h out same)
            | inr u ↦ rw u (same, inr (k.more, omega arith, ground arith))
          ])
    ]

emit_walk-Ends :
    (fuel : ℕ) (v : Verba) (xs : List Value)
    → v.cap < 2 ^ 64
    → v.at ≤ v.cap
    → AllPlain xs
    → Ends v (emit_walk fuel v xs)
unfolding emit_walk
emit_walk-Ends fuel v [] c le all = (Walk.reached v, refl, IsKept-self v le)
emit_walk-Ends fuel v (x ∷ xs) c le (plain, word, all) =
    let (w, same, k) = emit_one-IsKept fuel v x x.width plain word c le in
    subst (λ (o : Option Verba). Ends v (elim o [ some w ↦ emit_walk fuel w xs | none ↦ none ]))
      (sym same)
      (Ends-then v w (emit_walk fuel w xs) k
        (emit_walk-Ends fuel w xs (omega (arith, k.cap)) (omega (arith, k.most, k.cap)) all))

IsSettled-walk :
    (v : Verba) (o : Option Walk) (j : ℕ)
    → v.at < v.cap
    → (j < v.out + v.at) ⊎ (v.out + v.cap ≤ j)
    → Ends v o
    → (m : ℕ → ℕ) × (len : ℕ) × ((if v.cap == 0
          then some (v.memory, 0)
          else elim o [ some w ↦ some (settle v w) | none ↦ none ])
        ≡ some (m, len))
      × IsSettled v (m, len) j
IsSettled-walk v o j h out (w, same, k) =
    let t : (v.cap == 0) ≡ false = ground arith in
    (
      (settle v w).0,
      (settle v w).1,
      rw t (ap (λ o. elim o [ some w ↦ some (settle v w) | none ↦ none ]) same),
      settle-IsSettled v w j h out k,
    )

-- A build of a spec with values of plain texts, integers and characters of 64 bits, whose offset is inside
-- of a buffer of fewer than 2 ^ 64 bytes, always returns: 0 with the terminator where it began, or a length inside the
-- buffer with the terminator there. What stands before where it began and past the buffer stays.
pub build-settled :
    (fuel : ℕ) (v : Verba) (spec : List Field) (vals : List Value) (j : ℕ)
    → v.cap < 2 ^ 64
    → v.at < v.cap
    → AllPlain vals
    → (j < v.out + v.at) ⊎ (v.out + v.cap ≤ j)
    → (m : ℕ → ℕ) × (len : ℕ) × (build fuel v spec vals ≡ some (m, len))
      × (m j ≡ v.memory j)
      × (((len ≡ 0) × (m (v.out + v.at) ≡ 0))
          ⊎ ((v.at ≤ len) × (len < v.cap) × (m (v.out + len) ≡ 0)))
unfolding build
build-settled fuel v spec vals j c h all out =
    let s =
      IsSettled-walk v (build_walk fuel v spec vals) j h out
        (build_walk-Ends fuel v spec vals c (omega arith) all) in
    (s.0, s.1, s.2, s.3.0, s.3.1)

-- An emit of values of texts, integers and characters, whose offset is inside of a buffer of fewer than
-- 2 ^ 64 bytes, always returns: 0 with the terminator where it began, or a length inside the buffer with
-- the terminator there. What stands before where it began and past the buffer stays.
pub emit-settled :
    (fuel : ℕ) (v : Verba) (vals : List Value) (j : ℕ)
    → v.cap < 2 ^ 64
    → v.at < v.cap
    → AllPlain vals
    → (j < v.out + v.at) ⊎ (v.out + v.cap ≤ j)
    → (m : ℕ → ℕ) × (len : ℕ) × (emit fuel v vals ≡ some (m, len))
      × (m j ≡ v.memory j)
      × (((len ≡ 0) × (m (v.out + v.at) ≡ 0))
          ⊎ ((v.at ≤ len) × (len < v.cap) × (m (v.out + len) ≡ 0)))
unfolding emit
emit-settled fuel v vals j c h all out =
    let s =
      IsSettled-walk v (emit_walk fuel v vals) j h out
        (emit_walk-Ends fuel v vals c (omega arith) all) in
    (s.0, s.1, s.2, s.3.0, s.3.1)
