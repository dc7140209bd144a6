-- ===== src/Prelude/Lists.antt =====
-- C arrays as lists with native indices.
use Prim.Native.Nat.{ℕ, zero, suc, ◌+◌, ◌<◌}
use mathlib.Core.Path.{◌≡◌, refl, ap, ap₂, ◌∙◌}
use mathlib.Core.List.{List, [], ◌∷◌, ◌++◌}
use mathlib.Core.Option.{Option, none, some}
use native.Mathlib.Omega.{arith}
use mathlib.Core.Bool.{true, false}
use mmgr.Prelude.Tests.{if◌then◌else◌, ltb}

module _ {ℓ} {A : Type ℓ} where
  abbrev pub length : List A → ℕ
  length [] = 0
  length (x ∷ xs) = suc (length xs)

  abbrev pub get_elem? : List A → ℕ → Option A
  get_elem? [] i = none
  get_elem? (x ∷ xs) zero = some x
  get_elem? (x ∷ xs) (suc i) = get_elem? xs i

  abbrev pub get_or : List A → ℕ → A → A
  get_or [] i d = d
  get_or (x ∷ xs) zero d = x
  get_or (x ∷ xs) (suc i) d = get_or xs i d

  abbrev pub set : List A → ℕ → A → List A
  set [] i v = []
  set (x ∷ xs) zero v = v ∷ xs
  set (x ∷ xs) (suc i) v = x ∷ set xs i v

  abbrev pub take : ℕ → List A → List A
  take zero xs = []
  take (suc n) [] = []
  take (suc n) (x ∷ xs) = x ∷ take n xs

  abbrev pub drop : ℕ → List A → List A
  drop zero xs = xs
  drop (suc n) [] = []
  drop (suc n) (x ∷ xs) = drop n xs

  pub length-append : (xs ys : List A) → length (xs ++ ys) ≡ length xs + length ys
  length-append [] ys = omega arith
  length-append (x ∷ xs) ys = omega (arith, length-append xs ys)

  pub length-set : (xs : List A) (i : ℕ) (v : A) → length (set xs i v) ≡ length xs
  length-set [] i v = refl
  length-set (x ∷ xs) zero v = refl
  length-set (x ∷ xs) (suc i) v = ap suc (length-set xs i v)

  -- The values of a function below a bound.
  abbrev pub tabulate : ℕ → (ℕ → A) → List A
  tabulate zero f = []
  tabulate (suc n) f = f 0 ∷ tabulate n (λ i. f (suc i))

  pub length-tabulate : (n : ℕ) (f : ℕ → A) → length (tabulate n f) ≡ n
  length-tabulate zero f = refl
  length-tabulate (suc n) f = ap suc (length-tabulate n (λ i. f (suc i)))

  pub tabulate-agree :
      (n : ℕ) (f g : ℕ → A) → ((i : ℕ) → i < n → f i ≡ g i) → tabulate n f ≡ tabulate n g
  tabulate-agree zero f g h = refl
  tabulate-agree (suc n) f g h =
      ap₂ ◌∷◌ (h 0 (omega arith))
        (tabulate-agree n (λ i. f (suc i)) (λ i. g (suc i)) (λ i l. h (suc i) (omega arith)))

  pub tabulate-add :
      (k n : ℕ) (f : ℕ → A) → tabulate (k + n) f ≡ tabulate k f ++ tabulate n (λ i. f (k + i))
  tabulate-add zero n f =
      let e : 0 + n ≡ n = omega arith in
      rw e (tabulate-agree n f (λ i. f (0 + i)) (λ i l. ap f (omega arith)))
  tabulate-add (suc k) n f =
      let e : suc k + n ≡ suc (k + n) = omega arith in
      rw e (
        ap (λ xs. f 0 ∷ xs)
          (tabulate-add k n (λ i. f (suc i))
            ∙ ap (λ xs. tabulate k (λ i. f (suc i)) ++ xs)
                (tabulate-agree n (λ i. f (suc (k + i))) (λ i. f (suc k + i))
                  (λ i l. ap f (omega arith)))))

  pub get_elem?-tabulate :
      (n : ℕ) (f : ℕ → A) (j : ℕ)
      → get_elem? (tabulate n f) j ≡ (if ltb j n then some (f j) else none)
  get_elem?-tabulate zero f j = let t : ltb j 0 ≡ false = ground arith in rw t refl
  get_elem?-tabulate (suc n) f zero = let t : ltb 0 (suc n) ≡ true = ground arith in rw t refl
  get_elem?-tabulate (suc n) f (suc j) =
      let t : ltb (suc j) (suc n) ≡ ltb j n = ground arith in
      rw t (get_elem?-tabulate n (λ i. f (suc i)) j)
