-- ===== src/Verba/Chain.antt =====
-- Writes of src/verba_scribo one after another: what they come to, and that a refusal stays.
use mmgr.Prelude.{ℕ, zero, suc, ◌+◌, ◌≤◌, ◌<◌, ◌≡◌, ◌⊎◌, refl, arith, ap, ◌∙◌, sym}
use mmgr.Prelude.{
  List, [], ◌∷◌, ◌++◌, length, length-append, get_or, true, false, Bool-cases, inl, inr,
}
use mathlib.Core.Path.{ap₂}
use mathlib.Core.List.{append_assoc}
use mmgr.Verba.{Verba, room}
use mmgr.Verba.Text.{placed, placed-agree, placed-then}
use mmgr.Verba.Append.{append, append_list}

-- Texts written one after another, and the one text that they make.
abbrev pub chain : Verba → List (List ℕ) → Verba
chain v [] = v
chain v (p ∷ ps) = chain (append_list v p) ps

abbrev pub joined : List (List ℕ) → List ℕ
joined [] = []
joined (p ∷ ps) = p ++ joined ps

pub chain-append : (v : Verba) (ps qs : List (List ℕ)) → chain v (ps ++ qs) ≡ chain (chain v ps) qs
chain-append v [] qs = refl
chain-append v (p ∷ ps) qs = chain-append (append_list v p) ps qs

pub joined-append : (ps qs : List (List ℕ)) → joined (ps ++ qs) ≡ joined ps ++ joined qs
joined-append [] qs = refl
joined-append (p ∷ ps) qs =
    ap (λ x. p ++ x) (joined-append ps qs) ∙ sym (append_assoc p (joined ps) (joined qs))

append-fits :
    (v : Verba) (n : ℕ) (text : ℕ → ℕ)
    → room v n ≡ true
    → append v n text ≡ record v { memory = placed v.memory (v.out + v.at) n text; at = v.at + n }
unfolding append
append-fits v n text t = rw t refl

append-refused :
    (v : Verba) (n : ℕ) (text : ℕ → ℕ)
    → room v n ≡ false
    → append v n text ≡ record v { at = v.cap }
unfolding append
append-refused v n text t = rw t refl

room_first :
    (v : Verba) (k n : ℕ) (m : ℕ → ℕ)
    → room v (k + n) ≡ true
    → (room v k ≡ true) × (room (record v { memory = m; at = v.at + k }) n ≡ true)
unfolding room
room_first v k n m t = (ground arith, ground arith)

room_second :
    (v : Verba) (k n : ℕ) (m : ℕ → ℕ)
    → room v k ≡ true
    → room v (k + n) ≡ false
    → room (record v { memory = m; at = v.at + k }) n ≡ false
unfolding room
room_second v k n m t u = ground arith

past_cap : (v : Verba) (n : ℕ) → v.at ≡ v.cap → room v n ≡ false
unfolding room
past_cap v n e = ground arith

no_room : (v : Verba) → room v 0 ≡ false → v.at ≤ v.cap → v.at ≡ v.cap
unfolding room
no_room v t h = ground arith

inside : (v : Verba) (n : ℕ) → room v n ≡ true → v.at + n ≤ v.cap
unfolding room
inside v n t = ground arith

get_or-left : (xs ys : List ℕ) (i : ℕ) → i < length xs → get_or (xs ++ ys) i 0 ≡ get_or xs i 0
get_or-left [] ys i h = absurd (omega arith)
get_or-left (x ∷ xs) ys zero h = refl
get_or-left (x ∷ xs) ys (suc i) h = get_or-left xs ys i (omega arith)

get_or-right : (xs ys : List ℕ) (i : ℕ) → get_or (xs ++ ys) (length xs + i) 0 ≡ get_or ys i 0
get_or-right [] ys i = ap (λ k. get_or ys k 0) (omega arith)
get_or-right (x ∷ xs) ys i =
    let e : length (x ∷ xs) + i ≡ suc (length xs + i) = omega arith in rw e (get_or-right xs ys i)

nothing_at : (m : ℕ → ℕ) (a j : ℕ) (text : ℕ → ℕ) → placed m a 0 text j ≡ m j
unfolding placed
nothing_at m a j text = ground arith

plus_zero : (n : ℕ) → n + 0 ≡ n
plus_zero n = omega arith

append_nothing : (v : Verba) (text : ℕ → ℕ) → room v 0 ≡ true → append v 0 text ≡ v
append_nothing v text t = append-fits v 0 text t ∙ λ i. record v {
  memory = λ j. nothing_at v.memory (v.out + v.at) j text i;
  at = plus_zero v.at i;
}

-- Two texts that there is room for, and the one that they make.
pub append-append :
    (v : Verba) (k n : ℕ) (f g text : ℕ → ℕ)
    → room v (k + n) ≡ true
    → ((i : ℕ) → i < k → f i ≡ text i)
    → ((i : ℕ) → i < n → g i ≡ text (k + i))
    → append (append v k f) n g ≡ append v (k + n) text
append-append v k n f g text t ef eg =
    let a = v.out + v.at in
    let m = placed v.memory a k f in
    let (first, second) = room_first v k n m t in
    let e : v.out + (v.at + k) ≡ a + k = omega arith in
    let h : v.at + k + n ≡ v.at + (k + n) = omega arith in
    let same : placed m (a + k) n g ≡ placed v.memory a (k + n) text =
      ap (λ w. placed w (a + k) n g) (placed-agree v.memory a k f text ef)
      ∙ placed-agree (placed v.memory a k text) (a + k) n g (λ i. text (k + i)) eg
      ∙ placed-then v.memory a k n text in
    ap (λ w. append w n g) (append-fits v k f first)
    ∙ append-fits (record v { memory = m; at = v.at + k }) n g second
    ∙ ap₂ (λ a n'. record v { memory = placed m a n g; at = n' }) e h
    ∙ ap (λ m. record v { memory = m; at = v.at + (k + n) }) same
    ∙ sym (append-fits v (k + n) text t)

two_fit :
    (v : Verba) (xs ys : List ℕ)
    → room v (length xs + length ys) ≡ true
    → append_list (append_list v xs) ys ≡ append_list v (xs ++ ys)
two_fit v xs ys t =
    append-append v (length xs) (length ys) (λ i. get_or xs i 0) (λ i. get_or ys i 0)
      (λ i. get_or (xs ++ ys) i 0) t (λ i l. sym (get_or-left xs ys i l))
      (λ i l. sym (get_or-right xs ys i))
    ∙ ap (λ n. append v n (λ i. get_or (xs ++ ys) i 0)) (sym (length-append xs ys))

-- Texts that there is room for, one after another, leave what their one text does.
pub chain-fits :
    (ps : List (List ℕ)) (v : Verba)
    → room v (length (joined ps)) ≡ true
    → chain v ps ≡ append_list v (joined ps)
chain-fits [] v t = sym (append_nothing v (λ i. 0) t)
chain-fits (p ∷ ps) v t =
    let both : room v (length p + length (joined ps)) ≡ true =
      rw (← length-append p (joined ps)) t in
    let m = placed v.memory (v.out + v.at) (length p) (λ i. get_or p i 0) in
    let (first, second) = room_first v (length p) (length (joined ps)) m both in
    let same = append-fits v (length p) (λ i. get_or p i 0) first in
    chain-fits ps (append_list v p) (rw same second) ∙ two_fit v p (joined ps) both

-- Where there is no room, a text after it finds none.
full_chain : (ps : List (List ℕ)) (v : Verba) → v.at ≡ v.cap → (chain v ps).at ≡ v.cap
full_chain [] v e = e
full_chain (p ∷ ps) v e =
    let full : room v (length p) ≡ false = past_cap v (length p) e in
    ap (λ w. (chain w ps).at) (append-refused v (length p) (λ i. get_or p i 0) full)
    ∙ full_chain ps (record v { at = v.cap }) refl

-- Where a text among them does not fit, the offset ends at the capacity.
pub chain-refused :
    (ps : List (List ℕ)) (v : Verba)
    → room v (length (joined ps)) ≡ false
    → v.at ≤ v.cap
    → (chain v ps).at ≡ v.cap
chain-refused [] v t h = no_room v t h
chain-refused (p ∷ ps) v t h = elim (Bool-cases (room v (length p))) [
  | inl fits ↦
      let m = placed v.memory (v.out + v.at) (length p) (λ i. get_or p i 0) in
      let both : room v (length p + length (joined ps)) ≡ false =
        rw (← length-append p (joined ps)) t in
      ap (λ w. (chain w ps).at) (append-fits v (length p) (λ i. get_or p i 0) fits)
      ∙ chain-refused ps (record v { memory = m; at = v.at + length p })
          (room_second v (length p) (length (joined ps)) m fits both) (inside v (length p) fits)
  | inr refused ↦
      ap (λ w. (chain w ps).at) (append-refused v (length p) (λ i. get_or p i 0) refused)
      ∙ full_chain ps (record v { at = v.cap }) refl
]

pub append-keeps :
    (v : Verba) (n : ℕ) (text : ℕ → ℕ) (j : ℕ)
    → (j < v.out + v.at) ⊎ (v.out + v.cap ≤ j + 1)
    → v.at ≤ v.cap
    → ((append v n text).memory j ≡ v.memory j)
      × ((append v n text).out ≡ v.out)
      × ((append v n text).cap ≡ v.cap)
      × (v.at ≤ (append v n text).at)
      × ((append v n text).at ≤ v.cap)
unfolding append room placed
append-keeps v n text j h le = elim (Bool-cases (room v n)) [
  | inl t ↦ rw t (ground arith, refl, refl, omega arith, ground arith)
  | inr t ↦ rw t (refl, refl, refl, le, omega arith)
]

-- Texts written one after another write nothing before the offset or in the last byte of the buffer,
-- nor past it, and move neither buffer nor capacity.
pub chain-keeps :
    (ps : List (List ℕ)) (v : Verba) (j : ℕ)
    → (j < v.out + v.at) ⊎ (v.out + v.cap ≤ j + 1)
    → v.at ≤ v.cap
    → ((chain v ps).memory j ≡ v.memory j)
      × ((chain v ps).out ≡ v.out)
      × ((chain v ps).cap ≡ v.cap)
      × (v.at ≤ (chain v ps).at)
      × ((chain v ps).at ≤ v.cap)
chain-keeps [] v j h le = (refl, refl, refl, omega arith, le)
chain-keeps (p ∷ ps) v j h le =
    let a = append-keeps v (length p) (λ i. get_or p i 0) j h le in
    let w = append_list v p in
    let b = chain-keeps ps w j (omega arith) (omega arith) in
    (b.0 ∙ a.0, b.1 ∙ a.1, b.2 ∙ a.2, omega arith, omega arith)
