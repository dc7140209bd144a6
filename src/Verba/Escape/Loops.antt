-- ===== src/Verba/Escape/Loops.antt =====
-- The loops of src/verba_scribo over a text write its characters' pieces, one after another.
use mmgr.Prelude.{
  ℕ, zero, suc, ◌+◌, ◌/◌, ◌%◌, ◌≤◌, ◌<◌, ◌≡◌, ◌≢◌, ◌⊎◌, refl, arith, ap, ◌∙◌, sym, inl, inr,
}
use mmgr.Prelude.{
  List, [], ◌∷◌, ◌++◌, get_or, Bool, true, false, if◌then◌else◌, ◌==◌, ltb, Bool-cases, Option,
  none, some,
}
use mathlib.Core.Path.{ap₂}
use mmgr.Prelude.Below.{all_below, all_below_lem}
use mmgr.Memoria.Marks.{run_bytes}
use mmgr.Verba.{Verba, room, put_literal, ch}
use mmgr.Verba.Text.{placed-agree, hex_char}
use mmgr.Verba.Append.{append, append_list, ch-append, put_literal-append}
use mmgr.Verba.Chain.{chain, chain-append, chain-keeps}
use mmgr.Verba.Escape.{entity, xml_char, xml_loop, short_escape, json_char, json_loop}

-- The name of a character's entity in XML, or none.
abbrev pub xml_name : ℕ → List ℕ
xml_name c =
    if c == b'&'
    then b'a' ∷ b'm' ∷ b'p' ∷ []
    else if c == b'<'
    then b'l' ∷ b't' ∷ []
    else if c == b'>'
    then b'g' ∷ b't' ∷ []
    else if c == b'"'
    then b'q' ∷ b'u' ∷ b'o' ∷ b't' ∷ []
    else []

-- A character, or its entity by the name.
abbrev pub named : ℕ → List ℕ → List ℕ
named c [] = c ∷ []
named c (b ∷ bs) = b'&' ∷ (b ∷ bs ++ (b';' ∷ []))

-- What a character of the text becomes.
abbrev pub xml_piece : ℕ → List (List ℕ)
xml_piece c = named c (xml_name c) ∷ []

-- The letter of a character's short escape in JSON, or 0.
abbrev pub json_letter : ℕ → ℕ
json_letter c =
    if c == b'"'
    then b'"'
    else if c == 92
    then 92
    else if c == 8
    then b'b'
    else if c == 9
    then b't'
    else if c == 10
    then b'n'
    else if c == 12
    then b'f'
    else if c == 13
    then b'r'
    else 0

abbrev pub json_piece : ℕ → List (List ℕ)
json_piece c =
    if json_letter c == 0
    then if ltb c 0x20
      then (92 ∷ b'u' ∷ b'0' ∷ b'0' ∷ [])
        ∷ (hex_char (c / 16 % 16) ∷ [])
        ∷ (hex_char (c % 16) ∷ [])
        ∷ []
      else (c ∷ []) ∷ []
    else (92 ∷ []) ∷ (json_letter c ∷ []) ∷ []

is_lettered : ℕ → Bool
unfolding short_escape
is_lettered c = short_escape c == json_letter c

all_lettered : all_below 0x20 is_lettered ≡ true
unfolding is_lettered
all_lettered = refl

-- The table of short escapes has the letters of JSON.
pub short_escape-letter : (c : ℕ) → short_escape c ≡ json_letter c
unfolding short_escape is_lettered
short_escape-letter c = elim (Bool-cases (ltb c 0x20)) [
  | inl t ↦
      let small : c < 0x20 = ground arith in
      let same = all_below_lem 0x20 is_lettered all_lettered c small in ground arith
  | inr t ↦ ground arith
]

abbrev pub pieces : (ℕ → List (List ℕ)) → List ℕ → List (List ℕ)
pieces f [] = []
pieces f (c ∷ cs) = f c ++ pieces f cs

first_same : (c i : ℕ) → i < 1 → c ≡ get_or (c ∷ []) i 0
first_same c zero l = refl
first_same c (suc i) l = absurd (omega arith)

pub ch-list : (v : Verba) (c : ℕ) → ch v c ≡ append_list v (c ∷ [])
unfolding append
ch-list v c =
    ch-append v c
    ∙ ap (λ m. if room v 1 then record v { memory = m; at = v.at + 1 } else record v { at = v.cap })
        (placed-agree v.memory (v.out + v.at) 1 (λ i. c) (λ i. get_or (c ∷ []) i 0)
          (λ i l. first_same c i l))

-- A named character has an entity, and no other.
abbrev spelled : List ℕ → Option (List ℕ)
spelled [] = none
spelled (b ∷ bs) = some (b'&' ∷ (b ∷ bs ++ (b';' ∷ [])))

entity-name : (c : ℕ) → entity c ≡ spelled (xml_name c)
unfolding entity
entity-name c = elim (Bool-cases (c == b'&')) [
  | inl t ↦ rw t refl
  | inr t ↦ elim (Bool-cases (c == b'<')) [
    | inl u ↦ rw (t, u) refl
    | inr u ↦ elim (Bool-cases (c == b'>')) [
      | inl w ↦ rw (t, u, w) refl
      | inr w ↦ elim (Bool-cases (c == b'"')) [
        | inl x ↦ rw (t, u, w, x) refl
        | inr x ↦ rw (t, u, w, x) refl
      ]
    ]
  ]
]

spelled-chain :
    (v : Verba) (c : ℕ) (name : List ℕ)
    → (elim (spelled name) [ some rep ↦ put_literal v rep | none ↦ ch v c ])
      ≡ chain v (named c name ∷ [])
spelled-chain v c [] = ch-list v c
spelled-chain v c (b ∷ bs) = put_literal-append v (b'&' ∷ (b ∷ bs ++ (b';' ∷ [])))

xml_char-chain : (v : Verba) (c : ℕ) → xml_char v c ≡ chain v (xml_piece c)
unfolding xml_char
xml_char-chain v c =
    ap (λ o. elim o [ some rep ↦ put_literal v rep | none ↦ ch v c ]) (entity-name c)
    ∙ spelled-chain v c (xml_name c)

lettered-chain :
    (v : Verba) (c two : ℕ)
    → (if two == 0
        then if ltb c 0x20
          then ch
              (ch (put_literal v (92 ∷ b'u' ∷ b'0' ∷ b'0' ∷ [])) (hex_char (c / 16 % 16)))
              (hex_char (c % 16))
          else ch v c
        else ch (ch v 92) two)
      ≡ chain v (
          if two == 0
          then if ltb c 0x20
            then (92 ∷ b'u' ∷ b'0' ∷ b'0' ∷ [])
              ∷ (hex_char (c / 16 % 16) ∷ [])
              ∷ (hex_char (c % 16) ∷ [])
              ∷ []
            else (c ∷ []) ∷ []
          else (92 ∷ []) ∷ (two ∷ []) ∷ [])
lettered-chain v c two = elim (Bool-cases (two == 0)) [
  | inl s ↦ elim (Bool-cases (ltb c 0x20)) [
    | inl t ↦
        let h = hex_char (c / 16 % 16) in
        let l = hex_char (c % 16) in
        rw (s, t)
          (ch-list (ch (put_literal v (92 ∷ b'u' ∷ b'0' ∷ b'0' ∷ [])) h) l
            ∙ ap (λ w. append_list w (l ∷ []))
                (ch-list (put_literal v (92 ∷ b'u' ∷ b'0' ∷ b'0' ∷ [])) h
                  ∙ ap (λ w. append_list w (h ∷ [])) (put_literal-append v _)))
    | inr t ↦ rw (s, t) (ch-list v c)
  ]
  | inr s ↦ rw s (ch-list (ch v 92) two ∙ ap (λ w. append_list w (two ∷ [])) (ch-list v 92))
]

json_char-chain : (v : Verba) (c : ℕ) → json_char v c ≡ chain v (json_piece c)
unfolding json_char
json_char-chain v c = rw (short_escape-letter c) (lettered-chain v c (json_letter c))

pub run-agree :
    (n : ℕ) (m m' : ℕ → ℕ) (a : ℕ)
    → ((i : ℕ) → i < n → m' (a + i) ≡ m (a + i))
    → run_bytes n m' a ≡ run_bytes n m a
run-agree zero m m' a h = refl
run-agree (suc n) m m' a h =
    let z : a + 0 ≡ a = omega arith in
    let first_same : m' a ≡ m a = ap m' (sym z) ∙ h 0 (omega arith) ∙ ap m z in
    ap₂ ◌∷◌ first_same (
      run-agree n m m' (a + 1) (λ i l.
        let e : a + 1 + i ≡ a + suc i = omega arith in
        ap m' e ∙ h (suc i) (omega arith) ∙ ap m (sym e)))

-- A text of `n` bytes before its terminator, outside of the buffer.
pub record IsText (v : Verba) (text n : ℕ) : Type 0 where
  pub bytes : (i : ℕ) → i < n → v.memory (text + i) ≢ 0
  pub terminator : v.memory (text + n) ≡ 0
  pub apart : (text + n < v.out) ⊎ (v.out + v.cap ≤ text)
  pub at : v.at ≤ v.cap

-- What a character's pieces leave of the rest of the text.
rest_kept :
    (v : Verba) (text n : ℕ) (ps : List (List ℕ)) (i : ℕ)
    → IsText v text (suc n)
    → i ≤ suc n
    → (chain v ps).memory (text + i) ≡ v.memory (text + i)
rest_kept v text n ps i h l =
    (chain-keeps ps v (text + i)
      (elim h.apart [ inl below ↦ inl (omega arith) | inr above ↦ inr (omega arith) ]) h.at).0

same_kept :
    (v : Verba) (text n : ℕ) (ps : List (List ℕ)) (i : ℕ)
    → IsText v text n
    → i ≤ n
    → (chain v ps).memory (text + i) ≡ v.memory (text + i)
same_kept v text n ps i h l =
    (chain-keeps ps v (text + i)
      (elim h.apart [ inl below ↦ inl (omega arith) | inr above ↦ inr (omega arith) ]) h.at).0

-- What is written leaves the text.
pub kept_IsText :
    (v : Verba) (text n : ℕ) (ps : List (List ℕ)) → IsText v text n → IsText (chain v ps) text n
kept_IsText v text n ps h =
    let k =
      chain-keeps ps v (text + 0)
        (elim h.apart [ inl below ↦ inl (omega arith) | inr above ↦ inr (omega arith) ]) h.at in
    record {
      bytes = λ i l. rw (same_kept v text n ps i h (omega arith)) (h.bytes i l);
      terminator = same_kept v text n ps n h (omega arith) ∙ h.terminator;
      apart = elim h.apart [ inl below ↦ inl (omega arith) | inr above ↦ inr (omega arith) ];
      at = omega arith;
    }

pub chain-run :
    (v : Verba) (text n : ℕ) (ps : List (List ℕ))
    → IsText v text n
    → run_bytes n (chain v ps).memory text ≡ run_bytes n v.memory text
chain-run v text n ps h =
    run-agree n v.memory (chain v ps).memory text (λ i l. same_kept v text n ps i h (omega arith))

rest_IsText :
    (v : Verba) (text n : ℕ) (ps : List (List ℕ))
    → IsText v text (suc n)
    → IsText (chain v ps) (text + 1) n
rest_IsText v text n ps h =
    let k =
      chain-keeps ps v (text + 0)
        (elim h.apart [ inl below ↦ inl (omega arith) | inr above ↦ inr (omega arith) ]) h.at in
    record {
      bytes = λ i l.
          let e : text + 1 + i ≡ text + suc i = omega arith in
          rw (e, rest_kept v text n ps (suc i) h (omega arith)) (h.bytes (suc i) (omega arith));
      terminator =
          let e : text + 1 + n ≡ text + suc n = omega arith in
          ap (chain v ps).memory e ∙ rest_kept v text n ps (suc n) h (omega arith) ∙ h.terminator;
      apart = elim h.apart [ inl below ↦ inl (omega arith) | inr above ↦ inr (omega arith) ];
      at = omega arith;
    }

-- The characters after one.
rest_pieces :
    (f : ℕ → List (List ℕ)) (v : Verba) (text n : ℕ)
    → IsText v text (suc n)
    → let w = chain v (f (v.memory text)) in
      chain w (pieces f (run_bytes n w.memory (text + 1)))
      ≡ chain v (pieces f (run_bytes (suc n) v.memory text))
rest_pieces f v text n h =
    let w = chain v (f (v.memory text)) in
    ap (λ bs. chain w (pieces f bs))
      (run-agree n v.memory w.memory (text + 1) (λ i l.
        let e : text + 1 + i ≡ text + suc i = omega arith in
        ap w.memory e
        ∙ rest_kept v text n (f (v.memory text)) (suc i) h (omega arith)
        ∙ ap v.memory (sym e)))
    ∙ sym (chain-append v (f (v.memory text)) (pieces f (run_bytes n v.memory (text + 1))))

first_byte : (v : Verba) (text n : ℕ) → IsText v text (suc n) → (v.memory text == 0) ≡ false
first_byte v text n h =
    let z : text + 0 ≡ text = omega arith in
    let some_byte : v.memory text ≢ 0 = rw (← z) (h.bytes 0 (omega arith)) in ground arith

last_byte : (v : Verba) (text : ℕ) → IsText v text 0 → (v.memory text == 0) ≡ true
last_byte v text h =
    let z : text + 0 ≡ text = omega arith in
    let t : v.memory text ≡ 0 = ap v.memory (sym z) ∙ h.terminator in ground arith

pub xml_loop-chain :
    (fuel n : ℕ) (v : Verba) (text : ℕ)
    → n < fuel
    → IsText v text n
    → xml_loop fuel v text ≡ some (chain v (pieces xml_piece (run_bytes n v.memory text)))
unfolding xml_loop
xml_loop-chain zero n v text l h = absurd (omega arith)
xml_loop-chain (suc fuel) zero v text l h = rw (last_byte v text h) refl
xml_loop-chain (suc fuel) (suc n) v text l h =
    let w = chain v (xml_piece (v.memory text)) in
    rw (first_byte v text n h) (
      ap (λ w. xml_loop fuel w (text + 1)) (xml_char-chain v (v.memory text))
      ∙ xml_loop-chain fuel n w (text + 1) (omega arith)
          (rest_IsText v text n (xml_piece (v.memory text)) h)
      ∙ ap some (rest_pieces xml_piece v text n h))

pub json_loop-chain :
    (fuel n : ℕ) (v : Verba) (text : ℕ)
    → n < fuel
    → IsText v text n
    → json_loop fuel v text ≡ some (chain v (pieces json_piece (run_bytes n v.memory text)))
unfolding json_loop
json_loop-chain zero n v text l h = absurd (omega arith)
json_loop-chain (suc fuel) zero v text l h = rw (last_byte v text h) refl
json_loop-chain (suc fuel) (suc n) v text l h =
    let w = chain v (json_piece (v.memory text)) in
    rw (first_byte v text n h) (
      ap (λ w. json_loop fuel w (text + 1)) (json_char-chain v (v.memory text))
      ∙ json_loop-chain fuel n w (text + 1) (omega arith)
          (rest_IsText v text n (json_piece (v.memory text)) h)
      ∙ ap some (rest_pieces json_piece v text n h))
