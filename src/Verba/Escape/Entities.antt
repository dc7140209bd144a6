-- ===== src/Verba/Escape/Entities.antt =====
-- A reader of XML text, against the one that src/verba_scribo writes.
use mmgr.Prelude.{ℕ, zero, suc, ◌+◌, ◌-◌, ◌≤◌, ◌<◌, ◌≡◌, refl, arith, ap, ◌∙◌, inl, inr}
use mmgr.Prelude.{
  List, [], ◌∷◌, ◌++◌, length, Bool, true, false, ◌||◌, if◌then◌else◌, ◌==◌, Bool-cases, Option,
  none, some,
}
use mmgr.Memoria.Marks.{run_bytes}
use mmgr.Verba.{Verba, room}
use mmgr.Verba.Append.{append_list}
use mmgr.Verba.Chain.{joined, joined-append}
use mmgr.Verba.Escape.{xml}
use mmgr.Verba.Escape.Loops.{IsText, pieces, xml_name, named, xml_piece}
use mmgr.Verba.Escape.Written.{xml_text, xml-written}
use mmgr.Verba.Escape.Reader.{pieces_long}
use mmgr.Verba.Escape.Back.{written_text}

-- What follows a prefix.
after : List ℕ → List ℕ → Option (List ℕ)
after [] s = some s
after (p ∷ ps) [] = none
after (p ∷ ps) (c ∷ s) = let rest = after ps s in if p == c then rest else none

-- The character that a name ahead of a semicolon stands for, and what follows it.
read_name : List ℕ → Option (ℕ × List ℕ)
read_name s = elim (after (b'a' ∷ b'm' ∷ b'p' ∷ b';' ∷ []) s) [
  | some rest ↦ some (b'&', rest)
  | none ↦ elim (after (b'l' ∷ b't' ∷ b';' ∷ []) s) [
    | some rest ↦ some (b'<', rest)
    | none ↦ elim (after (b'g' ∷ b't' ∷ b';' ∷ []) s) [
      | some rest ↦ some (b'>', rest)
      | none ↦ elim (after (b'q' ∷ b'u' ∷ b'o' ∷ b't' ∷ b';' ∷ []) s) [
        | some rest ↦ some (b'"', rest)
        | none ↦ none
      ]
    ]
  ]
]

-- One character, and what follows it; a bracket or a quote stands as its entity only.
read_char : List ℕ → Option (ℕ × List ℕ)
read_char [] = none
read_char (c ∷ s) =
    if c == b'&'
    then read_name s
    else if (c == b'<') || (c == b'>') || (c == b'"')
    then none
    else some (c, s)

abbrev is_empty : List ℕ → Bool
is_empty [] = true
is_empty (c ∷ s) = false

read_chars : ℕ → List ℕ → Option (List ℕ)
read_chars zero s = none
read_chars (suc fuel) s =
    let next : Option (List ℕ) = elim (read_char s) [
      | some (c, s') ↦ elim (read_chars fuel s') [ some cs ↦ some (c ∷ cs) | none ↦ none ]
      | none ↦ none
    ] in
    if is_empty s then some [] else next

-- The characters of XML text to its end, the entities among them.
pub read_xml : List ℕ → Option (List ℕ)
read_xml s = read_chars (length s + 1) s

abbrev got : ℕ → List ℕ → Option (ℕ × List ℕ)
got c s = some (c, s)

known : (c k : ℕ) (s : List ℕ) → (c == k) ≡ true → got k s ≡ got c s
known c k s t = let e : k ≡ c = ground arith in ap (λ x. got x s) e

plain_read :
    (c : ℕ) (s : List ℕ)
    → (c == b'&') ≡ false
    → ((c == b'<') || (c == b'>') || (c == b'"')) ≡ false
    → read_char (c ∷ s) ≡ some (c, s)
unfolding read_char
plain_read c s t u = rw (t, u) refl

char_read : (c : ℕ) (s : List ℕ) → read_char (joined (xml_piece c) ++ s) ≡ some (c, s)
unfolding read_char read_name after
char_read c s = elim (Bool-cases (c == b'&')) [
  | inl t ↦ rw t (known c b'&' s t)
  | inr t ↦ elim (Bool-cases (c == b'<')) [
    | inl u ↦ rw (t, u) (known c b'<' s u)
    | inr u ↦ elim (Bool-cases (c == b'>')) [
      | inl w ↦ rw (t, u, w) (known c b'>' s w)
      | inr w ↦ elim (Bool-cases (c == b'"')) [
        | inl x ↦ rw (t, u, w, x) (known c b'"' s x)
        | inr x ↦ rw (t, u, w, x) (plain_read c s t (ground arith))
      ]
    ]
  ]
]

named_long : (c : ℕ) (name : List ℕ) → 1 ≤ length (joined (named c name ∷ []))
named_long c [] = omega arith
named_long c (b ∷ bs) = omega arith

filled : (s t : List ℕ) → 1 ≤ length s → is_empty (s ++ t) ≡ false
filled [] t h = absurd (omega arith)
filled (c ∷ s) t h = refl

chars_step :
    (fuel c : ℕ) (s s' cs : List ℕ)
    → read_char s ≡ some (c, s')
    → is_empty s ≡ false
    → read_chars fuel s' ≡ some cs
    → read_chars (suc fuel) s ≡ some (c ∷ cs)
unfolding read_chars
chars_step fuel c s s' cs e f g = rw f (
    ap
      (λ o. elim o [
        | some (c, s') ↦ elim (read_chars fuel s') [ some cs ↦ some (c ∷ cs) | none ↦ none ]
        | none ↦ none
      ])
      e
    ∙ ap (λ o. elim o [ some cs ↦ some (c ∷ cs) | none ↦ none ]) g)

chars_read :
    (fuel : ℕ) (bs : List ℕ)
    → length bs < fuel
    → read_chars fuel (joined (pieces xml_piece bs)) ≡ some bs
chars_read zero bs l = absurd (omega arith)
chars_read (suc fuel) [] l = unfold read_chars in refl
chars_read (suc fuel) (c ∷ cs) l =
    let rest = joined (pieces xml_piece cs) in
    ap (read_chars (suc fuel)) (joined-append (xml_piece c) (pieces xml_piece cs))
    ∙ chars_step fuel c (joined (xml_piece c) ++ rest) rest cs (char_read c rest)
        (filled (joined (xml_piece c)) rest (named_long c (xml_name c)))
        (chars_read fuel cs (omega arith))

-- A text's XML is read back as the text.
read_xml-xml_text : (bs : List ℕ) → read_xml (xml_text bs) ≡ some bs
unfolding read_xml
read_xml-xml_text bs =
    let few = pieces_long xml_piece bs (λ c. named_long c (xml_name c)) in
    chars_read (length (xml_text bs) + 1) bs (omega arith)

-- A text that is not NULL, of `n` bytes and a terminator outside the buffer, whose XML there is room for
-- after an offset within the capacity: the loop ends, and what is written is read as XML text, where
-- ampersands begin entities, and brackets and quotes stand as entities only, that is the text. More rounds
-- than the text has bytes are enough.
pub xml-read_xml :
    (fuel n : ℕ) (v : Verba) (text : ℕ)
    → 0 < text
    → n < fuel
    → IsText v text n
    → room v (length (xml_text (run_bytes n v.memory text))) ≡ true
    → (w : Verba) × (xml fuel v text ≡ some w)
      × (read_xml (run_bytes (w.at - v.at) w.memory (v.out + v.at))
          ≡ some (run_bytes n v.memory text))
xml-read_xml fuel n v text pos l h t =
    let bs = run_bytes n v.memory text in
    (
      append_list v (xml_text bs),
      xml-written fuel n v text pos l h t,
      ap read_xml (written_text v (xml_text bs) t) ∙ read_xml-xml_text bs,
    )
