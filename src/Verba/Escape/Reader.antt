-- ===== src/Verba/Escape/Reader.antt =====
-- A reader of JSON strings, against the one of src/verba_scribo.
use mmgr.Prelude.{ℕ, zero, suc, ◌+◌, ◌-◌, ◌*◌, ◌/◌, ◌%◌, ◌≤◌, ◌<◌, ◌≡◌, refl, arith, ap, ◌∙◌}
use mmgr.Prelude.{
  List, [], ◌∷◌, ◌++◌, length, length-append, Bool, true, false, not, ◌&&◌, ◌||◌, if◌then◌else◌,
  ◌==◌, ltb, leb, Option, none, some,
}
use mathlib.Core.List.{append_assoc}
use mmgr.Prelude.Below.{all_below, all_below_lem}
use mmgr.Prelude.Value.{AllBytes}
use mmgr.Verba.Text.{hex_char}
use mmgr.Verba.Chain.{joined, joined-append}
use mmgr.Verba.Escape.Loops.{pieces, json_letter, json_piece}
use mmgr.Verba.Escape.Written.{json_text}

-- A digit of base 16 in lower case.
abbrev is_hex : ℕ → Bool
is_hex c = (leb b'0' c && leb c b'9') || (leb b'a' c && leb c b'f')

abbrev hex_value : ℕ → ℕ
hex_value c = if ltb c 58 then c - b'0' else c - 87

-- The byte of a short escape of JSON, or 0 where the letter is none.
abbrev letter : ℕ → ℕ
letter e =
    if (e == b'"') || (e == 92) || (e == b'/')
    then e
    else if e == b'b'
    then 8
    else if e == b't'
    then 9
    else if e == b'n'
    then 10
    else if e == b'f'
    then 12
    else if e == b'r'
    then 13
    else 0

abbrev are_hex : ℕ → ℕ → ℕ → ℕ → Bool
are_hex a b h l = is_hex a && is_hex b && is_hex h && is_hex l

-- Four digits of base 16.
read_hex : List ℕ → Option (ℕ × List ℕ)
read_hex (a ∷ b ∷ h ∷ l ∷ s) =
    if are_hex a b h l
    then some (((hex_value a * 16 + hex_value b) * 16 + hex_value h) * 16 + hex_value l, s)
    else none
read_hex s = none

read_escape : List ℕ → Option (ℕ × List ℕ)
read_escape [] = none
read_escape (e ∷ s) =
    if e == b'u' then read_hex s else if letter e == 0 then none else some (letter e, s)

-- One character, and what follows it; a byte below 0x20 stands escaped only.
read_one : List ℕ → Option (ℕ × List ℕ)
read_one [] = none
read_one (c ∷ s) = if c == 92 then read_escape s else if ltb c 0x20 then none else some (c, s)

abbrev is_quote : List ℕ → Bool
is_quote [] = false
is_quote (b ∷ s) = b == b'"'

abbrev closed : List ℕ → Option (List ℕ)
closed [] = none
closed (b ∷ []) = some []
closed (b ∷ c ∷ s) = none

-- Characters up to the closing quote, that must be the last.
read_rest : ℕ → List ℕ → Option (List ℕ)
read_rest zero s = none
read_rest (suc fuel) s =
    let next : Option (List ℕ) = elim (read_one s) [
      | some (c, s') ↦ elim (read_rest fuel s') [ some cs ↦ some (c ∷ cs) | none ↦ none ]
      | none ↦ none
    ] in
    if is_quote s then closed s else next

-- A JSON string: an opening quote, and the rest.
pub read_json : List ℕ → Option (List ℕ)
read_json [] = none
read_json (b ∷ s) = if b == b'"' then read_rest (length s) s else none

-- What a byte's pieces are by its escape: the hexadecimal digits, the byte itself, or a letter.
abbrev by_escape : Bool → Bool → ℕ → ℕ → List (List ℕ)
by_escape z t c two =
    if z
    then if t
      then (92 ∷ b'u' ∷ b'0' ∷ b'0' ∷ [])
        ∷ (hex_char (c / 16 % 16) ∷ [])
        ∷ (hex_char (c % 16) ∷ [])
        ∷ []
      else (c ∷ []) ∷ []
    else (92 ∷ []) ∷ (two ∷ []) ∷ []

abbrev is_told : Bool → Bool → ℕ → ℕ → Bool
is_told true true c two =
    let h = hex_char (c / 16 % 16) in
    let l = hex_char (c % 16) in
    are_hex b'0' b'0' h l
    && (((hex_value b'0' * 16 + hex_value b'0') * 16 + hex_value h) * 16 + hex_value l == c)
is_told true false c two = not (c == b'"') && (not (c == 92) && not (ltb c 0x20))
is_told false t c two = not (two == b'u') && (not (letter two == 0) && (letter two == c))

is_read : ℕ → Bool
is_read c = is_told (json_letter c == 0) (ltb c 0x20) c (json_letter c)

all_read : all_below 256 is_read ≡ true
unfolding is_read
all_read = refl

off : (a : Bool) → not a ≡ true → a ≡ false
off true h = absurd (ground arith)
off false h = refl

both : (a b : Bool) → (a && b) ≡ true → (a ≡ true) × (b ≡ true)
both true b h = (refl, h)
both false b h = absurd (ground arith)

same_of : (a b : ℕ) → (a == b) ≡ true → a ≡ b
same_of a b h = ground arith

one_told :
    (z t : Bool) (c two : ℕ) (s : List ℕ)
    → is_told z t c two ≡ true
    → (read_one (joined (by_escape z t c two) ++ s) ≡ some (c, s))
      × (is_quote (joined (by_escape z t c two) ++ s) ≡ false)
unfolding read_one read_escape read_hex
one_told true true c two s h =
    let told = both (are_hex b'0' b'0' (hex_char (c / 16 % 16)) (hex_char (c % 16))) _ h in
    (rw (told.0) (ap (λ k. some (k, s)) (same_of _ c told.1)), refl)
one_told true false c two s h =
    let told = both (not (c == b'"')) (not (c == 92) && not (ltb c 0x20)) h in
    let rest = both (not (c == 92)) (not (ltb c 0x20)) told.1 in
    (rw (off _ rest.0, off _ rest.1) refl, off _ told.0)
one_told false t c two s h =
    let told = both (not (two == b'u')) (not (letter two == 0) && (letter two == c)) h in
    let rest = both (not (letter two == 0)) (letter two == c) told.1 in
    (rw (off _ told.0, off _ rest.0) (ap (λ k. some (k, s)) (same_of (letter two) c rest.1)), refl)

-- A byte's pieces before any rest are read as the byte, and do not begin with a quote.
one_read :
    (c : ℕ) (s : List ℕ)
    → c < 256
    → (read_one (joined (json_piece c) ++ s) ≡ some (c, s))
      × (is_quote (joined (json_piece c) ++ s) ≡ false)
unfolding is_read
one_read c s small =
    one_told (json_letter c == 0) (ltb c 0x20) c (json_letter c) s
      (all_below_lem 256 is_read all_read c small)

read_step :
    (fuel c : ℕ) (s s' cs : List ℕ)
    → read_one s ≡ some (c, s')
    → is_quote s ≡ false
    → read_rest fuel s' ≡ some cs
    → read_rest (suc fuel) s ≡ some (c ∷ cs)
unfolding read_rest
read_step fuel c s s' cs e f g = rw f (
    ap
      (λ o. elim o [
        | some (c, s') ↦ elim (read_rest fuel s') [ some cs ↦ some (c ∷ cs) | none ↦ none ]
        | none ↦ none
      ])
      e
    ∙ ap (λ o. elim o [ some cs ↦ some (c ∷ cs) | none ↦ none ]) g)

rest_read :
    (fuel : ℕ) (bs : List ℕ)
    → AllBytes bs
    → length bs < fuel
    → read_rest fuel (joined (pieces json_piece bs) ++ (b'"' ∷ [])) ≡ some bs
rest_read zero bs all l = absurd (omega arith)
rest_read (suc fuel) [] all l = unfold read_rest in refl
rest_read (suc fuel) (c ∷ cs) all l =
    let r = joined (pieces json_piece cs) ++ (b'"' ∷ []) in
    let e : joined (pieces json_piece (c ∷ cs)) ++ (b'"' ∷ []) ≡ joined (json_piece c) ++ r =
      ap (λ x. x ++ (b'"' ∷ [])) (joined-append (json_piece c) (pieces json_piece cs))
      ∙ append_assoc (joined (json_piece c)) (joined (pieces json_piece cs)) (b'"' ∷ []) in
    let one = one_read c r all.0 in
    ap (read_rest (suc fuel)) e
    ∙ read_step fuel c (joined (json_piece c) ++ r) r cs one.0 one.1
        (rest_read fuel cs all.1 (omega arith))

piece_some : (z t : Bool) (c two : ℕ) → 1 ≤ length (joined (by_escape z t c two))
piece_some true true c two = omega arith
piece_some true false c two = omega arith
piece_some false t c two = omega arith

-- Where every character becomes a byte or more, a text has no more characters than bytes are written.
pub pieces_long :
    (f : ℕ → List (List ℕ)) (bs : List ℕ)
    → ((c : ℕ) → 1 ≤ length (joined (f c)))
    → length bs ≤ length (joined (pieces f bs))
pieces_long f [] h = omega arith
pieces_long f (c ∷ cs) h =
    let e = ap length (joined-append (f c) (pieces f cs)) in
    let g = length-append (joined (f c)) (joined (pieces f cs)) in
    let one = h c in let ih = pieces_long f cs h in omega arith

-- The JSON string of a text of bytes is read back as the text.
pub read_json-json_text : (bs : List ℕ) → AllBytes bs → read_json (json_text bs) ≡ some bs
unfolding read_json
read_json-json_text bs all =
    let f = length-append (joined (pieces json_piece bs)) (b'"' ∷ []) in
    let few =
      pieces_long json_piece bs
        (λ c. piece_some (json_letter c == 0) (ltb c 0x20) c (json_letter c)) in
    ap (λ s. read_rest (length s) s) (joined-append (pieces json_piece bs) ((b'"' ∷ []) ∷ []))
    ∙ rest_read _ bs all (omega arith)
