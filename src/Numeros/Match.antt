-- ===== src/Numeros/Match.antt =====
-- What a spec of src/numeros_scribo and the values for it come to.
use mmgr.Prelude.{ℕ, ◌+◌, ◌^◌, ◌≤◌, ◌<◌, ◌≡◌, ◌≢◌, ◌⊎◌}
use mmgr.Prelude.{List, [], ◌∷◌, ◌++◌, Bool, true, false, if◌then◌else◌, ◌==◌}
use mmgr.Memoria.Marks.{run_bytes}
use mmgr.Numeros.{Field, Value, code}
use mmgr.Numeros.Spelled.{IsTextOf, has_text, IsApart}

-- Each field but the literal ones has the next value, of its kind, and no value is left over.
abbrev pub is_matched : List Field → List Value → Bool
is_matched [] [] = true
is_matched [] (x ∷ xs) = false
is_matched (f ∷ fs) [] =
    let skipped = is_matched fs [] in if code f.kind == 1 then skipped else false
is_matched (f ∷ fs) (x ∷ xs) =
    let skipped = is_matched fs (x ∷ xs) in
    let taken = is_matched fs xs in
    if code f.kind == 1 then skipped else if code x.kind == code f.kind then taken else false

-- The pieces that a spec and its values come to, in a memory and a buffer of a capacity: a literal is the
-- bytes that its field names, and each other field is the text of the next value, of its kind.
pub data Spelled (m : ℕ → ℕ) (cap : ℕ) : List Field → List Value → List (List ℕ) → Type 0 where
  ended : Spelled m cap [] [] []
  literal :
      (f : Field) (fs : List Field) (xs : List Value) (ps : List (List ℕ))
      → code f.kind ≡ 1
      → Spelled m cap fs xs ps
      → Spelled m cap (f ∷ fs) xs (run_bytes f.bytes m f.literal ∷ ps)
  value :
      (f : Field) (fs : List Field) (x : Value) (xs : List Value) (ps qs : List (List ℕ))
      → code f.kind ≢ 1
      → code x.kind ≡ code f.kind
      → IsTextOf m cap x.kind x.word f.width ps
      → Spelled m cap fs xs qs
      → Spelled m cap (f ∷ fs) (x ∷ xs) (ps ++ qs)

-- A field that is a literal has it outside of the buffer.
abbrev pub IsLiteralApart : ℕ → ℕ → Field → Type 0
IsLiteralApart out cap f =
    (code f.kind ≢ 1)
    ⊎ ((f.bytes < 2 ^ 64) × ((f.literal + f.bytes ≤ out) ⊎ (out + cap ≤ f.literal)))

abbrev pub LiteralsApart : ℕ → ℕ → List Field → Type 0
LiteralsApart out cap [] = Unit {0}
LiteralsApart out cap (f ∷ fs) = IsLiteralApart out cap f × LiteralsApart out cap fs

-- The values are words with a text, outside of the buffer.
abbrev pub ValuesApart : ℕ → ℕ → List Value → Type 0
ValuesApart out cap [] = Unit {0}
ValuesApart out cap (x ∷ xs) =
    (has_text x.kind ≡ true)
    × (x.word < 2 ^ 64)
    × IsApart out cap x.kind x.word
    × ValuesApart out cap xs
