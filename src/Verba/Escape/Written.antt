-- ===== src/Verba/Escape/Written.antt =====
-- The escaped texts of src/verba_scribo are written whole or refused, and a reader of JSON gets the
-- text back.
use mmgr.Prelude.{ℕ, ◌<◌, ◌≡◌, arith, ap, ◌∙◌, sym}
use mmgr.Prelude.{List, [], ◌∷◌, ◌++◌, length, true, false, if◌then◌else◌, ◌==◌, Option, none, some}
use mmgr.Memoria.Marks.{run_bytes}
use mmgr.Verba.{Verba, room, put_literal}
use mmgr.Verba.Append.{append_list, put_literal-append}
use mmgr.Verba.Chain.{chain, joined, chain-append, chain-fits}
use mmgr.Verba.Escape.{xml, json, json_loop}
use mmgr.Verba.Escape.Loops.{
  IsText, pieces, xml_piece, json_piece, xml_loop-chain, json_loop-chain, kept_IsText, chain-run,
}

abbrev quote : List ℕ
quote = b'"' ∷ []

-- The pieces of a JSON string, and its text.
abbrev pub json_pieces : List ℕ → List (List ℕ)
json_pieces bs = quote ∷ (pieces json_piece bs ++ (quote ∷ []))

abbrev pub json_text : List ℕ → List ℕ
json_text bs = joined (json_pieces bs)

abbrev pub xml_text : List ℕ → List ℕ
xml_text bs = joined (pieces xml_piece bs)

-- The closing quote, where the text's end was met.
abbrev close : Option Verba → Option Verba
close body = elim body [ some v' ↦ some (put_literal v' quote) | none ↦ none ]

null_off : (text : ℕ) → 0 < text → (text == 0) ≡ false
null_off text h = ground arith

pub json-chain :
    (fuel n : ℕ) (v : Verba) (text : ℕ)
    → 0 < text
    → n < fuel
    → IsText v text n
    → json fuel v text ≡ some (chain v (json_pieces (run_bytes n v.memory text)))
unfolding json
json-chain fuel n v text pos l h =
    let opened = chain v (quote ∷ []) in
    let bs = run_bytes n v.memory text in
    ap
      (λ b.
        close (if b then some (put_literal v quote) else json_loop fuel (put_literal v quote) text))
      (null_off text pos)
    ∙ ap (λ w. close (json_loop fuel w text)) (put_literal-append v quote)
    ∙ ap close (json_loop-chain fuel n opened text l (kept_IsText v text n (quote ∷ []) h))
    ∙ ap some (
        put_literal-append (chain opened (pieces json_piece (run_bytes n opened.memory text))) quote
        ∙ ap (λ bs. append_list (chain opened (pieces json_piece bs)) quote)
            (chain-run v text n (quote ∷ []) h)
        ∙ sym (chain-append opened (pieces json_piece bs) (quote ∷ [])))

-- A text of `n` bytes and a terminator outside the buffer, whose JSON string there is room for, is
-- written as it; more rounds than the text has bytes are enough.
pub json-written :
    (fuel n : ℕ) (v : Verba) (text : ℕ)
    → 0 < text
    → n < fuel
    → IsText v text n
    → room v (length (json_text (run_bytes n v.memory text))) ≡ true
    → json fuel v text ≡ some (append_list v (json_text (run_bytes n v.memory text)))
json-written fuel n v text pos l h t =
    json-chain fuel n v text pos l h
    ∙ ap some (chain-fits (json_pieces (run_bytes n v.memory text)) v t)

-- A text that is not NULL, of `n` bytes and a terminator outside the buffer, is written with the entities
-- of XML after an offset within the capacity where there is room for it all; the loop ends, and more
-- rounds than the text has bytes are enough.
pub xml-written :
    (fuel n : ℕ) (v : Verba) (text : ℕ)
    → 0 < text
    → n < fuel
    → IsText v text n
    → room v (length (xml_text (run_bytes n v.memory text))) ≡ true
    → xml fuel v text ≡ some (append_list v (xml_text (run_bytes n v.memory text)))
unfolding xml
xml-written fuel n v text pos l h t = rw (null_off text pos) (
    xml_loop-chain fuel n v text l h
    ∙ ap some (chain-fits (pieces xml_piece (run_bytes n v.memory text)) v t))
