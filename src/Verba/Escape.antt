-- ===== src/Verba/Escape.antt =====
-- The text that src/verba_scribo escapes, for XML and for JSON.
pub mod Loops
pub mod Written
pub mod Reader
pub mod Back
pub mod Entities
use mmgr.Prelude.{ℕ, zero, suc, ◌+◌, ◌/◌, ◌%◌}
use mmgr.Prelude.{
  List, [], ◌∷◌, get_or, Bool, true, false, ◌||◌, if◌then◌else◌, ◌==◌, ltb, Option, none, some,
}
use mmgr.Verba.{Verba, put_literal, ch}
use mmgr.Verba.Text.{hex_char}

-- JSON_CTRL_ESC; its entries past the last here are 0.
abbrev pub json_ctrl_esc : List ℕ
json_ctrl_esc = 0 ∷ 0 ∷ 0 ∷ 0 ∷ 0 ∷ 0 ∷ 0 ∷ 0 ∷ b'b' ∷ b't' ∷ b'n' ∷ 0 ∷ b'f' ∷ b'r' ∷ []

-- The entity of a character, where it has one.
unfoldable pub entity : ℕ → Option (List ℕ)
entity c =
    if c == b'&'
    then some (b'&' ∷ b'a' ∷ b'm' ∷ b'p' ∷ b';' ∷ [])
    else if c == b'<'
    then some (b'&' ∷ b'l' ∷ b't' ∷ b';' ∷ [])
    else if c == b'>'
    then some (b'&' ∷ b'g' ∷ b't' ∷ b';' ∷ [])
    else if c == b'"'
    then some (b'&' ∷ b'q' ∷ b'u' ∷ b'o' ∷ b't' ∷ b';' ∷ [])
    else none

-- A round of the loop of `verba_xml`.
unfoldable pub xml_char : Verba → ℕ → Verba
xml_char v c = elim (entity c) [ some rep ↦ put_literal v rep | none ↦ ch v c ]

-- The loop of `verba_xml`, on fuel: nothing where the terminator is not met.
unfoldable pub xml_loop : ℕ → Verba → ℕ → Option Verba
xml_loop zero v cursor = none
xml_loop (suc fuel) v cursor =
    let rest = xml_loop fuel (xml_char v (v.memory cursor)) (cursor + 1) in
    if v.memory cursor == 0 then some v else rest

unfoldable pub xml : ℕ → Verba → ℕ → Option Verba
xml fuel v text = let written = xml_loop fuel v text in if text == 0 then some v else written

-- The letter of a byte's short escape, or 0.
unfoldable pub short_escape : ℕ → ℕ
short_escape c =
    if (c == b'"') || (c == 92) then c else if ltb c 0x20 then get_or json_ctrl_esc c 0 else 0

-- A round of the loop of `verba_json`.
unfoldable pub json_char : Verba → ℕ → Verba
json_char v c =
    let two = short_escape c in
    if two == 0
    then if ltb c 0x20
      then ch (ch (put_literal v (92 ∷ b'u' ∷ b'0' ∷ b'0' ∷ [])) (hex_char (c / 16 % 16)))
          (hex_char (c % 16))
      else ch v c
    else ch (ch v 92) two

unfoldable pub json_loop : ℕ → Verba → ℕ → Option Verba
json_loop zero v cursor = none
json_loop (suc fuel) v cursor =
    let rest = json_loop fuel (json_char v (v.memory cursor)) (cursor + 1) in
    if v.memory cursor == 0 then some v else rest

-- `verba_json`; a NULL text is one with no bytes.
unfoldable pub json : ℕ → Verba → ℕ → Option Verba
json fuel v text =
    let opened = put_literal v (b'"' ∷ []) in
    let body = if text == 0 then some opened else json_loop fuel opened text in
    elim body [ some v' ↦ some (put_literal v' (b'"' ∷ [])) | none ↦ none ]
