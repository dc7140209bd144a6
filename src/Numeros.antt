-- ===== src/Numeros.antt =====
-- src/numeros_scribo: fields and values written into a buffer, whole or not at all. A value's union is the
-- word of its bits; a spec is the list of the fields before its MMGR_FK_END. The loops over a text and the
-- one of `verba_g` are on fuel, and nothing is told where it runs out.
mod Tests
pub mod Kept
pub mod Build
pub mod Match
pub mod Spelled
pub mod Emitted
pub mod Whole
use mmgr.Prelude.{ℕ, zero, suc, ◌+◌, ◌-◌, ◌%◌, ◌^◌}
use mmgr.Prelude.{
  List, [], ◌∷◌, Bool, true, false, not, if◌then◌else◌, ◌==◌, ltb, leb, Option, none, some,
}
use mmgr.Prelude.Int.{ℤ}
use mmgr.Prelude.Store.{update}
use mmgr.Cellul as Cellul
use mmgr.Verba.{Verba, put_n, put, put_literal, ch, finish}
use mmgr.Verba.Numbers.{uint, u32w, hex, u32, u64, i64}
use mmgr.Verba.Escape.{json, xml}
use mmgr.Verba.Real.{g, fixed}

-- `mmgr_fk`; a byte above MMGR_FK_XML is `other`.
pub data Kind : Type 0 where
  end : Kind
  lit : Kind
  str : Kind
  fk_u32 : Kind
  fk_u64 : Kind
  fk_i64 : Kind
  dec : Kind
  fk_hex : Kind
  oct : Kind
  fk_g : Kind
  fix : Kind
  fk_ch : Kind
  fk_json : Kind
  fk_xml : Kind
  other : ℕ → Kind

-- The byte of a kind.
abbrev pub code : Kind → ℕ
code Kind.end = 0
code Kind.lit = 1
code Kind.str = 2
code Kind.fk_u32 = 3
code Kind.fk_u64 = 4
code Kind.fk_i64 = 5
code Kind.dec = 6
code Kind.fk_hex = 7
code Kind.oct = 8
code Kind.fk_g = 9
code Kind.fix = 10
code Kind.fk_ch = 11
code Kind.fk_json = 12
code Kind.fk_xml = 13
code (Kind.other k) = 14 + k

-- `mmgr_field`.
pub record Field : Type 0 where
  pub kind : Kind
  pub width : ℕ
  pub bytes : ℕ
  pub literal : ℕ

-- `mmgr_fval`.
pub record Value : Type 0 where
  pub kind : Kind
  pub word : ℕ
  pub width : ℕ

-- The least width of a kind in `s_kind`, and `numer_latitudo`.
abbrev pub own_width : Kind → ℕ
own_width Kind.fk_u32 = 1
own_width Kind.fk_u64 = 1
own_width Kind.fk_i64 = 1
own_width Kind.fk_hex = 1
own_width Kind.oct = 1
own_width Kind.fk_g = 6
own_width k = 0

unfoldable pub latitudo : Kind → ℕ → ℕ
latitudo kind width = if not (width == 0) then width else own_width kind

-- The `int64_t` of a word.
abbrev pub signed : ℕ → ℤ
signed w = if ltb w (2 ^ 63) then ℤ.pos w else ℤ.negsuc (2 ^ 64 - 1 - w)

-- `numer_refuse`.
unfoldable pub refuse : Verba → Verba
refuse v = record v { at = v.cap }

-- `numer_verba_put`: `numer_str` gives the empty text for NULL.
unfoldable pub put_text : Verba → ℕ → Verba
put_text v text = if text == 0 then put_literal v [] else put v text 0

-- `numer_emit_one` with the entries of `s_kind`; `numer_numerus` takes 32 bits of the word or all of it.
unfoldable pub emit_one : ℕ → Verba → Value → ℕ → Option Verba
emit_one fuel v one width = elim one.kind [
  | Kind.end ↦ some (refuse v)
  | Kind.lit ↦ some (refuse v)
  | Kind.str ↦ some (put_text v one.word)
  | Kind.fk_u32 ↦ some (u32 v (one.word % 2 ^ 32))
  | Kind.fk_u64 ↦ some (u64 v one.word)
  | Kind.fk_i64 ↦ some (i64 v (signed one.word))
  | Kind.dec ↦ some (u32w v (one.word % 2 ^ 32) (latitudo Kind.dec width))
  | Kind.fk_hex ↦ some (hex v one.word (latitudo Kind.fk_hex width))
  | Kind.oct ↦ some (uint v one.word 8 (latitudo Kind.oct width))
  | Kind.fk_g ↦ g fuel v one.word (latitudo Kind.fk_g width)
  | Kind.fix ↦ fixed fuel v one.word (latitudo Kind.fix width)
  | Kind.fk_ch ↦ some (ch v (one.word % 256))
  | Kind.fk_json ↦ json fuel v one.word
  | Kind.fk_xml ↦ xml fuel v one.word
  | Kind.other k ↦ some (refuse v)
]

-- Where a walk ends: past the last field or value, or before it with what was written so far.
pub data Walk : Type 0 where
  reached : Verba → Walk
  abandoned : Verba → Walk

-- The loop of `numer_build`.
unfoldable pub build_walk : ℕ → Verba → List Field → List Value → Option Walk
build_walk fuel v [] [] = some (Walk.reached v)
build_walk fuel v [] (x ∷ xs) = some (Walk.abandoned v)
build_walk fuel v (f ∷ fs) [] =
    let after = build_walk fuel (put_n v f.literal f.bytes) fs [] in
    if code f.kind == 1 then after else some (Walk.abandoned v)
build_walk fuel v (f ∷ fs) (x ∷ xs) =
    let after = build_walk fuel (put_n v f.literal f.bytes) fs (x ∷ xs) in
    let next : Option Walk = elim (emit_one fuel v x f.width) [
      | some w ↦ build_walk fuel w fs xs
      | none ↦ none
    ] in
    if code f.kind == 1
    then after
    else if not (code x.kind == code f.kind)
    then some (Walk.abandoned v)
    else next

-- The loop of `numer_emit`.
unfoldable pub emit_walk : ℕ → Verba → List Value → Option Walk
emit_walk fuel v [] = some (Walk.reached v)
emit_walk fuel v (x ∷ xs) = elim (emit_one fuel v x x.width) [
  | some w ↦ emit_walk fuel w xs
  | none ↦ none
]

-- `numer_abandon`: the terminator where the write began, and a length of 0.
unfoldable pub abandon : (ℕ → ℕ) → ℕ → ℕ → (ℕ → ℕ) × ℕ
abandon m out at = (update m (out + at) 0, 0)

-- The end of `numer_build` and `numer_emit`: `numer_finish`, and abandoned where it told 0.
unfoldable pub settle : Verba → Walk → (ℕ → ℕ) × ℕ
settle v (Walk.abandoned w) = abandon w.memory v.out v.at
settle v (Walk.reached w) =
    let done = finish w in if done.1 == 0 then abandon done.0 v.out v.at else done

-- `numer_build` and `numer_emit`: the memory, and the length.
unfoldable pub build : ℕ → Verba → List Field → List Value → Option ((ℕ → ℕ) × ℕ)
build fuel v spec vals =
    let walked = build_walk fuel v spec vals in
    if v.cap == 0
    then some (v.memory, 0)
    else elim walked [ some w ↦ some (settle v w) | none ↦ none ]

unfoldable pub emit : ℕ → Verba → List Value → Option ((ℕ → ℕ) × ℕ)
emit fuel v vals =
    let walked = emit_walk fuel v vals in
    if v.cap == 0
    then some (v.memory, 0)
    else elim walked [ some w ↦ some (settle v w) | none ↦ none ]

-- Where an append begins: the offset given, or `numer_used`.
unfoldable pub used : Verba → ℕ
used v = if not (v.at == 0) then v.at else Cellul.len v.memory v.out v.cap

unfoldable pub told : (ℕ → ℕ) × ℕ → ℕ → (ℕ → ℕ) × ℕ
told r place = if r.1 == 0 then (update r.0 place 0, 0) else r

-- `mmgr_numer_append` and `mmgr_numer_emit_append`.
unfoldable pub append : ℕ → Verba → List Field → List Value → Option ((ℕ → ℕ) × ℕ)
append fuel v spec vals =
    let built = build fuel (record v { at = used v }) spec vals in
    if (v.cap == 0)
    then some (v.memory, 0)
    else if leb v.cap (used v)
    then some (v.memory, 0)
    else elim built [ some r ↦ some (told r (v.out + used v)) | none ↦ none ]

unfoldable pub emit_append : ℕ → Verba → List Value → Option ((ℕ → ℕ) × ℕ)
emit_append fuel v vals =
    let emitted = emit fuel (record v { at = used v }) vals in
    if (v.cap == 0)
    then some (v.memory, 0)
    else if leb v.cap (used v)
    then some (v.memory, 0)
    else elim emitted [ some r ↦ some (told r (v.out + used v)) | none ↦ none ]
