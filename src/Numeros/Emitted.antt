-- ===== src/Numeros/Emitted.antt =====
-- `numer_emit_one` of src/numeros_scribo, by the texts of values.
use mmgr.Prelude.{
  ℕ, zero, suc, ◌+◌, ◌-◌, ◌%◌, ◌^◌, ◌≤◌, ◌<◌, ◌≡◌, inl, inr, refl, arith, ap, ◌∙◌, sym,
}
use mmgr.Prelude.{List, [], ◌∷◌, true, if◌then◌else◌, ◌==◌, ltb, Bool-cases, Option, some}
use mathlib.Core.Path.{subst}
use mmgr.Prelude.Store.{IsBytes}
use mmgr.Memoria.Marks.{run_bytes}
use mmgr.Cellul.Len.{text_length, length_most}
use mmgr.Verba.{Verba}
use mmgr.Verba.Text.{hex_char, digit}
use mmgr.Verba.Append.{append_list, put_literal-append}
use mmgr.Verba.Chain.{chain}
use mmgr.Verba.Put.{put-measured}
use mmgr.Verba.Numbers.{uint, uint_digits, u32, u64, u32w, hex, i64}
use mmgr.Verba.Numbers.Uint.{uint-append, radix, digit-lt}
use mmgr.Verba.Escape.Loops.{run-agree, ch-list}
use mmgr.Numeros.{Kind, Value, put_text, emit_one, latitudo}
use mmgr.Numeros.Spelled.{IsNumeral, IsTextOf, has_text, IsApart, IsAmid, append-run, run-IsBytes}

digit_byte : (b n val i : ℕ) → 0 < b → b ≤ 16 → hex_char (digit b n val i) < 256
digit_byte b n val i pos most = let d = digit-lt b n val i pos in ground arith

radix_small : (base : ℕ) → (0 < radix base) × (radix base ≤ 16)
radix_small base = (ground arith, ground arith)

-- A number is written as its digits.
uint-IsNumeral :
    (v : Verba) (val base min : ℕ)
    → val < 2 ^ 64
    → IsBytes v.memory
    → (ds : List ℕ) × IsNumeral (radix base) min val ds
      × (uint v val base min ≡ append_list v ds)
      × IsBytes (append_list v ds).memory
uint-IsNumeral v val base min small h =
    let b = radix base in
    let n = uint_digits val base min in
    let f : ℕ → ℕ = λ i. hex_char (digit b n val i) in
    let u = uint-append v val base min small in
    let (pos, most) = radix_small base in
    (
      run_bytes n f 0,
      (n, refl, u.1, u.2, u.3),
      u.0 ∙ append-run v n f f 0 (λ i l. ap f (omega arith)),
      run-IsBytes v n f 0 h (λ i l. digit_byte b n val (0 + i) pos most),
    )

one-IsBytes :
    (v : Verba) (c : ℕ) → c < 256 → IsBytes v.memory → IsBytes (append_list v (c ∷ [])).memory
one-IsBytes v c small h = run-IsBytes v 1 (λ i. c) 0 h (λ i l. small)

text_length-agree :
    (n : ℕ) (m m' : ℕ → ℕ) (a : ℕ)
    → ((i : ℕ) → i < n → m (a + i) ≡ m' (a + i))
    → text_length n m a ≡ text_length n m' a
unfolding text_length
text_length-agree zero m m' a h = refl
text_length-agree (suc n) m m' a h =
    let e : a + 0 ≡ a = omega arith in
    let first : m a ≡ m' a = rw e at (h 0 (omega arith)) in
    let rest = text_length-agree n m m' (a + 1) (λ i l.
      let e : a + 1 + i ≡ a + suc i = omega arith in
      ap m e ∙ h (suc i) (omega arith) ∙ ap m' (sym e)) in
    rw (first, rest) refl

-- What a write of a value comes to.
abbrev pub Told : (List (List ℕ) → Type 0) → Verba → Option Verba → Type 0
Told IsText v o =
    (ps : List (List ℕ)) × IsText ps × (o ≡ some (chain v ps)) × IsBytes (chain v ps).memory

text-Told :
    (m : ℕ → ℕ) (out cap : ℕ) (v : Verba) (word width : ℕ)
    → v.cap < 2 ^ 64
    → IsAmid m out cap v
    → IsApart out cap Kind.str word
    → Told (IsTextOf m cap Kind.str word width) v (some (put_text v word))
unfolding put_text
text-Told m out cap v word width c h apart = elim (Bool-cases (word == 0)) [
  | inl t ↦ rw t (
    [] ∷ [],
    refl,
    ap some (put_literal-append v []),
    run-IsBytes v 0 (λ i. i) 0 h.bytes (λ i l. absurd (omega arith)),
  )
  | inr t ↦
      let l = text_length v.cap v.memory word in
      let most = length_most v.cap v.memory word in
      let o = h.out_same in
      let k = h.cap_same in
      let window : (i : ℕ) → i < cap → v.memory (word + i) ≡ m (word + i) =
        λ i b. h.same (word + i) (omega arith) in
      let long : l ≡ text_length cap m word =
        ap (λ n. text_length n v.memory word) k ∙ text_length-agree cap v.memory m word window in
      let read : run_bytes l v.memory word ≡ run_bytes (text_length cap m word) m word =
        run-agree l m v.memory word (λ i b. window i (omega arith))
        ∙ ap (λ n. run_bytes n m word) long in
      let wrote =
        put-measured v word c h.bytes (omega (arith, h.at))
        ∙ append-run v l (λ i. v.memory (word + i)) v.memory word (λ i b. refl) in
      rw t (
        run_bytes l v.memory word ∷ [],
        ap (λ bs. bs ∷ []) read,
        ap some wrote,
        run-IsBytes v l v.memory word h.bytes (λ i b. h.bytes (word + i)),
      )
]

-- A value that has a text is written as it.
emit-Told :
    (k : Kind) (fuel : ℕ) (m : ℕ → ℕ) (out cap : ℕ) (v : Verba) (word own width : ℕ)
    → has_text k ≡ true
    → word < 2 ^ 64
    → v.cap < 2 ^ 64
    → IsAmid m out cap v
    → IsApart out cap k word
    → Told
        (IsTextOf m cap k word width)
        v
        (emit_one fuel v (record { kind = k; word = word; width = own }) width)
unfolding emit_one u32 u64 u32w hex i64 latitudo
emit-Told Kind.str fuel m out cap v word own width p small c h apart =
    text-Told m out cap v word width c h apart
emit-Told Kind.fk_u32 fuel m out cap v word own width p small c h apart =
    let (ds, num, same, b) = uint-IsNumeral v (word % 2 ^ 32) 10 1 (omega arith) h.bytes in
    (ds ∷ [], (ds, num, refl), ap some same, b)
emit-Told Kind.fk_u64 fuel m out cap v word own width p small c h apart =
    let (ds, num, same, b) = uint-IsNumeral v word 10 1 small h.bytes in
    (ds ∷ [], (ds, num, refl), ap some same, b)
emit-Told Kind.fk_i64 fuel m out cap v word own width p small c h apart =
    elim (Bool-cases (ltb word (2 ^ 63))) [
      | inl t ↦
          let (ds, num, same, b) = uint-IsNumeral v word 10 1 small h.bytes in
          rw t (ds ∷ [], (ds, inl (ground arith, num, refl)), ap some same, b)
      | inr t ↦
          let high : 2 ^ 63 ≤ word = ground arith in
          let e : 2 ^ 64 - 1 - word + 1 ≡ 2 ^ 64 - word = omega arith in
          let w = append_list v (b'-' ∷ []) in
          let (ds, num, same, b) =
            uint-IsNumeral w (2 ^ 64 - 1 - word + 1) 10 1 (omega arith)
              (one-IsBytes v b'-' (omega arith) h.bytes) in
          rw t (
            (b'-' ∷ []) ∷ ds ∷ [],
            (ds, inr (high, subst (λ n. IsNumeral 10 1 n ds) e num, refl)),
            ap (λ x. some (uint x (2 ^ 64 - 1 - word + 1) 10 1)) (ch-list v b'-') ∙ ap some same,
            b,
          )
    ]
emit-Told Kind.dec fuel m out cap v word own width p small c h apart =
    let (ds, num, same, b) =
      uint-IsNumeral v (word % 2 ^ 32) 10 (latitudo Kind.dec width) (omega arith) h.bytes in
    let e : latitudo Kind.dec width ≡ width = ground arith in
    (ds ∷ [], (ds, subst (λ n. IsNumeral 10 n (word % 2 ^ 32) ds) e num, refl), ap some same, b)
emit-Told Kind.fk_hex fuel m out cap v word own width p small c h apart =
    let (ds, num, same, b) = uint-IsNumeral v word 16 (latitudo Kind.fk_hex width) small h.bytes in
    let e : latitudo Kind.fk_hex width ≡ (if width == 0 then 1 else width) = ground arith in
    (ds ∷ [], (ds, subst (λ n. IsNumeral 16 n word ds) e num, refl), ap some same, b)
emit-Told Kind.oct fuel m out cap v word own width p small c h apart =
    let (ds, num, same, b) = uint-IsNumeral v word 8 (latitudo Kind.oct width) small h.bytes in
    let e : latitudo Kind.oct width ≡ (if width == 0 then 1 else width) = ground arith in
    (ds ∷ [], (ds, subst (λ n. IsNumeral 8 n word ds) e num, refl), ap some same, b)
emit-Told Kind.fk_ch fuel m out cap v word own width p small c h apart = (
  ((word % 256) ∷ []) ∷ [],
  refl,
  ap some (ch-list v (word % 256)),
  one-IsBytes v (word % 256) (omega arith) h.bytes,
)
emit-Told Kind.end fuel m out cap v word own width p small c h apart = absurd (ground arith)
emit-Told Kind.lit fuel m out cap v word own width p small c h apart = absurd (ground arith)
emit-Told Kind.fk_g fuel m out cap v word own width p small c h apart = absurd (ground arith)
emit-Told Kind.fix fuel m out cap v word own width p small c h apart = absurd (ground arith)
emit-Told Kind.fk_json fuel m out cap v word own width p small c h apart = absurd (ground arith)
emit-Told Kind.fk_xml fuel m out cap v word own width p small c h apart = absurd (ground arith)
emit-Told (Kind.other k) fuel m out cap v word own width p small c h apart = absurd (ground arith)

pub emit_one-Told :
    (fuel : ℕ) (m : ℕ → ℕ) (out cap : ℕ) (v : Verba) (x : Value) (width : ℕ)
    → has_text x.kind ≡ true
    → x.word < 2 ^ 64
    → v.cap < 2 ^ 64
    → IsAmid m out cap v
    → IsApart out cap x.kind x.word
    → Told (IsTextOf m cap x.kind x.word width) v (emit_one fuel v x width)
emit_one-Told fuel m out cap v x width p small c h apart =
    emit-Told x.kind fuel m out cap v x.word x.width width p small c h apart
