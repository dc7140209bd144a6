-- ===== src/Numeros/Kept.antt =====
-- What a write of src/numeros_scribo leaves: the bytes before its offset and those past the buffer.
use mmgr.Prelude.{ℕ, ◌+◌, ◌-◌, ◌%◌, ◌^◌, ◌≤◌, ◌<◌, ◌≡◌, ◌⊎◌, inl, inr, refl, arith, ◌∙◌}
use mmgr.Prelude.{List, [], length, get_or, Bool, true, false, ◌==◌, ltb, Bool-cases, some}
use mmgr.Proximus.{Reading}
use mmgr.Proximus.Frame.{read-outside}
use mmgr.Verba.{Verba, room, put_n, put, put_literal, ch}
use mmgr.Verba.Append.{append, ch-append, put_literal-append}
use mmgr.Verba.Chain.{append-keeps}
use mmgr.Verba.Text.{hex_char, digit}
use mmgr.Verba.Numbers.{uint, uint_digits, u32, u64, u32w, hex, i64}
use mmgr.Verba.Numbers.Uint.{uint-append, radix}
use mmgr.Numeros.{Kind, Value, refuse, put_text, emit_one, signed, latitudo}

-- The bytes before the offset and past the buffer stay, and the offset goes no further than the capacity.
pub record IsKept (v w : Verba) : Type 0 where
  pub memory : (j : ℕ) → (j < v.out + v.at) ⊎ (v.out + v.cap ≤ j) → w.memory j ≡ v.memory j
  pub out : w.out ≡ v.out
  pub cap : w.cap ≡ v.cap
  pub more : v.at ≤ w.at
  pub most : w.at ≤ v.cap

pub IsKept-self : (v : Verba) → v.at ≤ v.cap → IsKept v v
IsKept-self v h = record {
  memory = λ j out. refl;
  out = refl;
  cap = refl;
  more = omega arith;
  most = h;
}

pub IsKept-then : (u v w : Verba) → IsKept u v → IsKept v w → IsKept u w
IsKept-then u v w a b = record {
  memory = λ j h. b.memory j (omega (arith, a.out, a.cap, a.more)) ∙ a.memory j h;
  out = b.out ∙ a.out;
  cap = b.cap ∙ a.cap;
  more = omega (arith, a.more, b.more);
  most = omega (arith, b.most, a.cap);
}

append-IsKept : (v : Verba) (n : ℕ) (text : ℕ → ℕ) → v.at ≤ v.cap → IsKept v (append v n text)
append-IsKept v n text le =
    let a = append-keeps v n text (v.out + v.cap) (inr (omega arith)) le in
    record {
      memory = λ j h. (append-keeps v n text j (omega arith) le).0;
      out = a.1;
      cap = a.2;
      more = a.3;
      most = a.4;
    }

ch-IsKept : (v : Verba) (c : ℕ) → v.at ≤ v.cap → IsKept v (ch v c)
ch-IsKept v c le = rw (ch-append v c) (append-IsKept v 1 (λ i. c) le)

put_literal-IsKept : (v : Verba) (bs : List ℕ) → v.at ≤ v.cap → IsKept v (put_literal v bs)
put_literal-IsKept v bs le =
    rw (put_literal-append v bs) (append-IsKept v (length bs) (λ i. get_or bs i 0) le)

uint-IsKept :
    (v : Verba) (val base min : ℕ) → val < 2 ^ 64 → v.at ≤ v.cap → IsKept v (uint v val base min)
uint-IsKept v val base min small le =
    let n = uint_digits val base min in
    rw ((uint-append v val base min small).0)
      (append-IsKept v n (λ i. hex_char (digit (radix base) n val i)) le)

i64-IsKept : (v : Verba) (w : ℕ) → w < 2 ^ 64 → v.at ≤ v.cap → IsKept v (i64 v (signed w))
unfolding i64
i64-IsKept v w small le = elim (Bool-cases (ltb w (2 ^ 63))) [
  | inl t ↦ rw t (uint-IsKept v w 10 1 small le)
  | inr t ↦
      let a = ch-IsKept v b'-' le in
      let high : 2 ^ 63 ≤ w = ground arith in
      rw t (
        IsKept-then v (ch v b'-') _ a (
          uint-IsKept (ch v b'-') (2 ^ 64 - 1 - w + 1) 10 1 (omega arith)
            (omega (arith, a.most, a.cap))))
]

room_inside : (v : Verba) (n : ℕ) → room v n ≡ true → v.at + n < v.cap
unfolding room
room_inside v n t = ground arith

pub put_n-IsKept :
    (v : Verba) (text len : ℕ) → v.cap < 2 ^ 64 → v.at ≤ v.cap → IsKept v (put_n v text len)
unfolding put_n
put_n-IsKept v text len small le = elim (Bool-cases (room v len)) [
  | inl t ↦
      let fits = room_inside v len t in
      let r : Reading = record { memory = v.memory; dst = v.out + v.at; src = text; bytes = len } in
      rw t (record {
        memory = λ j h. read-outside r j (omega arith) (omega arith);
        out = refl;
        cap = refl;
        more = omega arith;
        most = omega arith;
      })
  | inr t ↦
      rw t (record { memory = λ j h. refl; out = refl; cap = refl; more = le; most = omega arith })
]

put-IsKept : (v : Verba) (text n : ℕ) → v.cap < 2 ^ 64 → v.at ≤ v.cap → IsKept v (put v text n)
unfolding put
put-IsKept v text n small le = put_n-IsKept v text _ small le

put_text-IsKept :
    (v : Verba) (text : ℕ) → v.cap < 2 ^ 64 → v.at ≤ v.cap → IsKept v (put_text v text)
unfolding put_text
put_text-IsKept v text small le = elim (Bool-cases (text == 0)) [
  | inl t ↦ rw t (put_literal-IsKept v [] le)
  | inr t ↦ rw t (put-IsKept v text 0 small le)
]

refuse-IsKept : (v : Verba) → v.at ≤ v.cap → IsKept v (refuse v)
unfolding refuse
refuse-IsKept v le = record {
  memory = λ j h. refl;
  out = refl;
  cap = refl;
  more = le;
  most = omega arith;
}

-- The kinds that are written without a loop over a text or one of `verba_g`.
abbrev pub is_plain : Kind → Bool
is_plain Kind.fk_g = false
is_plain Kind.fix = false
is_plain Kind.fk_json = false
is_plain Kind.fk_xml = false
is_plain k = true

emit_kind :
    (k : Kind) (fuel : ℕ) (v : Verba) (word own width : ℕ)
    → is_plain k ≡ true
    → word < 2 ^ 64
    → v.cap < 2 ^ 64
    → v.at ≤ v.cap
    → (w : Verba) × (emit_one fuel v (record { kind = k; word = word; width = own }) width ≡ some w)
      × IsKept v w
unfolding emit_one u32 u64 u32w hex
emit_kind Kind.end fuel v word own width p small c le = (_, refl, refuse-IsKept v le)
emit_kind Kind.lit fuel v word own width p small c le = (_, refl, refuse-IsKept v le)
emit_kind Kind.str fuel v word own width p small c le = (_, refl, put_text-IsKept v word c le)
emit_kind Kind.fk_u32 fuel v word own width p small c le =
    (_, refl, uint-IsKept v (word % 2 ^ 32) 10 1 (omega arith) le)
emit_kind Kind.fk_u64 fuel v word own width p small c le =
    (_, refl, uint-IsKept v word 10 1 small le)
emit_kind Kind.fk_i64 fuel v word own width p small c le = (_, refl, i64-IsKept v word small le)
emit_kind Kind.dec fuel v word own width p small c le =
    (_, refl, uint-IsKept v (word % 2 ^ 32) 10 (latitudo Kind.dec width) (omega arith) le)
emit_kind Kind.fk_hex fuel v word own width p small c le =
    (_, refl, uint-IsKept v word 16 (latitudo Kind.fk_hex width) small le)
emit_kind Kind.oct fuel v word own width p small c le =
    (_, refl, uint-IsKept v word 8 (latitudo Kind.oct width) small le)
emit_kind Kind.fk_g fuel v word own width p small c le = absurd (ground arith)
emit_kind Kind.fix fuel v word own width p small c le = absurd (ground arith)
emit_kind Kind.fk_ch fuel v word own width p small c le = (_, refl, ch-IsKept v (word % 256) le)
emit_kind Kind.fk_json fuel v word own width p small c le = absurd (ground arith)
emit_kind Kind.fk_xml fuel v word own width p small c le = absurd (ground arith)
emit_kind (Kind.other k) fuel v word own width p small c le = (_, refl, refuse-IsKept v le)

-- A plain value is written, and what is before the offset and past the buffer stays.
pub emit_one-IsKept :
    (fuel : ℕ) (v : Verba) (x : Value) (width : ℕ)
    → is_plain x.kind ≡ true
    → x.word < 2 ^ 64
    → v.cap < 2 ^ 64
    → v.at ≤ v.cap
    → (w : Verba) × (emit_one fuel v x width ≡ some w) × IsKept v w
emit_one-IsKept fuel v x width p small c le =
    emit_kind x.kind fuel v x.word x.width width p small c le
