-- ===== src/Numeros/Spelled.antt =====
-- The texts of values that src/numeros_scribo writes, without a buffer: a number by its digits, a text up
-- to its terminator, a character.
use mmgr.Prelude.{
  ℕ, zero, suc, ◌+◌, ◌-◌, ◌%◌, ◌^◌, ◌≤◌, ◌<◌, ◌≡◌, ◌⊎◌, inl, inr, refl, arith, ap, ◌∙◌, sym,
}
use mmgr.Prelude.{
  List, [], ◌∷◌, get_or, Bool, true, false, if◌then◌else◌, ◌==◌, ltb, leb, ◌&&◌, Bool-cases,
}
use mathlib.Core.Path.{subst}
use mmgr.Prelude.Store.{IsBytes}
use mmgr.Memoria.Marks.{run_bytes, length-run}
use mmgr.Cellul.Len.{text_length}
use mmgr.Verba.{Verba, room}
use mmgr.Verba.Text.{placed, placed-agree, hex_char, digit}
use mmgr.Verba.Append.{append, append_list}
use mmgr.Verba.Chain.{chain, chain-keeps}
use mmgr.Numeros.{Kind}

-- A number's digits in a base: they hold it, are `min` at least, and no more than that or than it needs.
abbrev pub IsNumeral : ℕ → ℕ → ℕ → List ℕ → Type 0
IsNumeral b min val ds =
    (n : ℕ) × (ds ≡ run_bytes n (λ i. hex_char (digit b n val i)) 0)
    × (val < b ^ n)
    × (min ≤ n)
    × ((n ≡ 1) ⊎ (n ≡ min) ⊎ (b ^ (n - 1) ≤ val))

-- The pieces of a value's text, in a memory and a buffer of a capacity.
abbrev pub IsTextOf : (ℕ → ℕ) → ℕ → Kind → ℕ → ℕ → List (List ℕ) → Type 0
IsTextOf m cap Kind.str word width ps =
    ps ≡ ((if word == 0 then [] else run_bytes (text_length cap m word) m word) ∷ [])
IsTextOf m cap Kind.fk_u32 word width ps =
    (ds : List ℕ) × IsNumeral 10 1 (word % 2 ^ 32) ds × (ps ≡ ds ∷ [])
IsTextOf m cap Kind.fk_u64 word width ps = (ds : List ℕ) × IsNumeral 10 1 word ds × (ps ≡ ds ∷ [])
IsTextOf m cap Kind.fk_i64 word width ps =
    (ds : List ℕ) × (((word < 2 ^ 63) × IsNumeral 10 1 word ds × (ps ≡ ds ∷ []))
      ⊎ ((2 ^ 63 ≤ word) × IsNumeral 10 1 (2 ^ 64 - word) ds × (ps ≡ (b'-' ∷ []) ∷ ds ∷ [])))
IsTextOf m cap Kind.dec word width ps =
    (ds : List ℕ) × IsNumeral 10 width (word % 2 ^ 32) ds × (ps ≡ ds ∷ [])
IsTextOf m cap Kind.fk_hex word width ps =
    (ds : List ℕ) × IsNumeral 16 (if width == 0 then 1 else width) word ds × (ps ≡ ds ∷ [])
IsTextOf m cap Kind.oct word width ps =
    (ds : List ℕ) × IsNumeral 8 (if width == 0 then 1 else width) word ds × (ps ≡ ds ∷ [])
IsTextOf m cap Kind.fk_ch word width ps = ps ≡ ((word % 256) ∷ []) ∷ []
IsTextOf m cap k word width ps = ⊥

-- The kinds that have such a text.
abbrev pub has_text : Kind → Bool
has_text Kind.str = true
has_text Kind.fk_u32 = true
has_text Kind.fk_u64 = true
has_text Kind.fk_i64 = true
has_text Kind.dec = true
has_text Kind.fk_hex = true
has_text Kind.oct = true
has_text Kind.fk_ch = true
has_text k = false

-- As far as a text may be read, it stands outside of the buffer.
abbrev pub IsApart : ℕ → ℕ → Kind → ℕ → Type 0
IsApart out cap Kind.str word = (word + cap ≤ out) ⊎ (out + cap ≤ word)
IsApart out cap k word = Unit {0}

-- A buffer amid a write: outside of it the memory is what it was.
pub record IsAmid (m : ℕ → ℕ) (out cap : ℕ) (v : Verba) : Type 0 where
  pub out_same : v.out ≡ out
  pub cap_same : v.cap ≡ cap
  pub at : v.at ≤ v.cap
  pub bytes : IsBytes v.memory
  pub same : (j : ℕ) → (j < out) ⊎ (out + cap ≤ j) → v.memory j ≡ m j

pub IsAmid-chain :
    (m : ℕ → ℕ) (out cap : ℕ) (v : Verba) (ps : List (List ℕ))
    → IsAmid m out cap v
    → IsBytes (chain v ps).memory
    → IsAmid m out cap (chain v ps)
IsAmid-chain m out cap v ps h bytes =
    let k = chain-keeps ps v (v.out + v.cap) (inr (omega arith)) h.at in
    record {
      out_same = k.1 ∙ h.out_same;
      cap_same = k.2 ∙ h.cap_same;
      at = omega (arith, k.2, k.4);
      bytes = bytes;
      same =
          λ j l. (chain-keeps ps v j (omega (arith, h.out_same, h.cap_same)) h.at).0 ∙ h.same j l;
    }

append-agree :
    (v : Verba) (n : ℕ) (f g : ℕ → ℕ) → ((i : ℕ) → i < n → f i ≡ g i) → append v n f ≡ append v n g
unfolding append
append-agree v n f g h =
    ap (λ m. if room v n then record v { memory = m; at = v.at + n } else record v { at = v.cap })
      (placed-agree v.memory (v.out + v.at) n f g h)

get_or-run : (n : ℕ) (f : ℕ → ℕ) (a i : ℕ) → i < n → get_or (run_bytes n f a) i 0 ≡ f (a + i)
get_or-run zero f a i l = absurd (omega arith)
get_or-run (suc n) f a zero l = ap f (omega arith)
get_or-run (suc n) f a (suc i) l = get_or-run n f (a + 1) i (omega arith) ∙ ap f (omega arith)

-- A run appended by its function, and by its list.
pub append-run :
    (v : Verba) (n : ℕ) (g f : ℕ → ℕ) (a : ℕ)
    → ((i : ℕ) → i < n → g i ≡ f (a + i))
    → append v n g ≡ append_list v (run_bytes n f a)
append-run v n g f a h =
    append-agree v n g (λ i. get_or (run_bytes n f a) i 0)
      (λ i l. h i l ∙ sym (get_or-run n f a i l))
    ∙ ap (λ k. append v k (λ i. get_or (run_bytes n f a) i 0)) (sym (length-run n f a))

append-IsBytes :
    (v : Verba) (n : ℕ) (f : ℕ → ℕ)
    → IsBytes v.memory
    → ((i : ℕ) → i < n → f i < 256)
    → IsBytes (append v n f).memory
unfolding append placed
append-IsBytes v n f h g j =
    let a = v.out + v.at in
    let b = h j in
    elim (Bool-cases (room v n)) [
      | inl t ↦ elim (Bool-cases (leb a j && ltb j (a + n))) [
        | inl u ↦ let c = g (j - a) (ground arith) in rw (t, u) c
        | inr u ↦ rw (t, u) b
      ]
      | inr t ↦ rw t b
    ]

-- A run of bytes appended to a memory of bytes.
pub run-IsBytes :
    (v : Verba) (n : ℕ) (f : ℕ → ℕ) (a : ℕ)
    → IsBytes v.memory
    → ((i : ℕ) → i < n → f (a + i) < 256)
    → IsBytes (append_list v (run_bytes n f a)).memory
run-IsBytes v n f a h g =
    subst (λ w. IsBytes w.memory) (append-run v n (λ i. f (a + i)) f a (λ i l. refl))
      (append-IsBytes v n (λ i. f (a + i)) h g)
