-- ===== src/Verba/Append.antt =====
-- What src/verba_scribo promises: each write is whole or refused, and a refusal stays.
use mmgr.Prelude.{ℕ, ◌+◌, ◌-◌, ◌^◌, ◌≤◌, ◌<◌, ◌≡◌, ◌⊎◌, refl, arith, ap, ◌∙◌}
use mmgr.Prelude.{
  List, length, get_or, true, false, not, if◌then◌else◌, ltb, leb, ◌&&◌, Bool-cases, inl, inr,
}
use mmgr.Prelude.Store.{update, copied, IsBytes}
use mmgr.Proximus.{Reading}
use mmgr.Proximus as Proximus
use mmgr.Proximus.Copy.{read-copies}
use mmgr.Verba.{Verba, room, put_n, put_literal, ch}
use mmgr.Verba.Text.{placed}

-- A text of `n` characters written after what is written, or refused.
unfoldable pub append : Verba → ℕ → (ℕ → ℕ) → Verba
append v n text =
    if room v n
    then record v { memory = placed v.memory (v.out + v.at) n text; at = v.at + n }
    else record v { at = v.cap }

abbrev pub append_list : Verba → List ℕ → Verba
append_list v bs = append v (length bs) (λ i. get_or bs i 0)

-- A write that has what it writes at hand.
pub written-append :
    (v : Verba) (m : ℕ → ℕ) (n : ℕ) (text : ℕ → ℕ)
    → m ≡ placed v.memory (v.out + v.at) n text
    → (if not (room v n) then record v { at = v.cap } else record v { memory = m; at = v.at + n })
      ≡ append v n text
unfolding append
written-append v m n text e = elim (Bool-cases (room v n)) [
  | inl t ↦ rw t (ap (λ m. record v { memory = m; at = v.at + n }) e)
  | inr t ↦ rw t refl
]

one_placed : (m : ℕ → ℕ) (a c j : ℕ) → update m a c j ≡ placed m a 1 (λ i. c) j
unfolding placed
one_placed m a c j = ground arith

pub ch-append : (v : Verba) (c : ℕ) → ch v c ≡ append v 1 (λ i. c)
unfolding ch
ch-append v c =
    written-append v (update v.memory (v.out + v.at) c) 1 (λ i. c)
      (λ i j. one_placed v.memory (v.out + v.at) c j i)

copied-placed :
    (n : ℕ) (m : ℕ → ℕ) (dst src : ℕ) → copied n m dst src ≡ placed m dst n (λ i. m (src + i))
unfolding copied placed
copied-placed n m dst src = refl

-- A run of text that the write does not go over before it is read, in a memory of bytes, is appended
-- whole, or refused and nothing of it written.
pub put_n-append :
    (v : Verba) (text text_len : ℕ)
    → text_len < 2 ^ 64
    → IsBytes v.memory
    → (v.out + v.at ≤ text) ⊎ (text + text_len ≤ v.out + v.at)
    → put_n v text text_len ≡ append v text_len (λ i. v.memory (text + i))
unfolding put_n
put_n-append v text text_len small h apart =
    let r : Reading = record {
      memory = v.memory;
      dst = v.out + v.at;
      src = text;
      bytes = text_len;
    } in
    let copy : (Proximus.read r).memory ≡ copied text_len v.memory (v.out + v.at) text =
      λ i j. read-copies r j small h apart i in
    written-append v (Proximus.read r).memory text_len (λ i. v.memory (text + i))
      (copy ∙ copied-placed text_len v.memory (v.out + v.at) text)

room_over : (v : Verba) (n : ℕ) → v.cap < n → (room v n ≡ false) × (room v v.cap ≡ false)
unfolding room
room_over v n h = (ground arith, ground arith)

literal_over :
    (v : Verba) (bs : List ℕ)
    → ltb v.cap (length bs) ≡ true
    → record v { at = v.cap } ≡ append_list v bs
unfolding append
literal_over v bs t = let off = (room_over v (length bs) (ground arith)).0 in rw off refl

pub put_literal-append : (v : Verba) (bs : List ℕ) → put_literal v bs ≡ append_list v bs
unfolding put_literal
put_literal-append v bs = elim (Bool-cases (ltb v.cap (length bs))) [
  | inl t ↦
      let off = (room_over v (length bs) (ground arith)).1 in rw (t, off) (literal_over v bs t)
  | inr t ↦ rw t (
      written-append v (placed v.memory (v.out + v.at) (length bs) (λ i. get_or bs i 0)) (length bs)
        (λ i. get_or bs i 0) refl)
]

-- What stands in the buffer of a text that there was room for.
pub append_in :
    (v : Verba) (n i : ℕ) (text : ℕ → ℕ)
    → room v n ≡ true
    → i < n
    → (append v n text).memory (v.out + v.at + i) ≡ text i
unfolding append placed
append_in v n i text t l =
    let e : v.out + v.at + i - (v.out + v.at) ≡ i = omega arith in
    let inside : (leb (v.out + v.at) (v.out + v.at + i)
          && ltb (v.out + v.at + i) (v.out + v.at + n))
        ≡ true =
      ground arith in
    rw (t, inside, e) refl
