-- ===== src/Ring/Peek.antt =====
-- The reads of src/memoria_anularis that go byte by byte, or in two calls.
use mmgr.Prelude.{ℕ, ◌+◌, ◌≤◌, ◌<◌, ◌≡◌, refl, arith, ap, ◌∙◌, sym}
use mmgr.Prelude.{if◌then◌else◌, ltb, ◌==◌, Option, none, some, Bool-cases, inl, inr}
use mmgr.Prelude.{List, [], ◌∷◌, length}
use mathlib.Core.Path.{ap₂}
use mmgr.Carcer.Word.{add64}
use mmgr.Ring.{Ring, ring_wrap, ring_move_out, read, read_byte, peek, consume}
use mmgr.Ring.Wrap.{around, distance, ring_wrap-add}
use mmgr.Ring.Runs.{Outside, ring_move_out-IsDrawn}
use mmgr.Ring.Queue.{IsRing, ring_bytes, queue, length-queue, used_lem, queue-from}
use mmgr.Ring.Read.{fewest}

-- What a read of one byte tells of a queue: nothing waits, or a byte and what waits past it.
abbrev pub byte_first : Option (Ring × ℕ) → List ℕ
byte_first none = []
byte_first (some (s', byte)) = byte ∷ queue s'

wrap_lem :
    (s : Ring) (n : ℕ)
    → IsRing s
    → n ≤ s.capacity
    → ring_wrap (add64 s.tail n) s.capacity ≡ around s.capacity (s.tail + n)
wrap_lem s n v few =
    rw v.power (ring_wrap-add v.bits v.small s.tail n (rw v.power at v.tail_in) (rw v.power at few))

-- A read of one byte finds nothing where the queue is empty, and else takes its first byte.
pub read_byte-takes : (s : Ring) → IsRing s → queue s ≡ byte_first (read_byte s)
unfolding read_byte
read_byte-takes s v =
    let h = v.head_in in
    let i = v.tail_in in
    let at = wrap_lem s 1 v (omega arith) in
    elim (Bool-cases (s.tail == s.head)) [
      | inl e ↦
          let same : s.tail ≡ s.head = ground arith in
          let used : distance s.capacity s.tail s.head ≡ 0 = ground arith in rw (e, used) refl
      | inr e ↦
          let some_byte : 1 ≤ distance s.capacity s.tail s.head = ground arith in
          let here : s.buf + around s.capacity (s.tail + 0) ≡ s.buf + s.tail = ground arith in
          let t = around s.capacity (s.tail + 1) in
          rw e (
            rw at (
              queue-from s 1 v some_byte
              ∙ ap (λ x. s.memory x ∷ ring_bytes s t (distance s.capacity t s.head)) here))
    ]

-- A peek at the oldest bytes and then the consumption of as many is the read of them, on a ring whose
-- capacity is a power of 2 and whose places are inside it, where they wait and what is written is
-- outside of the buffer.
pub consume-peek :
    (s : Ring) (dst n : ℕ)
    → IsRing s
    → n ≤ length (queue s)
    → Outside s dst n
    → consume (peek s dst n 0) n ≡ (read s dst n).0
unfolding consume peek read
consume-peek s dst n v few apart =
    let h = v.head_in in
    let i = v.tail_in in
    let used = distance s.capacity s.tail s.head in
    let few' : n ≤ used = rw (length-queue s) at few in
    let most : used < s.capacity = ground arith in
    let here : ring_wrap (add64 s.tail 0) s.capacity ≡ s.tail =
      wrap_lem s 0 v (omega arith) ∙ ground arith in
    let count : (if ltb used n then used else n) ≡ n = ground arith in
    let (a, b, c, d) =
      ring_move_out-IsDrawn s s.tail dst n v.bytes i (omega arith) apart v.bits v.small v.power in
    let s1 = (ring_move_out s s.tail dst n).0 in
    let same_tail : s1.tail ≡ s.tail = ap (λ r. r.tail) c in
    let same_capacity : s1.capacity ≡ s.capacity = ap (λ r. r.capacity) c in
    let next : ring_wrap (add64 s1.tail n) s1.capacity ≡ (ring_move_out s s.tail dst n).1 =
      ap₂ (λ t k. ring_wrap (add64 t n) k) same_tail same_capacity
      ∙ wrap_lem s n v (omega arith)
      ∙ sym d in
    let first : consume (peek s dst n 0) n ≡ consume s1 n =
      ap (λ at. consume (ring_move_out s at dst n).0 n) here in
    let whole : (read s dst n).0 ≡ record s1 { tail = (ring_move_out s s.tail dst n).1 } =
      ap (λ b. let (s', tail) = ring_move_out s s.tail dst b in record s' { tail = tail })
        (ap (λ u. fewest u n) (used_lem s v) ∙ count) in
    first ∙ ap (λ t. record s1 { tail = t }) next ∙ sym whole
