-- ===== src/Ring/Read.antt =====
-- The reading calls of src/memoria_anularis against the queue of the ring's bytes.
use mmgr.Prelude.{ℕ, ◌+◌, ◌-◌, ◌≤◌, ◌<◌, ◌≡◌, refl, arith, ap, ◌∙◌, sym}
use mmgr.Prelude.{if◌then◌else◌, ltb}
use mmgr.Prelude.{◌++◌, length, tabulate-agree}
use mathlib.Core.Path.{ap₂}
use mmgr.Prelude.Store.{IsBytes}
use mmgr.Ring.{Ring, ring_move_out, read}
use mmgr.Ring.Wrap.{around, distance}
use mmgr.Ring.Runs.{Outside, drawn, ring_move_out-IsDrawn}
use mmgr.Ring.Queue.{IsRing, bytes_at, ring_bytes, queue, length-queue, used_lem, queue-from}

abbrev pub fewest : ℕ → ℕ → ℕ
fewest a b = if ltb a b then a else b

-- The bytes that a run from the ring leaves.
bytes_at-drawn :
    (s s' : Ring) (from dst n : ℕ)
    → ((j : ℕ) → s'.memory j ≡ drawn s from dst n j)
    → bytes_at s'.memory dst n ≡ ring_bytes s from n
bytes_at-drawn s s' from dst n h = tabulate-agree n _ _ (λ i l.
    let e = h (dst + i) in
    let at : dst + i - dst ≡ i = omega arith in let e' = rw at at e in ground (arith, e'))

-- A run from the ring outside of it leaves the ring's own bytes.
ring_bytes-drawn :
    (s s' : Ring) (from dst k n t : ℕ)
    → ((j : ℕ) → s'.memory j ≡ drawn s from dst k j)
    → record s' { memory = s.memory } ≡ s
    → Outside s dst k
    → t < s.capacity
    → n ≤ s.capacity
    → ring_bytes s' t n ≡ ring_bytes s t n
ring_bytes-drawn s s' from dst k n t h e apart inside few =
    let same_buf : s'.buf ≡ s.buf = ap (λ r. r.buf) e in
    let same_capacity : s'.capacity ≡ s.capacity = ap (λ r. r.capacity) e in
    tabulate-agree n _ _ (λ i l.
      let at : s'.buf + around s'.capacity (t + i) ≡ s.buf + around s.capacity (t + i) =
        ap₂ (λ b c. b + around c (t + i)) same_buf same_capacity in
      let g = h (s.buf + around s.capacity (t + i)) in ap s'.memory at ∙ ground (arith, g))

-- What a run from the ring leaves beside the bytes that it carries.
abbrev IsRunFrom : Ring → ℕ → ℕ → Ring → ℕ → Type 0
IsRunFrom s dst n s' next =
    ((j : ℕ) → s'.memory j ≡ drawn s s.tail dst n j)
    × IsBytes s'.memory
    × (record s' { memory = s.memory } ≡ s)
    × (next ≡ around s.capacity (s.tail + n))

-- A ring whose capacity and head are another's.
queue-agree :
    (s s' : Ring) (t next : ℕ)
    → record s' { memory = s.memory } ≡ s
    → next ≡ t
    → queue (record s' { tail = next }) ≡ ring_bytes s' t (distance s.capacity t s.head)
queue-agree s s' t next c d =
    ap (λ x. ring_bytes s' x (distance s'.capacity x s'.head)) d
    ∙ ap (λ x. ring_bytes s' t (distance x t s'.head)) (ap (λ r. r.capacity) c)
    ∙ ap (λ x. ring_bytes s' t (distance s.capacity t x)) (ap (λ r. r.head) c)

taken_lem :
    (s : Ring) (dst n : ℕ) (s' : Ring) (next : ℕ)
    → IsRing s
    → n ≤ distance s.capacity s.tail s.head
    → Outside s dst n
    → IsRunFrom s dst n s' next
    → (queue s ≡ bytes_at s'.memory dst n ++ queue (record s' { tail = next }))
      × IsRing (record s' { tail = next })
taken_lem s dst n s' next v few apart (a, b, c, d) =
    let t = around s.capacity (s.tail + n) in
    let left = distance s.capacity t s.head in
    let h = v.head_in in
    let i = v.tail_in in
    let inside : t < s.capacity = ground arith in
    let short : left ≤ s.capacity = ground arith in
    let same_capacity : s'.capacity ≡ s.capacity = ap (λ r. r.capacity) c in
    let same_head : s'.head ≡ s.head = ap (λ r. r.head) c in
    let first = bytes_at-drawn s s' s.tail dst n a in
    let rest =
      queue-agree s s' t next c d
      ∙ ring_bytes-drawn s s' s.tail dst n left t a c apart inside short in
    (
      queue-from s n v few ∙ ap₂ ◌++◌ (sym first) (sym rest),
      record {
        bits = v.bits;
        small = v.small;
        power = same_capacity ∙ v.power;
        head_in = omega arith;
        tail_in = omega arith;
        bytes = b;
      },
    )

-- A read takes the oldest bytes, as many as were asked for and wait, and leaves the rest, on a ring
-- whose capacity is a power of 2 and whose places are inside it, where what it writes is outside of
-- the buffer; the ring stays such a ring.
pub read-takes :
    (s : Ring) (dst wanted : ℕ)
    → IsRing s
    → Outside s dst (fewest (length (queue s)) wanted)
    → let (s', n) = read s dst wanted in
      (n ≡ fewest (length (queue s)) wanted)
      × (queue s ≡ bytes_at s'.memory dst n ++ queue s')
      × IsRing s'
unfolding read
read-takes s dst wanted v apart =
    let used = distance s.capacity s.tail s.head in
    let n = fewest used wanted in
    let h = v.head_in in
    let i = v.tail_in in
    let few : n ≤ used = ground arith in
    let most : used < s.capacity = ground arith in
    let apart' : Outside s dst n = rw (length-queue s) at apart in
    let moved =
      ring_move_out-IsDrawn s s.tail dst n v.bytes i (omega arith) apart' v.bits v.small v.power in
    let (a, b) =
      taken_lem s dst n (ring_move_out s s.tail dst n).0 (ring_move_out s s.tail dst n).1 v few
        apart' moved in
    rw (used_lem s v, length-queue s) (refl, a, b)
