-- ===== src/Ring/Put.antt =====
-- `anular_put` of src/memoria_anularis against the queue of the ring's bytes.
use mmgr.Prelude.{ℕ, ◌+◌, ◌-◌, ◌≤◌, ◌<◌, ◌≡◌, refl, arith, ap, ◌∙◌}
use mmgr.Prelude.{if◌then◌else◌, ltb, true, false}
use mmgr.Prelude.{◌++◌, length, tabulate, tabulate-agree, tabulate-add}
use native.Mathlib.Decide.{dec_lt}
use mathlib.Core.Path.{ap₂}
use mmgr.Prelude.Store.{IsBytes}
use mmgr.Ring.{Ring, ring_move_in, put}
use mmgr.Ring.Wrap.{around, distance}
use mmgr.Ring.Runs.{Outside}
use mmgr.Ring.RunsIn.{stored, ring_move_in-IsStored}
use mmgr.Ring.Queue.{IsRing, bytes_at, ring_bytes, queue, length-queue, free_lem}

-- What a run into the ring leaves beside the bytes that it carries.
abbrev IsRunInto : Ring → ℕ → ℕ → Ring → ℕ → Type 0
IsRunInto s src n s' next =
    ((j : ℕ) → s'.memory j ≡ stored s s.head src n j)
    × IsBytes s'.memory
    × (record s' { memory = s.memory } ≡ s)
    × (next ≡ around s.capacity (s.head + n))

-- A place that waits is not written, and the place after those that wait is the next of the run.
old-stored :
    (s s' : Ring) (src n i : ℕ)
    → ((j : ℕ) → s'.memory j ≡ stored s s.head src n j)
    → s.head < s.capacity
    → s.tail < s.capacity
    → distance s.capacity s.tail s.head + n < s.capacity
    → i < distance s.capacity s.tail s.head
    → s'.memory (s.buf + around s.capacity (s.tail + i))
      ≡ s.memory (s.buf + around s.capacity (s.tail + i))
old-stored s s' src n i a h t room l =
    let p = around s.capacity (s.tail + i) in
    let e = a (s.buf + p) in
    let at : s.buf + p - s.buf ≡ p = omega arith in
    let far : n ≤ distance s.capacity s.head p = ground arith in
    let e' = rw at at e in ground (arith, e')

new-stored :
    (s s' : Ring) (src n i : ℕ)
    → ((j : ℕ) → s'.memory j ≡ stored s s.head src n j)
    → s.head < s.capacity
    → s.tail < s.capacity
    → distance s.capacity s.tail s.head + n < s.capacity
    → i < n
    → s'.memory (s.buf + around s.capacity (s.tail + (distance s.capacity s.tail s.head + i)))
      ≡ s.memory (src + i)
new-stored s s' src n i a h t room l =
    let p = around s.capacity (s.head + i) in
    let q : around s.capacity (s.tail + (distance s.capacity s.tail s.head + i)) ≡ p =
      ground arith in
    let e = a (s.buf + p) in
    let at : s.buf + p - s.buf ≡ p = omega arith in
    let near : distance s.capacity s.head p ≡ i = ground arith in
    let inside : p < s.capacity = ground arith in
    let e' = rw (at, near) at e in rw q (ground (arith, e'))

queue-agree :
    (s s' : Ring) (t next : ℕ)
    → record s' { memory = s.memory } ≡ s
    → next ≡ t
    → queue (record s' { head = next })
      ≡ tabulate
          (distance s.capacity s.tail t)
          (λ i. s'.memory (s.buf + around s.capacity (s.tail + i)))
queue-agree s s' t next c d =
    ap (λ x. ring_bytes s' s'.tail (distance s'.capacity s'.tail x)) d
    ∙ ap
        (λ r.
          tabulate (distance r.capacity r.tail t)
            (λ i. s'.memory (r.buf + around r.capacity (r.tail + i))))
        c

put_lem :
    (s : Ring) (src n : ℕ) (s' : Ring) (next : ℕ)
    → IsRing s
    → distance s.capacity s.tail s.head + n < s.capacity
    → IsRunInto s src n s' next
    → (queue (record s' { head = next }) ≡ queue s ++ bytes_at s.memory src n)
      × IsRing (record s' { head = next })
put_lem s src n s' next v room (a, b, c, d) =
    let t = around s.capacity (s.head + n) in
    let used = distance s.capacity s.tail s.head in
    let h = v.head_in in
    let i = v.tail_in in
    let inside : t < s.capacity = ground arith in
    let all : distance s.capacity s.tail t ≡ used + n = ground arith in
    let same_capacity : s'.capacity ≡ s.capacity = ap (λ r. r.capacity) c in
    let same_tail : s'.tail ≡ s.tail = ap (λ r. r.tail) c in
    (
      queue-agree s s' t next c d
          ∙ ap (λ x. tabulate x (λ i. s'.memory (s.buf + around s.capacity (s.tail + i)))) all
          ∙ tabulate-add used n _
          ∙ ap₂ ◌++◌ (tabulate-agree used _ _ (λ j l. old-stored s s' src n j a h i room l))
              (tabulate-agree n _ _ (λ j l. new-stored s s' src n j a h i room l)),
      record {
        bits = v.bits;
        small = v.small;
        power = same_capacity ∙ v.power;
        head_in = omega arith;
        tail_in = omega arith;
        bytes = b;
      },
    )

-- A put is taken where the queue and the new bytes are fewer than the capacity, and then adds them
-- at the queue's end; else the queue stays. The ring's capacity is a power of 2 and its places are
-- inside it, and so they stay; the bytes are read from outside of the buffer.
pub put-adds :
    (s : Ring) (src bytes : ℕ)
    → IsRing s
    → Outside s src bytes
    → let (s', ok) = put s src bytes in
      (ok ≡ ltb (length (queue s) + bytes) s.capacity)
      × (queue s' ≡ (if ok then queue s ++ bytes_at s.memory src bytes else queue s))
      × IsRing s'
unfolding put
put-adds s src bytes v apart =
    let used = distance s.capacity s.tail s.head in
    let h = v.head_in in
    let i = v.tail_in in
    elim (dec_lt (used + bytes) s.capacity) [
      | yes fits ↦
          let t : ltb (s.capacity - 1 - used) bytes ≡ false = ground arith in
          let u : ltb (used + bytes) s.capacity ≡ true = ground arith in
          let moved =
            ring_move_in-IsStored s s.head src bytes v.bytes h (omega arith) apart v.bits v.small
              v.power in
          let (a, b) =
            put_lem s src bytes (ring_move_in s s.head src bytes).0
              (ring_move_in s s.head src bytes).1 v fits moved in
          rw (free_lem s v, t, length-queue s, u) (refl, a, b)
      | no full ↦
          let most : used < s.capacity = ground arith in
          let t : ltb (s.capacity - 1 - used) bytes ≡ true = ground arith in
          let u : ltb (used + bytes) s.capacity ≡ false = ground arith in
          rw (free_lem s v, t, length-queue s, u) (refl, refl, v)
    ]
