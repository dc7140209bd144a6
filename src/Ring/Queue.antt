-- ===== src/Ring/Queue.antt =====
-- The ring of src/memoria_anularis as a queue of bytes: what it holds, and the state that it keeps.
use mmgr.Prelude.{ℕ, ◌+◌, ◌-◌, ◌^◌, ◌≤◌, ◌<◌, ◌≡◌, arith, ap, ◌∙◌}
use mmgr.Prelude.{List, ◌++◌, length, tabulate, length-tabulate, tabulate-agree, tabulate-add}
use mmgr.Prelude.Store.{IsBytes}
use mmgr.Ring.{Ring, ring_used, ring_free}
use mmgr.Ring.Wrap.{around, distance, ring_used_lem, ring_free_lem}

-- A ring of a capacity that is a power of 2, both places inside it.
pub record IsRing (s : Ring) : Type 0 where
  pub bits : ℕ
  pub small : bits < 64
  pub power : s.capacity ≡ 2 ^ bits
  pub head_in : s.head < s.capacity
  pub tail_in : s.tail < s.capacity
  pub bytes : IsBytes s.memory

-- The bytes from an address on.
abbrev pub bytes_at : (ℕ → ℕ) → ℕ → ℕ → List ℕ
bytes_at m a n = tabulate n (λ i. m (a + i))

-- The bytes of the ring from a place on, going round.
abbrev pub ring_bytes : Ring → ℕ → ℕ → List ℕ
ring_bytes s from n = tabulate n (λ i. s.memory (s.buf + around s.capacity (from + i)))

-- The bytes that wait in the ring, the oldest first.
abbrev pub queue : Ring → List ℕ
queue s = ring_bytes s s.tail (distance s.capacity s.tail s.head)

pub length-queue : (s : Ring) → length (queue s) ≡ distance s.capacity s.tail s.head
length-queue s = length-tabulate (distance s.capacity s.tail s.head) _

pub used_lem :
    (s : Ring) → IsRing s → ring_used s.head s.tail s.capacity ≡ distance s.capacity s.tail s.head
used_lem s v =
    rw v.power (
      ring_used_lem v.bits v.small s.head s.tail (rw v.power at v.head_in)
        (rw v.power at v.tail_in))

pub free_lem :
    (s : Ring)
    → IsRing s
    → ring_free s.head s.tail s.capacity ≡ s.capacity - 1 - distance s.capacity s.tail s.head
free_lem s v =
    rw v.power (
      ring_free_lem v.bits v.small s.head s.tail (rw v.power at v.head_in)
        (rw v.power at v.tail_in))

-- A ring whose first bytes are taken.
pub queue-from :
    (s : Ring) (n : ℕ)
    → IsRing s
    → n ≤ distance s.capacity s.tail s.head
    → let t = around s.capacity (s.tail + n) in
      queue s ≡ ring_bytes s s.tail n ++ ring_bytes s t (distance s.capacity t s.head)
queue-from s n v few =
    let t = around s.capacity (s.tail + n) in
    let left = distance s.capacity t s.head in
    let h = v.head_in in
    let i = v.tail_in in
    let all : distance s.capacity s.tail s.head ≡ n + left = ground arith in
    rw all (
      tabulate-add n left _
      ∙ ap (λ xs. ring_bytes s s.tail n ++ xs)
          (tabulate-agree left _ _ (λ i l. ap (λ x. s.memory (s.buf + x)) (ground arith))))
