-- ===== src/Ring/RunsIn.antt =====
-- `ring_move_in` of src/memoria_anularis, by bytes: a run into the ring, going round.
use mmgr.Prelude.{ℕ, suc, ◌+◌, ◌-◌, ◌^◌, ◌≤◌, ◌<◌, ◌≡◌, refl, arith, ap}
use mmgr.Prelude.{if◌then◌else◌, ltb, leb, ◌&&◌, true, false}
use native.Mathlib.Decide.{dec_lt}
use mmgr.Prelude.Store.{IsBytes, copied}
use mmgr.Proximus.{Reading}
use mmgr.Ring.{Ring, ring_run, in_loop, ring_move_in, ring_wrap}
use mmgr.Carcer.Word.{add64}
use mmgr.Ring.Move.{ring_move}
use mmgr.Ring.Moved.{ring_move-IsMoved}
use mmgr.Ring.Wrap.{around, distance, ring_wrap-add}
use mmgr.Ring.Runs.{Outside}

-- One round of `ring_move_in`.
abbrev in_round : Ring → ℕ → ℕ → ℕ → Reading
in_round s src to bytes =
    ring_move (record { memory = s.memory; dst = s.buf + to; src = src; bytes = bytes })

in_round-copied :
    (s : Ring) (src to bytes : ℕ)
    → IsBytes s.memory
    → to + bytes ≤ s.capacity
    → Outside s src bytes
    → ((j : ℕ) → (in_round s src to bytes).memory j ≡ copied bytes s.memory (s.buf + to) src j)
      × IsBytes (in_round s src to bytes).memory
in_round-copied s src to bytes h fits apart =
    let m =
      ring_move-IsMoved (record { memory = s.memory; dst = s.buf + to; src = src; bytes = bytes }) h
        (omega arith) in
    (m.0.memory, m.1)

-- What a run into the ring leaves: the bytes from `src` on, at `offset` on, going round.
abbrev pub stored : Ring → ℕ → ℕ → ℕ → ℕ → ℕ
stored s offset src n j =
    if leb s.buf j && ltb j (s.buf + s.capacity) && ltb (distance s.capacity offset (j - s.buf)) n
    then s.memory (src + distance s.capacity offset (j - s.buf))
    else s.memory j

in_loop-next :
    (f : ℕ) (s : Ring) (src n done to bytes : ℕ)
    → done < n
    → in_loop (suc f) s src n done to bytes
      ≡ in_loop f
          (record s { memory = (in_round s (src + done) to bytes).memory })
          src
          n
          (done + bytes)
          0
          (n - (done + bytes))
unfolding in_loop
in_loop-next f s src n done to bytes more =
    let t : ltb done n ≡ true = ground arith in rw (in_loop, t) refl

in_loop-last :
    (f : ℕ) (s : Ring) (src n done to bytes : ℕ)
    → done < n
    → done + bytes ≡ n
    → in_loop (suc (suc f)) s src n done to bytes
      ≡ (record s { memory = (in_round s (src + done) to bytes).memory }, n)
unfolding in_loop
in_loop-last f s src n done to bytes more all =
    let t : ltb done n ≡ true = ground arith in
    let u : ltb n n ≡ false = ground arith in
    rw (in_loop, t, in_loop, all, u)
      (ap (λ x. (record s { memory = (in_round s (src + done) to bytes).memory }, x)) all)

-- The state that `ring_move_in` leaves, and the count.
abbrev IsStored : Ring → Ring × ℕ → ℕ → ℕ → ℕ → Type 0
IsStored s end offset src n =
    ((j : ℕ) → end.0.memory j ≡ stored s offset src n j)
    × IsBytes end.0.memory
    × (record end.0 { memory = s.memory } ≡ s)
    × (end.1 ≡ n)

module _ (s : Ring) (offset src n : ℕ) (h : IsBytes s.memory) (inside : offset < s.capacity)
    (few : n ≤ s.capacity) (apart : Outside s src n) where
  IsStored-none : n ≡ 0 → IsStored s (in_loop 3 s src n 0 offset n) offset src n
  unfolding in_loop
  IsStored-none e =
      let t : ltb 0 n ≡ false = ground arith in rw e (λ j. ground arith, h, refl, refl)

  IsStored-one :
      0 < n → n ≤ s.capacity - offset → IsStored s (in_loop 3 s src n 0 offset n) offset src n
  unfolding copied
  IsStored-one some fits =
      let (a, b) = in_round-copied s (src + 0) offset n h (omega arith) (omega arith) in
      rw (in_loop-last 1 s src n 0 offset n some (omega arith)) (
        λ j.
            let c = a j in
            let at : src + 0 + (j - (s.buf + offset)) ≡ src + (j - s.buf - offset) = omega arith in
            ground (arith, c, ap s.memory at),
        b,
        refl,
        refl,
      )

  IsStored-two :
      s.capacity - offset < n
      → IsStored s (in_loop 3 s src n 0 offset (s.capacity - offset)) offset src n
  unfolding copied
  IsStored-two some =
      let room = s.capacity - offset in
      let left = n - (0 + room) in
      let (a, b) = in_round-copied s (src + 0) offset room h (omega arith) (omega arith) in
      let s1 : Ring = record s { memory = (in_round s (src + 0) offset room).memory } in
      let (c, d) = in_round-copied s1 (src + (0 + room)) 0 left b (omega arith) (omega arith) in
      rw
        (
          in_loop-next 2 s src n 0 offset room (omega arith),
          in_loop-last 0 s1 src n (0 + room) 0 left (omega arith) (omega arith),
        )
        (
          λ j. elim (dec_lt (j - s.buf) offset) [
            | yes low ↦
                let e = c j in
                let to : src + (0 + room) + (j - (s.buf + 0))
                    ≡ src + (j - s.buf + s.capacity - offset) =
                  omega arith in
                let g = a (src + (j - s.buf + s.capacity - offset)) in
                let f = a j in ground (arith, e, f, g, ap s1.memory to)
            | no high ↦
                let e = c j in
                let f = a j in
                let at : src + 0 + (j - (s.buf + offset)) ≡ src + (j - s.buf - offset) =
                  omega arith in
                ground (arith, e, f, ap s.memory at)
          ],
          d,
          refl,
          refl,
        )

  IsStored-loop :
      IsStored s
        (in_loop 3 s src n 0 offset
          (if ltb (s.capacity - offset) n then s.capacity - offset else n))
        offset
        src
        n
  IsStored-loop = elim (dec_lt (s.capacity - offset) n) [
    | yes over ↦
        let t : ltb (s.capacity - offset) n ≡ true = ground arith in rw t (IsStored-two over)
    | no within ↦
        let t : ltb (s.capacity - offset) n ≡ false = ground arith in
        rw t (elim (dec_lt 0 n) [
          | yes some ↦ IsStored-one some (omega arith)
          | no none ↦ IsStored-none (omega arith)
        ])
  ]

  pub ring_move_in-IsStored :
      (k : ℕ)
      → k < 64
      → s.capacity ≡ 2 ^ k
      → let (s', next) = ring_move_in s offset src n in
        ((j : ℕ) → s'.memory j ≡ stored s offset src n j)
        × IsBytes s'.memory
        × (record s' { memory = s.memory } ≡ s)
        × (next ≡ around s.capacity (offset + n))
  unfolding ring_move_in ring_run
  ring_move_in-IsStored k small power =
      let t : ltb s.capacity n ≡ false = ground arith in
      let (a, b, c, d) = IsStored-loop in
      let w : ring_wrap (add64 offset n) s.capacity ≡ around s.capacity (offset + n) =
        rw power (ring_wrap-add k small offset n (rw power at inside) (rw power at few)) in
      rw t (a, b, c, w)
