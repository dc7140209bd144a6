-- ===== src/Ring/Runs.antt =====
-- The runs of src/memoria_anularis that go round: `ring_move_out` and `ring_move_in`, by bytes.
use mmgr.Prelude.{ℕ, suc, ◌+◌, ◌-◌, ◌^◌, ◌≤◌, ◌<◌, ◌≡◌, ◌⊎◌, refl, arith, ap}
use mmgr.Prelude.{if◌then◌else◌, ltb, leb, ◌&&◌, true, false}
use native.Mathlib.Decide.{dec_lt}
use mmgr.Prelude.Store.{IsBytes, copied}
use mmgr.Proximus.{Reading}
use mmgr.Ring.{Ring, ring_run, out_loop, ring_move_out, ring_wrap}
use mmgr.Carcer.Word.{add64}
use mmgr.Ring.Move.{ring_move}
use mmgr.Ring.Moved.{ring_move-IsMoved}
use mmgr.Ring.Wrap.{around, ring_wrap-add}

-- A run of bytes outside the ring's buffer.
abbrev pub Outside : Ring → ℕ → ℕ → Type 0
Outside s a n = (a + n ≤ s.buf) ⊎ (s.buf + s.capacity ≤ a)

-- One round of `ring_move_out`.
abbrev out_round : Ring → ℕ → ℕ → ℕ → Reading
out_round s dst from bytes =
    ring_move (record { memory = s.memory; dst = dst; src = s.buf + from; bytes = bytes })

out_round-copied :
    (s : Ring) (dst from bytes : ℕ)
    → IsBytes s.memory
    → from + bytes ≤ s.capacity
    → Outside s dst bytes
    → ((j : ℕ) → (out_round s dst from bytes).memory j ≡ copied bytes s.memory dst (s.buf + from) j)
      × IsBytes (out_round s dst from bytes).memory
out_round-copied s dst from bytes h fits apart =
    let m =
      ring_move-IsMoved (record { memory = s.memory; dst = dst; src = s.buf + from; bytes = bytes })
        h (omega arith) in
    (m.0.memory, m.1)

-- What a run from the ring leaves: the bytes from `offset` on, going round, at `dst`.
abbrev pub drawn : Ring → ℕ → ℕ → ℕ → ℕ → ℕ
drawn s offset dst n j =
    if leb dst j && ltb j (dst + n)
    then s.memory (s.buf + around s.capacity (offset + (j - dst)))
    else s.memory j

out_loop-next :
    (f : ℕ) (s : Ring) (dst n done from bytes : ℕ)
    → done < n
    → out_loop (suc f) s dst n done from bytes
      ≡ out_loop f
          (record s { memory = (out_round s (dst + done) from bytes).memory })
          dst
          n
          (done + bytes)
          0
          (n - (done + bytes))
unfolding out_loop
out_loop-next f s dst n done from bytes more =
    let t : ltb done n ≡ true = ground arith in rw (out_loop, t) refl

out_loop-last :
    (f : ℕ) (s : Ring) (dst n done from bytes : ℕ)
    → done < n
    → done + bytes ≡ n
    → out_loop (suc (suc f)) s dst n done from bytes
      ≡ (record s { memory = (out_round s (dst + done) from bytes).memory }, n)
unfolding out_loop
out_loop-last f s dst n done from bytes more all =
    let t : ltb done n ≡ true = ground arith in
    let u : ltb n n ≡ false = ground arith in
    rw (out_loop, t, out_loop, all, u)
      (ap (λ x. (record s { memory = (out_round s (dst + done) from bytes).memory }, x)) all)

-- The state that `ring_move_out` leaves, and the count.
abbrev IsDrawn : Ring → Ring × ℕ → ℕ → ℕ → ℕ → Type 0
IsDrawn s end offset dst n =
    ((j : ℕ) → end.0.memory j ≡ drawn s offset dst n j)
    × IsBytes end.0.memory
    × (record end.0 { memory = s.memory } ≡ s)
    × (end.1 ≡ n)

module _ (s : Ring) (offset dst n : ℕ) (h : IsBytes s.memory) (inside : offset < s.capacity)
    (few : n ≤ s.capacity) (apart : Outside s dst n) where
  IsDrawn-none : n ≡ 0 → IsDrawn s (out_loop 3 s dst n 0 offset n) offset dst n
  unfolding out_loop
  IsDrawn-none e = let t : ltb 0 n ≡ false = ground arith in rw e (λ j. ground arith, h, refl, refl)

  IsDrawn-one :
      0 < n → n ≤ s.capacity - offset → IsDrawn s (out_loop 3 s dst n 0 offset n) offset dst n
  unfolding copied
  IsDrawn-one some fits =
      let (a, b) = out_round-copied s (dst + 0) offset n h (omega arith) (omega arith) in
      rw (out_loop-last 1 s dst n 0 offset n some (omega arith)) (
        λ j.
            let c = a j in
            let at : s.buf + offset + (j - (dst + 0)) ≡ s.buf + (offset + (j - dst)) =
              omega arith in
            ground (arith, c, ap s.memory at),
        b,
        refl,
        refl,
      )

  IsDrawn-two :
      s.capacity - offset < n
      → IsDrawn s (out_loop 3 s dst n 0 offset (s.capacity - offset)) offset dst n
  unfolding copied
  IsDrawn-two some =
      let room = s.capacity - offset in
      let left = n - (0 + room) in
      let (a, b) = out_round-copied s (dst + 0) offset room h (omega arith) (omega arith) in
      let s1 : Ring = record s { memory = (out_round s (dst + 0) offset room).memory } in
      let (c, d) = out_round-copied s1 (dst + (0 + room)) 0 left b (omega arith) (omega arith) in
      rw
        (
          out_loop-next 2 s dst n 0 offset room (omega arith),
          out_loop-last 0 s1 dst n (0 + room) 0 left (omega arith) (omega arith),
        )
        (
          λ j. elim (dec_lt j (dst + room)) [
            | yes low ↦
                let e = c j in
                let f = a j in
                let at : s.buf + offset + (j - (dst + 0)) ≡ s.buf + (offset + (j - dst)) =
                  omega arith in
                ground (arith, e, f, ap s.memory at)
            | no high ↦
                let e = c j in
                let to : s.buf + 0 + (j - (dst + (0 + room)))
                    ≡ s.buf + (offset + (j - dst) - s.capacity) =
                  omega arith in
                let g = a (s.buf + (offset + (j - dst) - s.capacity)) in
                let f = a j in ground (arith, e, f, g, ap s1.memory to)
          ],
          d,
          refl,
          refl,
        )

  IsDrawn-loop :
      IsDrawn s
        (out_loop 3 s dst n 0 offset
          (if ltb (s.capacity - offset) n then s.capacity - offset else n))
        offset
        dst
        n
  IsDrawn-loop = elim (dec_lt (s.capacity - offset) n) [
    | yes over ↦
        let t : ltb (s.capacity - offset) n ≡ true = ground arith in rw t (IsDrawn-two over)
    | no within ↦
        let t : ltb (s.capacity - offset) n ≡ false = ground arith in
        rw t (elim (dec_lt 0 n) [
          | yes some ↦ IsDrawn-one some (omega arith)
          | no none ↦ IsDrawn-none (omega arith)
        ])
  ]

  pub ring_move_out-IsDrawn :
      (k : ℕ)
      → k < 64
      → s.capacity ≡ 2 ^ k
      → let (s', next) = ring_move_out s offset dst n in
        ((j : ℕ) → s'.memory j ≡ drawn s offset dst n j)
        × IsBytes s'.memory
        × (record s' { memory = s.memory } ≡ s)
        × (next ≡ around s.capacity (offset + n))
  unfolding ring_move_out ring_run
  ring_move_out-IsDrawn k small power =
      let t : ltb s.capacity n ≡ false = ground arith in
      let (a, b, c, d) = IsDrawn-loop in
      let w : ring_wrap (add64 offset n) s.capacity ≡ around s.capacity (offset + n) =
        rw power (ring_wrap-add k small offset n (rw power at inside) (rw power at few)) in
      rw t (a, b, c, w)
