-- ===== src/Ring/Steps.antt =====
-- Calls on the ring of src/memoria_anularis in any order, between which its client writes memory.
use mmgr.Prelude.{
  ℕ, ◌+◌, ◌^◌, ◌<◌, ◌≡◌, refl, ap, ◌∙◌, sym, arith, Bool, true, false, if◌then◌else◌, some,
}
use mmgr.Prelude.{List, [], ◌++◌, length, tabulate-agree}
use mathlib.Core.List.{append_assoc, append-nil}
use mmgr.Prelude.Store.{IsBytes}
use mmgr.Ring.{Ring, put, read, init}
use mmgr.Ring.Runs.{Outside}
use mmgr.Ring.Queue.{IsRing, bytes_at, queue}
use mmgr.Ring.Wrap.{around, distance}
use mmgr.Ring.Read.{fewest, read-takes}
use mmgr.Ring.Put.{put-adds}
use mmgr.Ring.Init.{init-IsRing}

-- The bytes that a put has taken.
abbrev pub taken_in : Ring → ℕ → ℕ → List ℕ
taken_in s src n = if (put s src n).1 then bytes_at s.memory src n else []

-- The bytes that a read has written.
abbrev pub given_out : Ring → ℕ → ℕ → List ℕ
given_out s dst wanted = let (s', n) = read s dst wanted in bytes_at s'.memory dst n

-- From one ring to another, with the bytes that went in and those that came out.
pub data Steps : Ring → List ℕ → List ℕ → Ring → Type 0 where
  stop : {s : Ring} → Steps s [] [] s
  client :
      {s t : Ring} {ins outs : List ℕ} (m : ℕ → ℕ)
      → IsBytes m
      → ((j : ℕ) → j < s.capacity → m (s.buf + j) ≡ s.memory (s.buf + j))
      → Steps (record s { memory = m }) ins outs t
      → Steps s ins outs t
  put_then :
      {s t : Ring} {ins outs : List ℕ} (src n : ℕ)
      → Outside s src n
      → Steps (put s src n).0 ins outs t
      → Steps s (taken_in s src n ++ ins) outs t
  read_then :
      {s t : Ring} {ins outs : List ℕ} (dst wanted : ℕ)
      → Outside s dst (fewest (length (queue s)) wanted)
      → Steps (read s dst wanted).0 ins outs t
      → Steps s ins (given_out s dst wanted ++ outs) t

client_lem :
    (s : Ring) (m : ℕ → ℕ)
    → IsRing s
    → IsBytes m
    → ((j : ℕ) → j < s.capacity → m (s.buf + j) ≡ s.memory (s.buf + j))
    → (queue (record s { memory = m }) ≡ queue s) × IsRing (record s { memory = m })
client_lem s m v b same =
    let h = v.head_in in
    let i = v.tail_in in
    (
      tabulate-agree (distance s.capacity s.tail s.head) _ _
          (λ j l. same (around s.capacity (s.tail + j)) (ground arith)),
      record {
        bits = v.bits;
        small = v.small;
        power = v.power;
        head_in = h;
        tail_in = i;
        bytes = b;
      },
    )

kept_or_added :
    (b : Bool) (xs ys : List ℕ) → (if b then xs ++ ys else xs) ≡ xs ++ (if b then ys else [])
kept_or_added true xs ys = refl
kept_or_added false xs ys = sym (append-nil xs)

run_lem :
    {s t : Ring} {ins outs : List ℕ}
    → Steps s ins outs t
    → IsRing s
    → queue s ++ ins ≡ outs ++ queue t
run_lem {s} stop v = append-nil (queue s)
run_lem {s} {ins = ins} (client m b same rest) v =
    let (q, w) = client_lem s m v b same in ap (λ xs. xs ++ ins) (sym q) ∙ run_lem rest w
run_lem {s} (put_then {ins = ins} src n apart rest) v =
    let (ok, q, w) = put-adds s src n v apart in
    let q' = q ∙ kept_or_added (put s src n).1 (queue s) (bytes_at s.memory src n) in
    sym (append_assoc (queue s) (taken_in s src n) ins)
    ∙ ap (λ xs. xs ++ ins) (sym q')
    ∙ run_lem rest w
run_lem {s} {t} {ins} (read_then {outs = outs} dst wanted apart rest) v =
    let (count, q, w) = read-takes s dst wanted v apart in
    let got = given_out s dst wanted in
    ap (λ xs. xs ++ ins) q
    ∙ append_assoc got (queue (read s dst wanted).0) ins
    ∙ ap (λ xs. got ++ xs) (run_lem rest w)
    ∙ sym (append_assoc got outs (queue t))

-- Whatever puts and reads are made, from and to places outside the ring's buffer, on a ring that
-- `init` made over a memory of bytes at a capacity below 2 ^ 64, and whatever bytes its client writes
-- outside the buffer between them: the bytes that came out, and then those that wait, are the bytes
-- that went in, in their order.
pub Steps-in_order :
    (m : ℕ → ℕ) (buf capacity segment_count segment_bytes : ℕ) (s t : Ring) (ins outs : List ℕ)
    → IsBytes m
    → capacity < 2 ^ 64
    → init m buf capacity segment_count segment_bytes ≡ some s
    → Steps s ins outs t
    → ins ≡ outs ++ queue t
Steps-in_order m buf capacity segment_count segment_bytes s t ins outs h small made steps =
    let (v, empty) = init-IsRing m buf capacity segment_count segment_bytes s h small made in
    ap (λ xs. xs ++ ins) (sym empty) ∙ run_lem steps v
