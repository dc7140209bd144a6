-- ===== src/Ring/Segments.antt =====
-- The segments of src/memoria_anularis as a queue of indexes, one context that claims them and one
-- that releases them.
use mmgr.Prelude.{
  ℕ, ◌+◌, ◌-◌, ◌*◌, ◌/◌, ◌%◌, ◌^◌, ◌≤◌, ◌<◌, ◌≡◌, ◌≢◌, ap, ◌∙◌, sym, arith, bit_and, get_elem?,
}
use mathlib.Core.Path.{ap₂}
use mmgr.Prelude.{true, false, ltb, some}
use mmgr.Prelude.{List, [], ◌∷◌, ◌++◌, tabulate, tabulate-agree, tabulate-add, get_elem?-tabulate}
use native.Mathlib.Decide.{dec_lt}
use native.Mathlib.Nat.{mul-le-mul, div-mul-le_self}
use mmgr.Carcer.Word.{add64, sub64}
use mmgr.Ring.{
  Ring, ring_wrap, seg_inflight, seg_pick, seg_next, seg_publish, seg_front, seg_release, seg_at,
  init,
}
use mmgr.Ring.Wrap.{ring_wrap-mod, mod_whole, mod_apart, capacity_small}

-- Counts that fit in a word, and no more segments in flight than there are.
pub record IsSegmented (s : Ring) : Type 0 where
  pub bits : ℕ
  pub small : bits < 64
  pub power : s.segment_count ≡ 2 ^ bits
  pub claimed_fits : s.claimed < 2 ^ 64
  pub released_fits : s.released < 2 ^ 64
  pub few : seg_inflight s ≤ s.segment_count

-- The index that a count stands for.
abbrev pub seg_index : Ring → ℕ → ℕ
seg_index s cursor = bit_and cursor (sub64 s.segment_count 1)

-- The indexes of the segments that are claimed and not yet released, the oldest first.
abbrev pub flight : Ring → List ℕ
flight s = tabulate (seg_inflight s) (λ j. seg_index s (add64 s.released j))

most : (s : Ring) → IsSegmented s → s.segment_count ≤ 2 ^ 63
most s v = rw v.power (capacity_small v.bits v.small)

inflight-publish :
    (s : Ring)
    → IsSegmented s
    → seg_inflight s < s.segment_count
    → seg_inflight (seg_publish s) ≡ seg_inflight s + 1
unfolding seg_inflight seg_publish add64 sub64
inflight-publish s v room =
    let a = v.claimed_fits in let b = v.released_fits in let c = most s v in omega arith

inflight-release :
    (s : Ring)
    → IsSegmented s
    → s.claimed ≢ s.released
    → seg_inflight s ≡ 1 + seg_inflight (seg_release s)
unfolding seg_inflight seg_release add64 sub64
inflight-release s v some_left = let a = v.claimed_fits in let b = v.released_fits in ground arith

-- The count of claims is that of releases and of the segments in flight.
newest : (s : Ring) → IsSegmented s → add64 s.released (seg_inflight s) ≡ s.claimed
unfolding seg_inflight add64 sub64
newest s v = let a = v.claimed_fits in let b = v.released_fits in omega arith

next_lem :
    (s : Ring) (i : ℕ)
    → seg_next s ≡ some i
    → (seg_inflight s < s.segment_count) × (i ≡ seg_index s s.claimed)
unfolding seg_next seg_pick seg_inflight
next_lem s i e = (ground arith, ground arith)

front_lem :
    (s : Ring) (i : ℕ)
    → seg_front s ≡ some i
    → (s.claimed ≢ s.released) × (i ≡ seg_index s s.released)
unfolding seg_front seg_pick
front_lem s i e = (λ same. ground arith, ground arith)

index_add : (a b : ℕ) → add64 (add64 a 1) b ≡ add64 a (1 + b)
unfolding add64
index_add a b = omega arith

-- On a ring whose segments are a power of 2, with counts that fit in a word and no more in flight than
-- there are: the segment that `seg_next` tells, once published, is the last of those in flight, and
-- the ring stays such a ring.
pub seg_publish-adds :
    (s : Ring) (i : ℕ)
    → IsSegmented s
    → seg_next s ≡ some i
    → (flight (seg_publish s) ≡ flight s ++ (i ∷ [])) × IsSegmented (seg_publish s)
unfolding seg_publish
seg_publish-adds s i v e =
    let n = seg_inflight s in
    let (room, at) = next_lem s i e in
    let more = inflight-publish s v room in
    let last : seg_index s (add64 s.released (n + 0)) ≡ i =
      ap (λ x. seg_index s (add64 s.released x)) (omega arith)
      ∙ ap (seg_index s) (newest s v)
      ∙ sym at in
    (
      ap (λ x. tabulate x (λ j. seg_index s (add64 s.released j))) more
          ∙ tabulate-add n 1 _
          ∙ ap (λ x. flight s ++ (x ∷ [])) last,
      record {
        bits = v.bits;
        small = v.small;
        power = v.power;
        claimed_fits = unfold add64 in omega arith;
        released_fits = v.released_fits;
        few = omega arith;
      },
    )

-- On a ring whose segments are a power of 2, with counts that fit in a word and no more in flight than
-- there are: the segment that `seg_front` tells is the oldest of those in flight, its release leaves
-- the rest, and the ring stays such a ring.
pub seg_release-takes :
    (s : Ring) (i : ℕ)
    → IsSegmented s
    → seg_front s ≡ some i
    → (flight s ≡ i ∷ flight (seg_release s)) × IsSegmented (seg_release s)
unfolding seg_release
seg_release-takes s i v e =
    let (some_left, at) = front_lem s i e in
    let fewer = inflight-release s v some_left in
    let n = seg_inflight (seg_release s) in
    let first : seg_index s (add64 s.released 0) ≡ i =
      unfold add64 in ap (seg_index s) (let a = v.released_fits in omega arith) ∙ sym at in
    (
      ap (λ x. tabulate x (λ j. seg_index s (add64 s.released j))) fewer
          ∙ tabulate-add 1 n _
          ∙ ap₂ ◌∷◌ first
              (tabulate-agree n _ _ (λ j l. ap (seg_index s) (sym (index_add s.released j)))),
      record {
        bits = v.bits;
        small = v.small;
        power = v.power;
        claimed_fits = v.claimed_fits;
        released_fits = unfold add64 in omega arith;
        few = let f = v.few in omega arith;
      },
    )

index_lem : (s : Ring) → IsSegmented s → (x : ℕ) → seg_index s x ≡ x % s.segment_count
unfolding ring_wrap
index_lem s v x = rw v.power (ring_wrap-mod v.bits v.small x)

index_newer :
    (s : Ring) (v : IsSegmented s) (x : ℕ)
    → seg_index s (add64 s.released x) ≡ (s.released + x) % s.segment_count
unfolding add64
index_newer s v x =
    index_lem s v ((s.released + x) % 2 ^ 64)
    ∙ rw v.power (mod_whole v.bits v.small (s.released + x))

-- On a ring whose segments are a power of 2, with counts that fit in a word and no more in flight than
-- there are: the segment that `seg_next` tells is none of those in flight.
pub seg_next-apart :
    (s : Ring) (i j : ℕ) → IsSegmented s → seg_next s ≡ some i → get_elem? (flight s) j ≢ some i
seg_next-apart s i j v e same =
    let n = seg_inflight s in
    let (room, at) = next_lem s i e in
    let found = get_elem?-tabulate n (λ k. seg_index s (add64 s.released k)) j in
    elim (dec_lt j n) [
      | yes l ↦
          let t : ltb j n ≡ true = ground arith in
          let index : seg_index s (add64 s.released j) ≡ i = ground (arith, rw t at found, same) in
          let new : i ≡ (s.released + n) % s.segment_count =
            at ∙ ap (seg_index s) (sym (newest s v)) ∙ index_newer s v n in
          let old : i ≡ (s.released + j) % s.segment_count = sym index ∙ index_newer s v j in
          let far : s.released + n ≡ s.released + j + (n - j) = omega arith in
          mod_apart s.segment_count (s.released + j) (n - j) (omega arith) (omega arith)
            (ap (λ x. x % s.segment_count) (sym far) ∙ sym new ∙ old)
      | no l ↦ let t : ltb j n ≡ false = ground arith in ground (arith, rw t at found, same)
    ]

init_segments :
    (m : ℕ → ℕ) (buf capacity segment_count segment_bytes : ℕ) (s : Ring)
    → init m buf capacity segment_count segment_bytes ≡ some s
    → (s.buf ≡ buf)
      × (s.segment_count ≡ segment_count)
      × (s.segment_bytes ≤ capacity / segment_count)
unfolding init
init_segments m buf capacity segment_count segment_bytes s e =
    (ground arith, ground arith, ground arith)

-- A segment of a ring that `init` made, at an index below their count, ends where the next begins and
-- stands inside the bytes that `init` was given.
pub seg_at-inside :
    (m : ℕ → ℕ) (buf capacity segment_count segment_bytes index : ℕ) (s : Ring)
    → init m buf capacity segment_count segment_bytes ≡ some s
    → index < s.segment_count
    → (seg_at s index + s.segment_bytes ≡ seg_at s (index + 1))
      × (buf ≤ seg_at s index)
      × (seg_at s (index + 1) ≤ buf + capacity)
unfolding seg_at
seg_at-inside m buf capacity segment_count segment_bytes index s e inside =
    let (a, b, c) = init_segments m buf capacity segment_count segment_bytes s e in
    let share = capacity / segment_count in
    let next : (index + 1) * s.segment_bytes ≡ index * s.segment_bytes + s.segment_bytes =
      omega arith in
    let lower : index + 1 ≤ segment_count = omega arith in
    let all : (index + 1) * s.segment_bytes ≤ segment_count * share = mul-le-mul lower c in
    let most = div-mul-le_self capacity segment_count in (omega arith, omega arith, omega arith)
