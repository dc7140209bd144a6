-- ===== src/Bitio/Stream.antt =====
-- The stream of bits that a writer of src/bitorum_introitus_exitus holds.
use mmgr.Prelude.{ℕ, zero, suc, ◌+◌, ◌*◌, ◌^◌, ◌≤◌, ◌<◌, ◌≡◌, refl, arith, ap, ◌∙◌}
use mmgr.Prelude.Bits.{two-pow-add}
use mmgr.Carcer.Series.{update}
use mmgr.Bitio.{Writer, Pending}

-- The number whose bits are the bytes below an index, the first byte lowest, with a number above them.
abbrev pub stream : (ℕ → ℕ) → ℕ → ℕ → ℕ
stream out zero above = above
stream out (suc n) above = stream out n (out n + 256 * above)

-- What a writer holds, its residue included, with a number above.
abbrev pub bits : Writer → ℕ → ℕ
bits w above = stream w.out w.bytes_written (w.residue + 2 ^ w.bit_count * above)

-- A writer between calls.
pub record IsWriter (w : Writer) : Type 0 where
  pub room : w.bytes_written ≤ w.cap
  pub small : w.cap < 2 ^ 60
  pub short : w.bit_count < 8
  pub fits : w.residue < 2 ^ w.bit_count

-- A store at or past the end of a stream leaves it.
pub stream-update :
    (out : ℕ → ℕ) (n k v above : ℕ) → n ≤ k → stream (update out k v) n above ≡ stream out n above
stream-update out zero k v above h = refl
stream-update out (suc n) k v above h =
    let other : update out k v n ≡ out n = ground arith in
    stream-update out n k v (update out k v n + 256 * above) (omega arith)
    ∙ ap (λ b. stream out n (b + 256 * above)) other

-- A store at the end of a stream is the next byte.
pub stream-byte :
    (out : ℕ → ℕ) (at b above : ℕ)
    → stream (update out at b) (at + 1) above ≡ stream out at (b + 256 * above)
stream-byte out at b above =
    let self : update out at b at ≡ b = ground arith in
    let next : at + 1 ≡ suc at = omega arith in
    rw next (
      stream-update out at at b (update out at b at + 256 * above) (omega arith)
      ∙ ap (λ c. stream out at (c + 256 * above)) self)

-- What is still to be written, below a number.
abbrev pub pending : Pending → ℕ → ℕ
pending p above = p.work + 2 ^ p.left * above

pub split-pow : (a b above : ℕ) → 2 ^ (a + b) * above ≡ 2 ^ a * (2 ^ b * above)
split-pow a b above = omega (arith, ap (λ (t : ℕ). t * above) (two-pow-add a b))
