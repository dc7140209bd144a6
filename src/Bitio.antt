-- ===== src/Bitio.antt =====
-- src/bitorum_introitus_exitus: the bit writer. `size_t` and `embed_word` have 64 bits; the buffer is
-- its bytes by index. MMGR_ASSERT is empty, as in a build without the hook.
pub mod Stream
mod Whole
mod Tail
pub mod Put
mod Tests
use mmgr.Prelude.{ℕ, zero, suc, ◌+◌, ◌-◌, ◌*◌, ◌/◌, ◌%◌, ◌^◌, bit_and, bit_or}
use mmgr.Prelude.{Bool, true, false, ◌||◌, if◌then◌else◌, ◌==◌, ltb, leb}
use mmgr.Carcer.Word.{add64, sub64}
use mmgr.Carcer.Series.{update}

-- `mmgr_bitor`.
pub record Writer : Type 0 where
  pub out : ℕ → ℕ
  pub cap : ℕ
  pub bytes_written : ℕ
  pub residue : ℕ
  pub bit_count : ℕ
  pub overflow : Bool

-- `bitor_init`.
unfoldable pub init : (ℕ → ℕ) → ℕ → Writer
init out cap = record {
  out = out;
  cap = cap;
  bytes_written = 0;
  residue = 0;
  bit_count = 0;
  overflow = false;
}

-- The locals of `bitor_put` beside the writer: the bits to write and their count.
pub record Pending : Type 0 where
  pub out : ℕ → ℕ
  pub work : ℕ
  pub left : ℕ

-- The loop of `bitor_put`: the bytes past the first, from an index on.
unfoldable pub put_bytes : ℕ → ℕ → Pending → Pending
unfolding sub64
put_bytes zero at p = p
put_bytes (suc n) at p = put_bytes n (at + 1) (record {
  out = update p.out at (bit_and p.work 255);
  work = p.work / 2 ^ 8;
  left = sub64 p.left 8;
})

-- The first byte, which the residue shares, and the loop.
unfoldable pub put_whole : ℕ → Writer → Pending → Pending
unfolding put_bytes sub64
put_whole whole w p =
    let take = sub64 8 w.bit_count in
    let chunk = bit_and p.work 255 in
    put_bytes (whole - 1) (w.bytes_written + 1) (record {
      out = update p.out w.bytes_written (bit_or w.residue (chunk * 2 ^ w.bit_count % 256));
      work = p.work / 2 ^ take;
      left = sub64 p.left take;
    })

-- The bits that fill no byte go to the residue.
unfoldable pub put_tail : Pending → Writer → Writer
unfolding add64
put_tail p w =
    let tail = bit_and p.work (2 ^ bit_and p.left 7 - 1) in
    if p.left == 0 then w else record w {
      residue = bit_or w.residue (tail * 2 ^ w.bit_count % 256);
      bit_count = add64 w.bit_count p.left;
    }

-- The whole bytes that the bits held and the bits put make.
unfoldable pub whole_bytes : ℕ → ℕ → ℕ
unfolding add64
whole_bytes held bit_count = add64 held bit_count / 8

-- `bitor_put`.
unfoldable pub put : Writer → ℕ → ℕ → Writer
put w val bit_count =
    let mask = if leb 64 bit_count then 2 ^ 64 - 1 else 2 ^ bit_count - 1 in
    let whole = whole_bytes w.bit_count bit_count in
    let p : Pending = record { out = w.out; work = bit_and val mask; left = bit_count } in
    let p' = if whole == 0 then p else put_whole whole w p in
    let w' : Writer = record w {
      out = p'.out;
      residue = if whole == 0 then w.residue else 0;
      bit_count = if whole == 0 then w.bit_count else 0;
    } in
    let w'' = put_tail p' w' in
    if w.overflow
    then w
    else if ltb (sub64 w.cap w.bytes_written) whole
    then record w { overflow = true; bit_count = 0; residue = 0 }
    else record w'' { bytes_written = add64 w''.bytes_written whole }

-- `bitor_align`.
unfoldable pub align : Writer → Writer
align w =
    if w.overflow || w.bit_count == 0
    then w
    else if leb w.cap w.bytes_written
    then record w { overflow = true }
    else record w {
      out = update w.out w.bytes_written w.residue;
      bytes_written = w.bytes_written + 1;
      residue = 0;
      bit_count = 0;
    }
