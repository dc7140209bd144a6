-- ===== src/Externa.antt =====
-- src/memoria_externa: where a buffer goes, internal or external memory, and the two halves of a
-- ping-pong buffer.
pub mod Laws
mod Tests
use mmgr.Prelude.{ℕ, ◌-◌, ◌%◌, bit_xor, Bool, true, false, ◌&&◌, if◌then◌else◌, ◌==◌, leb}

pub data Place : Type 0 where
  dram psram fail : Place

-- The fields of `ExterCtx` that a placement reads.
pub record Request : Type 0 where
  pub size : ℕ
  pub dma_required : Bool
  pub free_dram : ℕ
  pub free_psram : ℕ
  pub psram_threshold : ℕ
  pub dram_reserve : ℕ

unfoldable pub dram_fits : Request → Bool
dram_fits r = leb r.size r.free_dram && leb r.dram_reserve (r.free_dram - r.size)

unfoldable pub psram_fits : Request → Bool
psram_fits r = leb r.size r.free_psram

unfoldable pub place : Request → Place
unfolding dram_fits psram_fits
place r =
    if r.size == 0
    then fail
    else if r.dma_required
    then (if dram_fits r then dram else fail)
    else if leb r.psram_threshold r.size
    then (if psram_fits r then psram else if dram_fits r then dram else fail)
    else (if dram_fits r then dram else if psram_fits r then psram else fail)

-- `PingPong`: the half that is being filled.
pub record PingPong : Type 0 where
  pub fill_index : ℕ

unfoldable pub pingpong_init : PingPong → PingPong
pingpong_init p = record p { fill_index = 0 }

unfoldable pub drain_index : PingPong → ℕ
drain_index p = bit_xor p.fill_index 1 % 256

unfoldable pub pingpong_swap : PingPong → PingPong × ℕ
pingpong_swap p = let f = bit_xor p.fill_index 1 in (record p { fill_index = f }, f)
