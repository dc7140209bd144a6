-- ===== src/Externa/Tests.antt =====
-- Runs of src/memoria_externa.
use mmgr.Prelude.{ℕ, ◌≡◌, ◌≢◌, inl, refl, false}
use mmgr.Externa.{fail, dram, psram, Request, place, PingPong, pingpong_swap, drain_index}
use mmgr.Externa.Laws.{IsHalf, swap-halves}

-- A request by its bytes, with 1000 bytes free in internal memory and 5000 in external memory.
abbrev request : ℕ → Request
request n = record {
  size = n;
  dma_required = false;
  free_dram = 1000;
  free_psram = 5000;
  psram_threshold = 2000;
  dram_reserve = 200;
}

request-dram : place (request 800) ≡ dram
unfolding place
request-dram = refl

request-psram : place (request 801) ≡ psram
unfolding place
request-psram = refl

request-fail : place (request 5001) ≡ fail
unfolding place
request-fail = refl

abbrev turned : PingPong
turned = record { fill_index = 0 }

swap-halves_example :
    IsHalf (pingpong_swap turned).0
    × ((pingpong_swap turned).1 ≡ drain_index turned)
    × (drain_index (pingpong_swap turned).0 ≡ 0)
    × (drain_index turned ≢ 0)
    × ((pingpong_swap (pingpong_swap turned).0).0 ≡ turned)
swap-halves_example = swap-halves turned (inl refl)
