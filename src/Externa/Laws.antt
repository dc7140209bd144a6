-- ===== src/Externa/Laws.antt =====
-- The placements of src/memoria_externa, and the turns of a ping-pong buffer.
use mmgr.Prelude.{◌+◌, ◌≤◌, ◌<◌, ◌≡◌, ◌≢◌, ◌⊎◌, inl, inr, ap, bit_xor, arith, true, false}
use mmgr.Externa.{fail, dram, psram, Request, place, PingPong, drain_index, pingpong_swap}

-- Where internal memory is named, the request is of a byte or more and fits it with the reserve left
-- over.
pub place-dram :
    (r : Request) → place r ≡ dram → (0 < r.size) × (r.size + r.dram_reserve ≤ r.free_dram)
unfolding place
place-dram r h = ground arith

-- Where external memory is named, the request fits it and needs no DMA, and is at or above the
-- threshold or more than internal memory has room for.
pub place-psram :
    (r : Request)
    → place r ≡ psram
    → (r.size ≤ r.free_psram)
      × (r.dma_required ≡ false)
      × ((r.psram_threshold ≤ r.size) ⊎ (r.free_dram < r.size + r.dram_reserve))
unfolding place
place-psram r h = ground arith

-- Where no memory is named, the request is of nothing, or internal memory has no room for it and it
-- needs DMA or external memory has no room for it either.
pub place-fail :
    (r : Request)
    → place r ≡ fail
    → (r.size ≡ 0)
      ⊎ ((r.free_dram < r.size + r.dram_reserve)
          × ((r.dma_required ≡ true) ⊎ (r.free_psram < r.size)))
unfolding place
place-fail r h = ground arith

-- The two halves are 0 and 1.
abbrev pub IsHalf : PingPong → Type 0
IsHalf p = (p.fill_index ≡ 0) ⊎ (p.fill_index ≡ 1)

-- Where a half is filled: a swap fills a half again, answers the half that was drained and drains the
-- one that was filled, the half drained is not the one filled, and two swaps give the buffer back.
pub swap-halves :
    (p : PingPong)
    → IsHalf p
    → IsHalf (pingpong_swap p).0
      × ((pingpong_swap p).1 ≡ drain_index p)
      × (drain_index (pingpong_swap p).0 ≡ p.fill_index)
      × (drain_index p ≢ p.fill_index)
      × ((pingpong_swap (pingpong_swap p).0).0 ≡ p)
unfolding pingpong_swap drain_index
swap-halves p (inl e) =
    let x : bit_xor p.fill_index 1 ≡ 1 = ap (λ n. bit_xor n 1) e in
    let y : bit_xor (bit_xor p.fill_index 1) 1 ≡ 0 = ap (λ n. bit_xor n 1) x in ground arith
swap-halves p (inr e) =
    let x : bit_xor p.fill_index 1 ≡ 0 = ap (λ n. bit_xor n 1) e in
    let y : bit_xor (bit_xor p.fill_index 1) 1 ≡ 1 = ap (λ n. bit_xor n 1) x in ground arith
