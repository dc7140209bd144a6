-- ===== src/Endian/Tests.antt =====
-- Runs of src/endian on numbers of 3 and 4 bytes.
use mmgr.Prelude.{◌≡◌, inl, inr, refl, arith}
use mmgr.Endian.{wr_be, rd_be}
use mmgr.Endian.Trips.{big, rd_be-wr_be}

rd_be-wr_be_example :
    (big 4 (wr_be (λ a. 7) 100 0x55_0102_0304 4).0 100 ≡ 0x0102_0304)
    × (rd_be (wr_be (λ a. 7) 100 0x55_0102_0304 4).0 100 4 ≡ 0x0102_0304)
rd_be-wr_be_example =
    rd_be-wr_be (λ a. 7) 100 0x55_0102_0304 4 (λ a. omega arith) (omega arith) (inr (inl refl))
