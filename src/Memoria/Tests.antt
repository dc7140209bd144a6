-- ===== src/Memoria/Tests.antt =====
-- Runs of src/memoria_operor on bytes that overlap.
use mmgr.Prelude.{◌%◌, ◌≡◌, arith, some}
use mmgr.Proximus.{Reading}
use mmgr.Memoria.{Filling}
use mmgr.Memoria.Search.{chr, chr_bytes}
use mmgr.Memoria.Found.{chr-chr_bytes}

abbrev downward : Reading
downward = record { memory = λ a. a % 256; dst = 3; src = 10; bytes = 45 }

abbrev upward : Reading
upward = record { memory = λ a. a % 256; dst = 10; src = 3; bytes = 45 }

abbrev filling : Filling
filling = record { memory = λ a. a % 256; dst = 5; bytes = 43; val = 9 }

-- The byte 77 past 42 others, in a run that begins off a word boundary.
chr-chr_bytes_example : chr (λ a. a % 256) 35 77 60 ≡ some 77
unfolding chr_bytes
chr-chr_bytes_example = chr-chr_bytes (λ a. a % 256) 35 77 60 (λ a. omega arith) (omega arith)
