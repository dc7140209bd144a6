-- ===== src/Proximus/Tests.antt =====
-- Runs of src/proximus_operor.
use mmgr.Prelude.{◌%◌, ◌≡◌, inl, arith}
use mmgr.Prelude.Store.{copied}
use mmgr.Proximus.{Reading, read}
use mmgr.Proximus.Copy.{read-copies}

-- Twenty bytes carried down over their own start.
abbrev overlapped : Reading
overlapped = record { memory = λ a. a % 256; dst = 3; src = 10; bytes = 20 }

read-copies_example : (read overlapped).memory 19 ≡ copied 20 (λ a. a % 256) 3 10 19
read-copies_example = read-copies overlapped 19 (omega arith) (λ a. omega arith) (inl (omega arith))
