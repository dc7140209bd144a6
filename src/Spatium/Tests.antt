-- ===== src/Spatium/Tests.antt =====
-- Runs of src/spatium on a span of 64 bytes with 20 written.
use mmgr.Prelude.{false}
use mmgr.Spatium.{Span}

abbrev begun : Span
begun = record { buf = 4096; cap = 64; pos = 20; overflow = false }
