-- ===== src/Cellul/Tests.antt =====
-- Runs of src/cellularum_laboro on a text of 13 bytes that begins between two word boundaries.
use mmgr.Prelude.{ℕ, ◌≡◌, refl, arith, if◌then◌else◌, ltb}
use mmgr.Prelude.Store.{IsBytes}
use mmgr.Cellul.{len}
use mmgr.Cellul.Len.{text_length, len-text_length}

abbrev letters : ℕ → ℕ
letters j = if ltb j 16 then b'a' else 0

letters-IsBytes : IsBytes letters
letters-IsBytes a = ground arith

measured : text_length 40 letters 3 ≡ 13
unfolding text_length
measured = refl

len-text_length_example : len letters 3 40 ≡ text_length 40 letters 3
len-text_length_example = len-text_length letters 3 40 letters-IsBytes
