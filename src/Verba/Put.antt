-- ===== src/Verba/Put.antt =====
-- The texts that src/verba_scribo measures before it writes them.
use mmgr.Prelude.{ℕ, ◌+◌, ◌-◌, ◌^◌, ◌≤◌, ◌<◌, ◌≡◌, ◌⊎◌, refl, arith, ◌∙◌}
use mmgr.Prelude.{true, false, ◌||◌, ◌==◌, leb}
use mmgr.Prelude.Store.{IsBytes}
use mmgr.Cellul.Len.{text_length, length_most, len-text_length}
use mmgr.Verba.{Verba, room, put_n, put, put_clip}
use mmgr.Verba.Append.{append, put_n-append}

-- A text whose length is not given, in a memory of bytes, is measured to its terminator or the capacity;
-- where it is not written over before it is read, that much is written, or it is refused.
pub put-measured :
    (v : Verba) (text : ℕ)
    → v.cap < 2 ^ 64
    → IsBytes v.memory
    → (v.out + v.at ≤ text) ⊎ (text + text_length v.cap v.memory text ≤ v.out + v.at)
    → put v text 0 ≡ append v (text_length v.cap v.memory text) (λ i. v.memory (text + i))
unfolding put
put-measured v text small h apart =
    let most = length_most v.cap v.memory text in
    rw (len-text_length v.memory text v.cap h)
      (put_n-append v text (text_length v.cap v.memory text) (omega arith) h apart)

clip_room : (v : Verba) (l : ℕ) → v.at < v.cap → l ≤ v.cap - v.at - 1 → room v l ≡ true
unfolding room
clip_room v l h m = ground arith

put_clip-put_n :
    (v : Verba) (text : ℕ)
    → 0 < text
    → v.at < v.cap
    → IsBytes v.memory
    → put_clip v text ≡ put_n v text (text_length (v.cap - v.at - 1) v.memory text)
unfolding put_clip put_n
put_clip-put_n v text pos h bytes =
    let l = text_length (v.cap - v.at - 1) v.memory text in
    let fits = clip_room v l h (length_most (v.cap - v.at - 1) v.memory text) in
    let off : ((text == 0) || leb v.cap v.at) ≡ false = ground arith in
    rw (off, len-text_length v.memory text (v.cap - v.at - 1) bytes, fits) refl

-- A text that is clipped, in a memory of bytes, with some of the buffer left, is written up to its
-- terminator or as far as it fits before the last byte, and what is written always fits; it is not
-- written over before it is read.
pub put_clip-fits :
    (v : Verba) (text : ℕ)
    → 0 < text
    → v.at < v.cap
    → v.cap < 2 ^ 64
    → IsBytes v.memory
    → let l = text_length (v.cap - v.at - 1) v.memory text in
      (v.out + v.at ≤ text) ⊎ (text + l ≤ v.out + v.at)
      → let l = text_length (v.cap - v.at - 1) v.memory text in
        (put_clip v text ≡ append v l (λ i. v.memory (text + i)))
        × (room v l ≡ true)
        × (l ≤ v.cap - v.at - 1)
put_clip-fits v text pos h small bytes apart =
    let l = text_length (v.cap - v.at - 1) v.memory text in
    let most = length_most (v.cap - v.at - 1) v.memory text in
    (
      put_clip-put_n v text pos h bytes ∙ put_n-append v text l (omega arith) bytes apart,
      clip_room v l h most,
      most,
    )
