-- ===== src/Verba.antt =====
-- src/verba_scribo: text and numbers written into a buffer, one after another. The buffer and the texts
-- stand in one memory of bytes by address; an address does not wrap. NULL is address 0. A string literal
-- is a list of its bytes, which no write reaches.
mod Tests
pub mod Text
pub mod Decimal
pub mod Numbers
pub mod Escape
pub mod Append
pub mod Chain
pub mod Put
pub mod Real
use mmgr.Prelude.{ℕ, zero, suc, ◌+◌, ◌-◌, ◌%◌}
use mmgr.Prelude.{
  List, length, get_or, Bool, true, false, not, ◌&&◌, ◌||◌, if◌then◌else◌, ◌==◌, ltb, leb,
}
use mmgr.Prelude.Store.{update}
use mmgr.Proximus.{Reading}
use mmgr.Proximus as Proximus
use mmgr.Cellul as Cellul
use mmgr.Verba.Text.{placed}

-- What `VerbaCtx` says of the buffer, with the memory; a call's result is this with the offset returned.
pub record Verba : Type 0 where
  pub memory : ℕ → ℕ
  pub out : ℕ
  pub cap : ℕ
  pub at : ℕ

-- `verba_room`: `want` bytes and one more.
unfoldable pub room : Verba → ℕ → Bool
room v want = ltb v.at v.cap && leb want (v.cap - v.at - 1)

-- `verba_put_n`.
unfoldable pub put_n : Verba → ℕ → ℕ → Verba
put_n v text text_len =
    let r =
      Proximus.read
        (record { memory = v.memory; dst = v.out + v.at; src = text; bytes = text_len }) in
    if not (room v text_len)
    then record v { at = v.cap }
    else record v { memory = r.memory; at = v.at + text_len }

-- `verba_put`: a length of 0 measures the text.
unfoldable pub put : Verba → ℕ → ℕ → Verba
put v text text_len =
    let len = if not (text_len == 0) then text_len else Cellul.len v.memory text v.cap in
    put_n v text len

-- `verba_put` of a string literal, which is measured.
unfoldable pub put_literal : Verba → List ℕ → Verba
put_literal v literal =
    let len = if ltb v.cap (length literal) then v.cap else length literal in
    if not (room v len) then record v { at = v.cap } else record v {
      memory = placed v.memory (v.out + v.at) len (λ i. get_or literal i 0);
      at = v.at + len;
    }

-- `verba_put_clip`.
unfoldable pub put_clip : Verba → ℕ → Verba
put_clip v text =
    let left = v.cap - v.at - 1 in
    let len = Cellul.len v.memory text left in
    let r =
      Proximus.read (record { memory = v.memory; dst = v.out + v.at; src = text; bytes = len }) in
    if (text == 0) || leb v.cap v.at then v else record v { memory = r.memory; at = v.at + len }

-- `verba_ch`.
unfoldable pub ch : Verba → ℕ → Verba
ch v c =
    if not (room v 1)
    then record v { at = v.cap }
    else record v { memory = update v.memory (v.out + v.at) c; at = v.at + 1 }

-- `verba_finish`: the memory, and the length.
unfoldable pub finish : Verba → (ℕ → ℕ) × ℕ
finish v = if leb v.cap v.at then (v.memory, 0) else (update v.memory (v.out + v.at) 0, v.at)

-- `verba_ok`.
unfoldable pub ok : Verba → Bool
ok v = ltb v.at v.cap
