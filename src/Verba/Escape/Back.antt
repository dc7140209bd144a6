-- ===== src/Verba/Escape/Back.antt =====
-- A JSON string that src/verba_scribo has written is read back as the text.
use mmgr.Prelude.{ℕ, suc, ◌+◌, ◌-◌, ◌<◌, ◌≡◌, refl, arith, ap, ◌∙◌, sym}
use mmgr.Prelude.{List, [], ◌∷◌, length, get_or, true}
use mmgr.Verba.{Verba, room}
use mmgr.Verba.Append.{append, append_list, append_in}
use mmgr.Memoria.Marks.{run_bytes}
use mathlib.Core.Path.{ap₂}

pub run_text :
    (bs : List ℕ) (m : ℕ → ℕ) (a : ℕ)
    → ((i : ℕ) → i < length bs → m (a + i) ≡ get_or bs i 0)
    → run_bytes (length bs) m a ≡ bs
run_text [] m a h = refl
run_text (b ∷ bs) m a h =
    let z : a + 0 ≡ a = omega arith in
    ap₂ ◌∷◌ (ap m (sym z) ∙ h 0 (omega arith)) (
      run_text bs m (a + 1)
        (λ i l. let e : a + 1 + i ≡ a + suc i = omega arith in ap m e ∙ h (suc i) (omega arith)))

more_at : (v : Verba) (n : ℕ) (text : ℕ → ℕ) → room v n ≡ true → (append v n text).at - v.at ≡ n
unfolding append
more_at v n text t = rw t (omega arith)

pub written_text :
    (v : Verba) (bs : List ℕ)
    → room v (length bs) ≡ true
    → run_bytes ((append_list v bs).at - v.at) (append_list v bs).memory (v.out + v.at) ≡ bs
written_text v bs t =
    let text : ℕ → ℕ = λ i. get_or bs i 0 in
    ap (λ n. run_bytes n (append_list v bs).memory (v.out + v.at)) (more_at v (length bs) text t)
    ∙ run_text bs (append_list v bs).memory (v.out + v.at)
        (λ i l. append_in v (length bs) i text t l)
