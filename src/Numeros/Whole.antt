-- ===== src/Numeros/Whole.antt =====
-- `numer_build` of src/numeros_scribo, by the texts of its fields: whole where there is room, else nothing.
use mmgr.Prelude.{ℕ, ◌+◌, ◌^◌, ◌≤◌, ◌<◌, ◌≡◌, ◌⊎◌, inl, inr, refl, arith, ap, ◌∙◌, sym}
use mmgr.Prelude.{
  List, [], ◌∷◌, ◌++◌, length, get_or, true, false, ◌==◌, leb, Bool-cases, Option, some,
}
use mathlib.Core.Path.{subst}
use native.Mathlib.Decide.{dec_lt}
use mmgr.Prelude.Store.{update, IsBytes}
use mmgr.Memoria.Marks.{run_bytes}
use mmgr.Verba.{Verba, room, put_n, finish}
use mmgr.Verba.Append.{append, append_list, append_in, put_n-append}
use mmgr.Verba.Chain.{chain, joined, chain-append, chain-fits, chain-refused, chain-keeps}
use mmgr.Numeros.{Field, Value, Walk, code, build_walk, abandon, settle, build}
use mmgr.Verba.Escape.Back.{run_text}
use mmgr.Numeros.Match.{
  is_matched, Spelled, ended, literal, value, IsLiteralApart, LiteralsApart, ValuesApart,
}
use mmgr.Numeros.Spelled.{IsAmid, IsAmid-chain, append-run, run-IsBytes}
use mmgr.Numeros.Emitted.{emit_one-Told}

run-told :
    (m : ℕ → ℕ) (out cap : ℕ) (v : Verba) (text n : ℕ)
    → n < 2 ^ 64
    → IsAmid m out cap v
    → (text + n ≤ out) ⊎ (out + cap ≤ text)
    → (put_n v text n ≡ append_list v (run_bytes n m text))
      × IsBytes (append_list v (run_bytes n m text)).memory
run-told m out cap v text n small h apart =
    let o = h.out_same in
    let k = h.cap_same in
    let same : (i : ℕ) → i < n → v.memory (text + i) ≡ m (text + i) =
      λ i l. h.same (text + i) (omega arith) in
    (
      put_n-append v text n small h.bytes (omega (arith, h.at))
          ∙ append-run v n (λ i. v.memory (text + i)) m text same,
      run-IsBytes v n m text h.bytes (λ i l. subst (λ b. b < 256) (same i l) (h.bytes (text + i))),
    )

-- A literal that stands outside of the buffer is written as its bytes.
literal-told :
    (m : ℕ → ℕ) (out cap : ℕ) (v : Verba) (f : Field)
    → code f.kind ≡ 1
    → IsAmid m out cap v
    → IsLiteralApart out cap f
    → (put_n v f.literal f.bytes ≡ append_list v (run_bytes f.bytes m f.literal))
      × IsBytes (append_list v (run_bytes f.bytes m f.literal)).memory
literal-told m out cap v f e h (inl other) = absurd (other e)
literal-told m out cap v f e h (inr (small, apart)) =
    run-told m out cap v f.literal f.bytes small h apart

-- What a walk over a matched spec comes to.
abbrev Walked : (ℕ → ℕ) → ℕ → Verba → List Field → List Value → Option Walk → Type 0
Walked m cap v fs xs o =
    (ps : List (List ℕ)) × Spelled m cap fs xs ps × (o ≡ some (Walk.reached (chain v ps)))

-- The bytes of a literal ahead of the rest of a walk.
Walked-literal :
    (fuel : ℕ) (m : ℕ → ℕ) (cap : ℕ) (v : Verba) (f : Field) (fs : List Field) (xs : List Value)
    → code f.kind ≡ 1
    → put_n v f.literal f.bytes ≡ append_list v (run_bytes f.bytes m f.literal)
    → Walked m cap
        (append_list v (run_bytes f.bytes m f.literal))
        fs
        xs
        (build_walk fuel (append_list v (run_bytes f.bytes m f.literal)) fs xs)
    → Walked m cap v (f ∷ fs) xs (build_walk fuel (put_n v f.literal f.bytes) fs xs)
Walked-literal fuel m cap v f fs xs e same (ps, spelled, walked) = (
  run_bytes f.bytes m f.literal ∷ ps,
  literal f fs xs ps e spelled,
  ap (λ w. build_walk fuel w fs xs) same ∙ walked,
)

build_walk-Walked :
    (fuel : ℕ) (m : ℕ → ℕ) (out cap : ℕ) (v : Verba) (fs : List Field) (xs : List Value)
    → cap < 2 ^ 64
    → IsAmid m out cap v
    → LiteralsApart out cap fs
    → ValuesApart out cap xs
    → is_matched fs xs ≡ true
    → Walked m cap v fs xs (build_walk fuel v fs xs)
unfolding build_walk
build_walk-Walked fuel m out cap v [] [] c h ls vs t = ([], ended, refl)
build_walk-Walked fuel m out cap v [] (x ∷ xs) c h ls vs t = absurd (ground arith)
build_walk-Walked fuel m out cap v (f ∷ fs) [] c h (apart, ls) vs t =
    elim (Bool-cases (code f.kind == 1)) [
      | inr n ↦ absurd (ground arith)
      | inl y ↦
          let (same, bytes) = literal-told m out cap v f (ground arith) h apart in
          let w = append_list v (run_bytes f.bytes m f.literal) in
          let amid = IsAmid-chain m out cap v (run_bytes f.bytes m f.literal ∷ []) h bytes in
          let rest = build_walk-Walked fuel m out cap w fs [] c amid ls tt (rw y at t) in
          rw y (Walked-literal fuel m cap v f fs [] (ground arith) same rest)
    ]
build_walk-Walked fuel m out cap v (f ∷ fs) (x ∷ xs) c h (apart, ls) (has, word, away, vs) t =
    elim (Bool-cases (code f.kind == 1)) [
      | inl y ↦
          let (same, bytes) = literal-told m out cap v f (ground arith) h apart in
          let w = append_list v (run_bytes f.bytes m f.literal) in
          let amid = IsAmid-chain m out cap v (run_bytes f.bytes m f.literal ∷ []) h bytes in
          let rest =
            build_walk-Walked fuel m out cap w fs (x ∷ xs) c amid ls (has, word, away, vs)
              (rw y at t) in
          rw y (Walked-literal fuel m cap v f fs (x ∷ xs) (ground arith) same rest)
      | inr n ↦ elim (Bool-cases (code x.kind == code f.kind)) [
        | inr u ↦ absurd (ground arith)
        | inl u ↦
            let (ps, text, told, bytes) =
              emit_one-Told fuel m out cap v x f.width has word (omega (arith, h.cap_same)) h
                away in
            let amid = IsAmid-chain m out cap v ps h bytes in
            let (qs, spelled, walked) =
              build_walk-Walked fuel m out cap (chain v ps) fs xs c amid ls vs (rw (n, u) at t) in
            rw (n, u, told)
              (
                ps ++ qs,
                value f fs x xs ps qs (ground arith) (ground arith) text spelled,
                walked ∙ ap (λ w. some (Walk.reached w)) (sym (chain-append v ps qs)),
              )
      ]
    ]

-- What is told of a build that comes to a text: the text, a terminator behind it and its end, or 0 where
-- there is no room.
abbrev pub IsWhole : Verba → List ℕ → Option ((ℕ → ℕ) × ℕ) → Type 0
IsWhole v bs o =
    (m : ℕ → ℕ) × (((v.at + length bs < v.cap)
        × (o ≡ some (m, v.at + length bs))
        × (run_bytes (length bs) m (v.out + v.at) ≡ bs)
        × (m (v.out + (v.at + length bs)) ≡ 0))
      ⊎ ((v.cap ≤ v.at + length bs) × (o ≡ some (m, 0))))

room_told :
    (v : Verba) (n : ℕ)
    → ((v.at + n < v.cap) × (room v n ≡ true)) ⊎ ((v.cap ≤ v.at + n) × (room v n ≡ false))
unfolding room
room_told v n = elim (dec_lt (v.at + n) v.cap) [
  | yes fits ↦ inl (fits, ground arith)
  | no over ↦ inr (omega arith, ground arith)
]

settle-full : (v w : Verba) → w.at ≡ w.cap → settle v (Walk.reached w) ≡ abandon w.memory v.out v.at
unfolding settle finish
settle-full v w e = let t : leb w.cap w.at ≡ true = ground arith in rw t refl

-- A walk's end with room left: what is written stays, and a terminator behind it.
settle-room :
    (v w : Verba)
    → w.out ≡ v.out
    → v.at ≤ w.at
    → w.at < w.cap
    → (m : ℕ → ℕ) × (settle v (Walk.reached w) ≡ (m, w.at))
      × ((j : ℕ) → j < v.out + w.at → m j ≡ w.memory j)
      × (m (v.out + w.at) ≡ 0)
unfolding settle finish abandon
settle-room v w o more fits =
    let t : leb w.cap w.at ≡ false = ground arith in
    let m = update w.memory (w.out + w.at) 0 in
    elim (Bool-cases (w.at == 0)) [
      | inl u ↦
          let none_written : w.at ≡ 0 = ground arith in
          (
            update m (v.out + v.at) 0,
            rw (t, u) (ap (λ n. (update m (v.out + v.at) 0, n)) (sym none_written)),
            (λ j l. ground arith),
            ground arith,
          )
      | inr u ↦ (m, rw (t, u) refl, (λ j l. ground arith), ground arith)
    ]

append_at : (v : Verba) (n : ℕ) (f : ℕ → ℕ) → room v n ≡ true → (append v n f).at ≡ v.at + n
unfolding append
append_at v n f t = rw t refl

-- The end of a walk that comes to a text.
settle-IsWhole :
    (v : Verba) (ps : List (List ℕ))
    → v.at < v.cap
    → IsWhole v (joined ps) (some (settle v (Walk.reached (chain v ps))))
unfolding abandon
settle-IsWhole v ps h =
    let bs = joined ps in
    let k = chain-keeps ps v (v.out + v.cap) (inr (omega arith)) (omega arith) in
    elim (room_told v (length bs)) [
      | inr (over, t) ↦
          let full = chain-refused ps v t (omega arith) ∙ sym (k.2) in
          let told = settle-full v (chain v ps) full in
          ((abandon (chain v ps).memory v.out v.at).0, inr (over, ap some told))
      | inl (fits, t) ↦
          let same = chain-fits ps v t in
          let w = append_list v bs in
          let at = append_at v (length bs) (λ i. get_or bs i 0) t in
          let c : w.cap ≡ v.cap = ap (λ w. w.cap) (sym same) ∙ k.2 in
          let o : w.out ≡ v.out = ap (λ w. w.out) (sym same) ∙ k.1 in
          let (m, told, kept, end) = settle-room v w o (omega arith) (omega arith) in
          (
            m,
            inl (
              fits,
              ap (λ w. some (settle v (Walk.reached w))) same
                  ∙ ap some told
                  ∙ ap (λ n. some (m, n)) at,
              run_text bs m (v.out + v.at) (λ i l.
                  kept (v.out + v.at + i) (omega arith)
                  ∙ append_in v (length bs) i (λ i. get_or bs i 0) t l),
              ap (λ n. m (v.out + n)) (sym at) ∙ end,
            ),
          )
    ]

-- A build whose offset is inside of a buffer of fewer than 2 ^ 64 bytes, in a memory of bytes, with values
-- of texts, integers and characters that match the spec in number and in kind, where the literals and as
-- far as the texts may be read stand outside of the buffer: the bytes of the literals and the texts of the
-- values, in the order of the spec, stand from the offset on with a terminator behind them, and the length
-- is where they end; or they do not fit, and the length is 0.
pub build-IsWhole :
    (fuel : ℕ) (v : Verba) (spec : List Field) (vals : List Value)
    → v.cap < 2 ^ 64
    → v.at < v.cap
    → IsBytes v.memory
    → LiteralsApart v.out v.cap spec
    → ValuesApart v.out v.cap vals
    → is_matched spec vals ≡ true
    → (ps : List (List ℕ)) × Spelled v.memory v.cap spec vals ps
      × IsWhole v (joined ps) (build fuel v spec vals)
unfolding build
build-IsWhole fuel v spec vals c h bytes ls vs t =
    let amid : IsAmid v.memory v.out v.cap v = record {
      out_same = refl;
      cap_same = refl;
      at = omega arith;
      bytes = bytes;
      same = λ j l. refl;
    } in
    let (ps, spelled, walked) =
      build_walk-Walked fuel v.memory v.out v.cap v spec vals c amid ls vs t in
    let n : (v.cap == 0) ≡ false = ground arith in
    (ps, spelled, rw (n, walked) (settle-IsWhole v ps h))
