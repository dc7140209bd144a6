-- ===== src/Scrutor/Laws.antt =====
-- The searches of src/verbum_scrutor act on each byte of a word apart.
use mmgr.Prelude.{ℕ, ◌+◌, ◌-◌, ◌*◌, ◌^◌, ◌≤◌, ◌<◌, ◌≡◌, refl, arith, ap, ◌∙◌, sym, bit_and, bit_or}
use mmgr.Prelude.{List, [], ◌∷◌, length, map, Bool, true, if◌then◌else◌, ◌==◌, leb, ltb}
use mmgr.Prelude.Below.{all_below, all_below_lem}
use mmgr.Prelude.Value.{value, AllBytes}
use mmgr.Prelude.Lanes.{
  lanes, Bytewise, bit_and-lanes, bit_or-lanes, add-lanes, sub-lanes, lanes-agree,
}
use mmgr.Carcer.Word.{add64, sub64, not64}
use mmgr.Scrutor.{has_zero, high, low7}

-- A function of bytes by all of its values.
abbrev all_bytes : (ℕ → Bool) → Bool
all_bytes f = all_below 256 f

lt_of : (a b : ℕ) → ltb a b ≡ true → a < b
lt_of a b e = ground arith

le_of : (a b : ℕ) → leb a b ≡ true → a ≤ b
le_of a b e = ground arith

eq_of : (a b : ℕ) → (a == b) ≡ true → a ≡ b
eq_of a b e = ground arith

pub bytewise : (f : ℕ → ℕ) → all_bytes (λ b. ltb (f b) 256) ≡ true → Bytewise f
bytewise f h b l = lt_of (f b) 256 (all_below_lem 256 (λ x. ltb (f x) 256) h b l)

pub below : (f g : ℕ → ℕ) → all_bytes (λ b. leb (g b) (f b)) ≡ true → (b : ℕ) → b < 256 → g b ≤ f b
below f g h b l = le_of (g b) (f b) (all_below_lem 256 (λ x. leb (g x) (f x)) h b l)

pub same : (f g : ℕ → ℕ) → all_bytes (λ b. f b == g b) ≡ true → (b : ℕ) → b < 256 → f b ≡ g b
same f g h b l = eq_of (f b) (g b) (all_below_lem 256 (λ x. f x == g x) h b l)

pub constant : (c : ℕ) (bs : List ℕ) → length bs ≡ 8 → lanes (λ b. c) bs ≡ 0x0101_0101_0101_0101 * c
constant c (a1 ∷ a2 ∷ a3 ∷ a4 ∷ a5 ∷ a6 ∷ a7 ∷ a8 ∷ []) h = omega arith
constant c [] h = absurd (omega arith)
constant c (a1 ∷ []) h = absurd (omega arith)
constant c (a1 ∷ a2 ∷ []) h = absurd (omega arith)
constant c (a1 ∷ a2 ∷ a3 ∷ []) h = absurd (omega arith)
constant c (a1 ∷ a2 ∷ a3 ∷ a4 ∷ []) h = absurd (omega arith)
constant c (a1 ∷ a2 ∷ a3 ∷ a4 ∷ a5 ∷ []) h = absurd (omega arith)
constant c (a1 ∷ a2 ∷ a3 ∷ a4 ∷ a5 ∷ a6 ∷ []) h = absurd (omega arith)
constant c (a1 ∷ a2 ∷ a3 ∷ a4 ∷ a5 ∷ a6 ∷ a7 ∷ []) h = absurd (omega arith)
constant c (a1 ∷ a2 ∷ a3 ∷ a4 ∷ a5 ∷ a6 ∷ a7 ∷ a8 ∷ a9 ∷ bs) h = absurd (omega arith)

pub own : (bs : List ℕ) → lanes (λ b. b) bs ≡ value bs
own [] = refl
own (b ∷ bs) = omega (arith, own bs)

module _ (bs : List ℕ) (h : AllBytes bs) (eight : length bs ≡ 8) where
  lanes-lt : (f : ℕ → ℕ) → Bytewise f → lanes f bs < 2 ^ 64
  lanes-lt f hf =
      let (_, less) = sub-lanes (λ b. 255) f bs (λ b l. let e = hf b l in omega arith) h in
      omega (arith, constant 255 bs eight)

  pub not-lanes : (f : ℕ → ℕ) → Bytewise f → not64 (lanes f bs) ≡ lanes (λ b. 255 - f b) bs
  unfolding not64
  not-lanes f hf =
      let (e, _) = sub-lanes (λ b. 255) f bs (λ b l. let e = hf b l in omega arith) h in
      omega (arith, constant 255 bs eight, e)

  pub and_const :
      (f : ℕ → ℕ) (c : ℕ)
      → c < 256
      → Bytewise f
      → bit_and (lanes f bs) (0x0101_0101_0101_0101 * c) ≡ lanes (λ b. bit_and (f b) c) bs
  and_const f c small hf =
      rw (← constant c bs eight) (bit_and-lanes f (λ b. c) bs hf (λ b l. small) h)

  pub or_const :
      (f : ℕ → ℕ) (c : ℕ)
      → c < 256
      → Bytewise f
      → bit_or (lanes f bs) (0x0101_0101_0101_0101 * c) ≡ lanes (λ b. bit_or (f b) c) bs
  or_const f c small hf =
      rw (← constant c bs eight) (bit_or-lanes f (λ b. c) bs hf (λ b l. small) h)

  add-lanes64 :
      (f g : ℕ → ℕ)
      → Bytewise (λ b. f b + g b)
      → add64 (lanes f bs) (lanes g bs) ≡ lanes (λ b. f b + g b) bs
  unfolding add64
  add-lanes64 f g hf = omega (arith, add-lanes f g bs, lanes-lt (λ b. f b + g b) hf)

  pub sub-lanes64 :
      (f g : ℕ → ℕ)
      → Bytewise f
      → ((b : ℕ) → b < 256 → g b ≤ f b)
      → sub64 (lanes f bs) (lanes g bs) ≡ lanes (λ b. f b - g b) bs
  unfolding sub64
  sub-lanes64 f g hf hg = let (e, less) = sub-lanes f g bs hg h in omega (arith, e, lanes-lt f hf)

  -- Of a word, the lanes of which are zero: the mark of each byte that is 0.
  marked : has_zero (lanes (λ b. b) bs) ≡ lanes (λ b. if b == 0 then 128 else 0) bs
  unfolding has_zero
  marked =
      let f1 = bytewise (λ b. b) refl in
      let f2 = bytewise (λ b. bit_and b 127 + 127) refl in
      let f3 = bytewise (λ b. bit_or (bit_and b 127 + 127) b) refl in
      let f4 = bytewise (λ b. 255 - bit_or (bit_and b 127 + 127) b) refl in
      let a = and_const (λ b. b) 127 (omega arith) f1 in
      let b = add-lanes64 (λ b. bit_and b 127) (λ b. 127) f2 in
      let c = constant 127 bs eight in
      let d = bit_or-lanes (λ b. bit_and b 127 + 127) (λ b. b) bs f2 f1 h in
      let e = not-lanes (λ b. bit_or (bit_and b 127 + 127) b) f3 in
      let g = and_const (λ b. 255 - bit_or (bit_and b 127 + 127) b) 128 (omega arith) f4 in
      ap (λ x. bit_and (not64 (bit_or (add64 x low7) (lanes (λ b. b) bs))) high) a
      ∙ ap
          (λ x.
            bit_and (not64 (bit_or (add64 (lanes (λ b. bit_and b 127) bs) x) (lanes (λ b. b) bs)))
              high)
          (sym c)
      ∙ ap (λ x. bit_and (not64 (bit_or x (lanes (λ b. b) bs))) high) b
      ∙ ap (λ x. bit_and (not64 x) high) d
      ∙ ap (λ x. bit_and x high) e
      ∙ g
      ∙ lanes-agree _ _ bs
          (same (λ b. bit_and (255 - bit_or (bit_and b 127 + 127) b) 128)
            (λ b. if b == 0 then 128 else 0) refl)
          h

-- The zero bytes of a word of eight, each marked by the high bit of its place: the mark is exact.
pub has_zero-marks :
    (bs : List ℕ)
    → AllBytes bs
    → length bs ≡ 8
    → has_zero (value bs) ≡ value (map (λ b. if b == 0 then 128 else 0) bs)
has_zero-marks bs h eight = ap has_zero (sym (own bs)) ∙ marked bs h eight
