-- ===== src/Scrutor/Fold.antt =====
-- The letters that src/verbum_scrutor finds in a word, and the word in lower case.
use mmgr.Prelude.{ℕ, ◌+◌, ◌-◌, ◌*◌, ◌/◌, ◌≡◌, refl, arith, ap, ◌∙◌, sym, bit_and, bit_or}
use mmgr.Prelude.{List, length, map, ◌&&◌, if◌then◌else◌, leb}
use mathlib.Core.Path.{ap₂}
use mmgr.Prelude.Value.{value, AllBytes}
use mmgr.Prelude.Lanes.{lanes, bit_and-lanes, bit_or-lanes, lanes-agree, quarter-lanes}
use mmgr.Carcer.Word.{sub64, not64}
use mmgr.Scrutor.{ge, le, alpha, fold_lower, broadcast, high}
use mmgr.Scrutor.Laws.{
  bytewise, below, same, constant, own, not-lanes, and_const, or_const, sub-lanes64,
}

-- What the code does to one byte.
abbrev lo8 : ℕ → ℕ
lo8 b = bit_or b 32

abbrev range8 : ℕ → ℕ
range8 b = bit_and (lo8 b) 127

abbrev ge8 : ℕ → ℕ
ge8 b = bit_or (bit_and (range8 b) 128) (bit_and (bit_or (range8 b) 128 - 97) 128)

abbrev le8 : ℕ → ℕ
le8 b = bit_and (255 - range8 b) (bit_and (250 - bit_and (range8 b) 127) 128)

abbrev alpha8 : ℕ → ℕ
alpha8 b = bit_and (bit_and (ge8 b) (le8 b)) (255 - lo8 b)

abbrev pub lower : ℕ → ℕ
lower b = if leb 65 b && leb b 90 then b + 32 else b

module _ (bs : List ℕ) (h : AllBytes bs) (eight : length bs ≡ 8) where
  at_least : ge (lanes range8 bs) 0x61 ≡ lanes ge8 bs
  unfolding ge broadcast
  at_least =
      let f = bytewise range8 refl in
      let g = bytewise (λ b. bit_or (range8 b) 128) refl in
      let i = bytewise (λ b. bit_and (range8 b) 128) refl in
      let j = bytewise (λ b. bit_or (range8 b) 128 - 97) refl in
      let k = bytewise (λ b. bit_and (bit_or (range8 b) 128 - 97) 128) refl in
      let a = and_const bs h eight range8 128 (omega arith) f in
      let c = or_const bs h eight range8 128 (omega arith) f in
      let d =
        sub-lanes64 bs h eight (λ b. bit_or (range8 b) 128) (λ b. 97) g
          (below (λ b. bit_or (range8 b) 128) (λ b. 97) refl) in
      let e = and_const bs h eight (λ b. bit_or (range8 b) 128 - 97) 128 (omega arith) j in
      let n = sym (constant 97 bs eight) in
      ap₂ (λ x y. bit_or x (bit_and (sub64 y (0x0101_0101_0101_0101 * 97)) high)) a c
      ∙ ap
          (λ x.
            bit_or (lanes (λ b. bit_and (range8 b) 128) bs)
              (bit_and (sub64 (lanes (λ b. bit_or (range8 b) 128) bs) x) high))
          n
      ∙ ap (λ x. bit_or (lanes (λ b. bit_and (range8 b) 128) bs) (bit_and x high)) d
      ∙ ap (λ x. bit_or (lanes (λ b. bit_and (range8 b) 128) bs) x) e
      ∙ bit_or-lanes (λ b. bit_and (range8 b) 128) (λ b. bit_and (bit_or (range8 b) 128 - 97) 128)
          bs i k h

  at_most : le (lanes range8 bs) 0x7A ≡ lanes le8 bs
  unfolding le broadcast
  at_most =
      let f = bytewise range8 refl in
      let g = bytewise (λ b. 255 - range8 b) refl in
      let i = bytewise (λ b. bit_and (range8 b) 127) refl in
      let j = bytewise (λ b. 250 - bit_and (range8 b) 127) refl in
      let k = bytewise (λ b. bit_and (250 - bit_and (range8 b) 127) 128) refl in
      let m : not64 high ≡ 0x0101_0101_0101_0101 * 127 = unfold not64 in refl in
      let o : bit_or (0x0101_0101_0101_0101 * 122) high ≡ 0x0101_0101_0101_0101 * 250 = refl in
      let a = not-lanes bs h eight range8 f in
      let c = and_const bs h eight range8 127 (omega arith) f in
      let d =
        sub-lanes64 bs h eight (λ b. 250) (λ b. bit_and (range8 b) 127) (bytewise (λ b. 250) refl)
          (below (λ b. 250) (λ b. bit_and (range8 b) 127) refl) in
      let e = and_const bs h eight (λ b. 250 - bit_and (range8 b) 127) 128 (omega arith) j in
      let n = sym (constant 250 bs eight) in
      ap₂ (λ x y. bit_and x (bit_and (sub64 y (bit_and (lanes range8 bs) (not64 high))) high)) a
        (o ∙ n)
      ∙ ap
          (λ x.
            bit_and (lanes (λ b. 255 - range8 b) bs) (bit_and (sub64 (lanes (λ b. 250) bs) x) high))
          (ap (bit_and (lanes range8 bs)) m ∙ c)
      ∙ ap (λ x. bit_and (lanes (λ b. 255 - range8 b) bs) (bit_and x high)) d
      ∙ ap (λ x. bit_and (lanes (λ b. 255 - range8 b) bs) x) e
      ∙ bit_and-lanes (λ b. 255 - range8 b) (λ b. bit_and (250 - bit_and (range8 b) 127) 128) bs g k
          h

  letters : alpha (lanes (λ b. b) bs) ≡ lanes alpha8 bs
  unfolding alpha broadcast
  letters =
      let a = or_const bs h eight (λ b. b) 32 (omega arith) (bytewise (λ b. b) refl) in
      let c = and_const bs h eight lo8 127 (omega arith) (bytewise lo8 refl) in
      let d = not-lanes bs h eight lo8 (bytewise lo8 refl) in
      let e = bit_and-lanes ge8 le8 bs (bytewise ge8 refl) (bytewise le8 refl) h in
      let g =
        bit_and-lanes (λ b. bit_and (ge8 b) (le8 b)) (λ b. 255 - lo8 b) bs
          (bytewise (λ b. bit_and (ge8 b) (le8 b)) refl) (bytewise (λ b. 255 - lo8 b) refl) h in
      ap
        (λ x.
          bit_and
            (bit_and (ge (bit_and x 0x7F7F_7F7F_7F7F_7F7F) 0x61)
              (le (bit_and x 0x7F7F_7F7F_7F7F_7F7F) 0x7A))
            (not64 x))
        a
      ∙ ap (λ x. bit_and (bit_and (ge x 0x61) (le x 0x7A)) (not64 (lanes lo8 bs))) c
      ∙ ap₂ (λ x y. bit_and (bit_and x y) (not64 (lanes lo8 bs))) at_least at_most
      ∙ ap₂ bit_and e d
      ∙ g

  folded : fold_lower (lanes (λ b. b) bs) ≡ lanes lower bs
  unfolding fold_lower
  folded =
      let quarter : alpha (lanes (λ b. b) bs) / 4 ≡ lanes (λ b. alpha8 b / 4) bs =
        ap (λ x. x / 4)
          (letters
            ∙ lanes-agree alpha8 (λ b. 4 * (alpha8 b / 4)) bs
                (same alpha8 (λ b. 4 * (alpha8 b / 4)) refl) h)
        ∙ quarter-lanes (λ b. alpha8 b / 4) bs in
      ap (bit_or (lanes (λ b. b) bs)) quarter
      ∙ bit_or-lanes (λ b. b) (λ b. alpha8 b / 4) bs (bytewise (λ b. b) refl)
          (bytewise (λ b. alpha8 b / 4) refl) h
      ∙ lanes-agree (λ b. bit_or b (alpha8 b / 4)) lower bs
          (same (λ b. bit_or b (alpha8 b / 4)) lower refl) h

-- A word of eight bytes is folded to lower case byte by byte: a letter from A to Z by 32, every other
-- byte as it is.
pub fold_lower-lower :
    (bs : List ℕ) → AllBytes bs → length bs ≡ 8 → fold_lower (value bs) ≡ value (map lower bs)
fold_lower-lower bs h eight = ap fold_lower (sym (own bs)) ∙ folded bs h eight
