-- ===== src/Endian/Reverse.antt =====
-- The reversal of src/endian by masks and shifts is the one byte by byte.
use mmgr.Prelude.{
  ℕ, zero, suc, ◌+◌, ◌-◌, ◌*◌, ◌/◌, ◌%◌, ◌^◌, ◌≤◌, ◌<◌, ◌≡◌, refl, arith, ap, ◌∙◌, sym,
}
use mmgr.Prelude.{[], ◌∷◌, bit_and}
use mmgr.Prelude.Bits.{bit_or-zero, bit_and-zero, zero-bit_or}
use mmgr.Prelude.Value.{value, AllBytes, bit_and-value, bit_or-value, bit_and_byte}
use mmgr.Carcer.Word.{shl64}
use mmgr.Endian.{swapped, rev}

-- The lowest `n` bytes of a number in the other order.
unfoldable pub reversed : ℕ → ℕ → ℕ
reversed zero v = 0
reversed (suc n) v = v % 256 * 256 ^ n + reversed n (v / 256)

-- A byte under a mask that keeps it, and under one that drops it.
keep : (b : ℕ) → b < 256 → bit_and b 255 ≡ b
keep b h = bit_and_byte b h

drop_byte : (b : ℕ) → bit_and b 0 ≡ 0
drop_byte b = bit_and-zero b

pairs_mask : AllBytes (255 ∷ 0 ∷ 255 ∷ 0 ∷ 255 ∷ 0 ∷ 255 ∷ 0 ∷ [])
pairs_mask = (
  omega arith,
  (
    omega arith,
    (omega arith, (omega arith, (omega arith, (omega arith, (omega arith, (omega arith, tt)))))),
  ),
)

quads_mask : AllBytes (255 ∷ 255 ∷ 0 ∷ 0 ∷ 255 ∷ 255 ∷ 0 ∷ 0 ∷ [])
quads_mask = (
  omega arith,
  (
    omega arith,
    (omega arith, (omega arith, (omega arith, (omega arith, (omega arith, (omega arith, tt)))))),
  ),
)

module _ (a b c d e f g h : ℕ) (ha : a < 256) (hb : b < 256) (hc : c < 256) (hd : d < 256)
    (he : e < 256) (hf : f < 256) (hg : g < 256) (hh : h < 256) where
  swapped-pairs :
      swapped 8 0x00FF_00FF_00FF_00FF (value (a ∷ b ∷ c ∷ d ∷ e ∷ f ∷ g ∷ h ∷ []))
      ≡ value (b ∷ a ∷ d ∷ c ∷ f ∷ e ∷ h ∷ g ∷ [])
  unfolding swapped shl64
  swapped-pairs =
      let low : bit_and (value (a ∷ b ∷ c ∷ d ∷ e ∷ f ∷ g ∷ h ∷ [])) 0x00FF_00FF_00FF_00FF
          ≡ value (a ∷ 0 ∷ c ∷ 0 ∷ e ∷ 0 ∷ g ∷ 0 ∷ []) =
        bit_and-value (a ∷ b ∷ c ∷ d ∷ e ∷ f ∷ g ∷ h ∷ [])
          (255 ∷ 0 ∷ 255 ∷ 0 ∷ 255 ∷ 0 ∷ 255 ∷ 0 ∷ [])
          (ha, (hb, (hc, (hd, (he, (hf, (hg, (hh, tt)))))))) pairs_mask
        ∙ rw
            (
              keep a ha,
              keep c hc,
              keep e he,
              keep g hg,
              drop_byte b,
              drop_byte d,
              drop_byte f,
              drop_byte h,
              keep 0 (omega arith),
              drop_byte 0,
            )
            refl in
      let up : value (a ∷ 0 ∷ c ∷ 0 ∷ e ∷ 0 ∷ g ∷ 0 ∷ []) * 2 ^ 8 % 2 ^ 64
          ≡ value (0 ∷ a ∷ 0 ∷ c ∷ 0 ∷ e ∷ 0 ∷ g ∷ []) =
        omega arith in
      let down : value (a ∷ b ∷ c ∷ d ∷ e ∷ f ∷ g ∷ h ∷ []) / 2 ^ 8
          ≡ value (b ∷ c ∷ d ∷ e ∷ f ∷ g ∷ h ∷ 0 ∷ []) =
        omega arith in
      let high : bit_and (value (b ∷ c ∷ d ∷ e ∷ f ∷ g ∷ h ∷ 0 ∷ [])) 0x00FF_00FF_00FF_00FF
          ≡ value (b ∷ 0 ∷ d ∷ 0 ∷ f ∷ 0 ∷ h ∷ 0 ∷ []) =
        bit_and-value (b ∷ c ∷ d ∷ e ∷ f ∷ g ∷ h ∷ 0 ∷ [])
          (255 ∷ 0 ∷ 255 ∷ 0 ∷ 255 ∷ 0 ∷ 255 ∷ 0 ∷ [])
          (hb, (hc, (hd, (he, (hf, (hg, (hh, (omega arith, tt)))))))) pairs_mask
        ∙ rw
            (
              keep b hb,
              keep d hd,
              keep f hf,
              keep h hh,
              drop_byte c,
              drop_byte e,
              drop_byte g,
              keep 0 (omega arith),
              drop_byte 0,
            )
            refl in
      rw (low, up, down, high)
        (bit_or-value (0 ∷ a ∷ 0 ∷ c ∷ 0 ∷ e ∷ 0 ∷ g ∷ []) (b ∷ 0 ∷ d ∷ 0 ∷ f ∷ 0 ∷ h ∷ 0 ∷ [])
            (omega arith, (ha, (omega arith, (hc, (omega arith, (he, (omega arith, (hg, tt))))))))
            (hb, (omega arith, (hd, (omega arith, (hf, (omega arith, (hh, (omega arith, tt))))))))
          ∙ simp (bit_or-zero, zero-bit_or) refl)

  swapped-quads :
      swapped 16 0x0000_FFFF_0000_FFFF (value (b ∷ a ∷ d ∷ c ∷ f ∷ e ∷ h ∷ g ∷ []))
      ≡ value (d ∷ c ∷ b ∷ a ∷ h ∷ g ∷ f ∷ e ∷ [])
  unfolding swapped shl64
  swapped-quads =
      let low : bit_and (value (b ∷ a ∷ d ∷ c ∷ f ∷ e ∷ h ∷ g ∷ [])) 0x0000_FFFF_0000_FFFF
          ≡ value (b ∷ a ∷ 0 ∷ 0 ∷ f ∷ e ∷ 0 ∷ 0 ∷ []) =
        bit_and-value (b ∷ a ∷ d ∷ c ∷ f ∷ e ∷ h ∷ g ∷ [])
          (255 ∷ 255 ∷ 0 ∷ 0 ∷ 255 ∷ 255 ∷ 0 ∷ 0 ∷ [])
          (hb, (ha, (hd, (hc, (hf, (he, (hh, (hg, tt)))))))) quads_mask
        ∙ rw
            (
              keep b hb,
              keep a ha,
              keep f hf,
              keep e he,
              drop_byte d,
              drop_byte c,
              drop_byte h,
              drop_byte g,
              keep 0 (omega arith),
              drop_byte 0,
            )
            refl in
      let up : value (b ∷ a ∷ 0 ∷ 0 ∷ f ∷ e ∷ 0 ∷ 0 ∷ []) * 2 ^ 16 % 2 ^ 64
          ≡ value (0 ∷ 0 ∷ b ∷ a ∷ 0 ∷ 0 ∷ f ∷ e ∷ []) =
        omega arith in
      let down : value (b ∷ a ∷ d ∷ c ∷ f ∷ e ∷ h ∷ g ∷ []) / 2 ^ 16
          ≡ value (d ∷ c ∷ f ∷ e ∷ h ∷ g ∷ 0 ∷ 0 ∷ []) =
        omega arith in
      let high : bit_and (value (d ∷ c ∷ f ∷ e ∷ h ∷ g ∷ 0 ∷ 0 ∷ [])) 0x0000_FFFF_0000_FFFF
          ≡ value (d ∷ c ∷ 0 ∷ 0 ∷ h ∷ g ∷ 0 ∷ 0 ∷ []) =
        bit_and-value (d ∷ c ∷ f ∷ e ∷ h ∷ g ∷ 0 ∷ 0 ∷ [])
          (255 ∷ 255 ∷ 0 ∷ 0 ∷ 255 ∷ 255 ∷ 0 ∷ 0 ∷ [])
          (hd, (hc, (hf, (he, (hh, (hg, (omega arith, (omega arith, tt)))))))) quads_mask
        ∙ rw
            (
              keep d hd,
              keep c hc,
              keep h hh,
              keep g hg,
              drop_byte f,
              drop_byte e,
              keep 0 (omega arith),
              drop_byte 0,
            )
            refl in
      rw (low, up, down, high)
        (bit_or-value (0 ∷ 0 ∷ b ∷ a ∷ 0 ∷ 0 ∷ f ∷ e ∷ []) (d ∷ c ∷ 0 ∷ 0 ∷ h ∷ g ∷ 0 ∷ 0 ∷ [])
            (omega arith, (omega arith, (hb, (ha, (omega arith, (omega arith, (hf, (he, tt))))))))
            (hd, (hc, (omega arith, (omega arith, (hh, (hg, (omega arith, (omega arith, tt))))))))
          ∙ simp (bit_or-zero, zero-bit_or) refl)

  rev-word :
      (width : ℕ)
      → rev (value (a ∷ b ∷ c ∷ d ∷ e ∷ f ∷ g ∷ h ∷ [])) width
        ≡ value (h ∷ g ∷ f ∷ e ∷ d ∷ c ∷ b ∷ a ∷ []) / 2 ^ (8 * (8 - width))
  unfolding rev
  rev-word width =
      let quads = value (d ∷ c ∷ b ∷ a ∷ h ∷ g ∷ f ∷ e ∷ []) in
      let up : shl64 quads 32 ≡ value (0 ∷ 0 ∷ 0 ∷ 0 ∷ d ∷ c ∷ b ∷ a ∷ []) =
        unfold shl64 in omega arith in
      let down : quads / 2 ^ 32 ≡ value (h ∷ g ∷ f ∷ e ∷ 0 ∷ 0 ∷ 0 ∷ 0 ∷ []) = omega arith in
      let zero_byte : 0 < 256 = omega arith in
      let whole =
        bit_or-value (0 ∷ 0 ∷ 0 ∷ 0 ∷ d ∷ c ∷ b ∷ a ∷ []) (h ∷ g ∷ f ∷ e ∷ 0 ∷ 0 ∷ 0 ∷ 0 ∷ [])
          (zero_byte, (zero_byte, (zero_byte, (zero_byte, (hd, (hc, (hb, (ha, tt))))))))
          (hh, (hg, (hf, (he, (zero_byte, (zero_byte, (zero_byte, (zero_byte, tt)))))))) in
      rw (swapped-pairs, swapped-quads, up, down, whole) (simp (bit_or-zero, zero-bit_or) refl)

  at-width :
      (n : ℕ)
      → 0 < n
      → n ≤ 8
      → value (h ∷ g ∷ f ∷ e ∷ d ∷ c ∷ b ∷ a ∷ []) / 2 ^ (8 * (8 - n))
        ≡ reversed n (value (a ∷ b ∷ c ∷ d ∷ e ∷ f ∷ g ∷ h ∷ []))
  unfolding reversed
  at-width zero some_bytes most = absurd (omega arith)
  at-width (suc zero) some_bytes most = omega arith
  at-width (suc (suc zero)) some_bytes most = omega arith
  at-width (suc (suc (suc zero))) some_bytes most = omega arith
  at-width (suc (suc (suc (suc zero)))) some_bytes most = omega arith
  at-width (suc (suc (suc (suc (suc zero))))) some_bytes most = omega arith
  at-width (suc (suc (suc (suc (suc (suc zero)))))) some_bytes most = omega arith
  at-width (suc (suc (suc (suc (suc (suc (suc zero))))))) some_bytes most = omega arith
  at-width (suc (suc (suc (suc (suc (suc (suc (suc zero)))))))) some_bytes most = omega arith
  at-width (suc (suc (suc (suc (suc (suc (suc (suc (suc n))))))))) some_bytes most =
      absurd (omega arith)

-- The reversal of a number below 2 ^ 64 at a width of 1 to 8 bytes is the lowest bytes of it in the
-- other order.
pub rev-reversed :
    (v width : ℕ) → v < 2 ^ 64 → 0 < width → width ≤ 8 → rev v width ≡ reversed width v
rev-reversed v width h some_bytes most =
    let a = v % 256 in
    let b = v / 256 % 256 in
    let c = v / 65536 % 256 in
    let d = v / 2 ^ 24 % 256 in
    let e = v / 2 ^ 32 % 256 in
    let f = v / 2 ^ 40 % 256 in
    let g = v / 2 ^ 48 % 256 in
    let i = v / 2 ^ 56 in
    let split : v ≡ value (a ∷ b ∷ c ∷ d ∷ e ∷ f ∷ g ∷ i ∷ []) = omega arith in
    ap (λ x. rev x width) split
    ∙ rev-word a b c d e f g i (omega arith) (omega arith) (omega arith) (omega arith) (omega arith)
        (omega arith) (omega arith) (omega arith) width
    ∙ at-width a b c d e f g i (omega arith) (omega arith) (omega arith) (omega arith) (omega arith)
        (omega arith) (omega arith) (omega arith) width some_bytes most
    ∙ ap (λ x. reversed width x) (sym split)
