-- ===== src/Renderer/PixelTable.antt =====
-- What a pixel becomes: src/display/renderer.rs, `rop_pixel`.
use Prim.Native.Nat.{bit_or}
use psl_xserver.Prelude.{
  ==_iff, Bool-cases, List, arith, bit_and, both_hold, false, if◌then◌else◌, inl, inr, leb, refl,
  some, suc, sym, true, zero, ℕ, ◌&&◌, ◌<◌, ◌==◌, ◌∙◌, ◌≡◌,
}
use psl_xserver.Prelude.Bits.{not_u32}
use psl_xserver.Prelude.Digits.{
  bit_and_fits, bit_and_fits_right, bit_or_fits, digit, digit-bit_and, digit-bit_or, digit-ones,
  digit_small,
}
use psl_xserver.Prelude.Int.{ℤ}
use psl_xserver.Renderer.{Canvas, apply_rop, pixel_offset, read_pixel, rop, rop_pixel}
use psl_xserver.Renderer.Pixels.{pixel_offset-Inside, read_pixel-write_pixel}
use psl_xserver.Renderer.RasterOps.{apply_rop-table, digit-alpha, table_entry}
use psl_xserver.Wire.{IsU32}

-- Digits of the colour, below and in the alpha byte.
digit-opaque : (i v : ℕ) → i < 24 → digit i (bit_or v 0xFF000000) ≡ digit i v
digit-opaque i v hi =
    let dark : leb 24 i ≡ false = ground arith in
    let high : digit i 0xFF000000 ≡ 0 = digit-alpha i (omega arith) ∙ rw dark refl in
    omega (arith, digit-bit_or i v 0xFF000000, high)

digit-rgb : (i v : ℕ) → i < 24 → digit i (bit_and v 0x00FFFFFF) ≡ digit i v
digit-rgb i v hi = omega (arith, digit-bit_and i v 0x00FFFFFF, digit-ones 24 i hi, digit_small i v)

copy_entry : (s d : ℕ) → s < 2 → d < 2 → table_entry 3 s d ≡ s
unfolding table_entry digit
copy_entry zero zero hs hd = refl
copy_entry zero (suc zero) hs hd = refl
copy_entry (suc zero) zero hs hd = refl
copy_entry (suc zero) (suc zero) hs hd = refl
copy_entry (suc (suc s)) d hs hd = absurd (omega arith)
copy_entry s (suc (suc d)) hs hd = absurd (omega arith)

noop_entry : (s d : ℕ) → s < 2 → d < 2 → table_entry 5 s d ≡ d
unfolding table_entry digit
noop_entry zero zero hs hd = refl
noop_entry zero (suc zero) hs hd = refl
noop_entry (suc zero) zero hs hd = refl
noop_entry (suc zero) (suc zero) hs hd = refl
noop_entry (suc (suc s)) d hs hd = absurd (omega arith)
noop_entry s (suc (suc d)) hs hd = absurd (omega arith)

-- What digit `i` becomes.
pub drawn : ℕ → ℕ → ℕ → ℕ → ℕ → ℕ
unfolding digit table_entry
drawn gc_function plane_mask src old i =
    if digit i plane_mask == 1
    then table_entry gc_function (digit i src) (digit i old)
    else digit i old

drawn-copy : (i src old : ℕ) → i < 24 → drawn 3 0xFFFFFFFF src old i ≡ digit i src
unfolding drawn
drawn-copy i src old hi =
    let full : (digit i 0xFFFFFFFF == 1) ≡ true = rw (digit-ones 32 i (omega arith)) refl in
    rw (full, drawn)
      (copy_entry (digit i src) (digit i old) (digit_small i src) (digit_small i old))

drawn-noop : (i plane_mask src old : ℕ) → drawn 5 plane_mask src old i ≡ digit i old
unfolding drawn
drawn-noop i plane_mask src old = elim (Bool-cases (digit i plane_mask == 1)) [
  | inl masked ↦
      rw (masked, drawn)
        (noop_entry (digit i src) (digit i old) (digit_small i src) (digit_small i old))
  | inr unmasked ↦ rw (unmasked, drawn) refl
]

drawn-general :
    (f i plane_mask src old : ℕ)
    → f < 16
    → IsU32 src
    → IsU32 old
    → i < 24
    → digit i (apply_rop f (bit_or src 0xFF000000) old (bit_and plane_mask 0x00FFFFFF))
      ≡ drawn f plane_mask src old i
unfolding drawn
drawn-general f i plane_mask src old hf hs ho hi =
    let dark : leb 24 i ≡ false = ground arith in
    apply_rop-table f (bit_or src 0xFF000000) old (bit_and plane_mask 0x00FFFFFF) i hf
      (bit_or_fits 32 src 0xFF000000 hs (omega arith)) ho
      (bit_and_fits_right 32 plane_mask 0x00FFFFFF (omega arith)) (omega arith)
    ∙ rw (dark, digit-opaque i src hi, digit-rgb i plane_mask hi) refl

apply_rop-IsU32 : (f src dst mask : ℕ) → IsU32 dst → IsU32 mask → IsU32 (apply_rop f src dst mask)
unfolding apply_rop
apply_rop-IsU32 f src dst mask hd hm =
    bit_or_fits 32 (bit_or (bit_and dst (not_u32 mask)) (bit_and (rop f src dst) mask)) 0xFF000000
      (bit_or_fits 32 (bit_and dst (not_u32 mask)) (bit_and (rop f src dst) mask)
        (bit_and_fits 32 dst (not_u32 mask) hd) (bit_and_fits_right 32 (rop f src dst) mask hm))
      (omega arith)

-- Where a pixel is drawn, on a colour, a plane mask and a pixel of 32 bits and for one of the sixteen
-- operations: every digit of the red, green and blue bytes that the plane mask selects becomes the
-- digit that the operation's table gives for the colour's and the old digit, and the others stay.
pub rop_pixel-table :
    (c : Canvas) (buffer : List ℕ) (px py : ℤ) (src_color gc_function plane_mask offset i : ℕ)
    → pixel_offset c buffer px py ≡ some offset
    → gc_function < 16
    → IsU32 src_color
    → IsU32 plane_mask
    → IsU32 (read_pixel buffer offset)
    → i < 24
    → digit i (read_pixel (rop_pixel c buffer px py src_color gc_function plane_mask) offset)
      ≡ drawn gc_function plane_mask src_color (read_pixel buffer offset) i
unfolding rop_pixel
rop_pixel-table c buffer px py src_color gc_function plane_mask offset i inside hf hs hm ho hi =
    let place = pixel_offset-Inside c buffer px py offset inside in
    let rgb = bit_and_fits_right 32 plane_mask 0x00FFFFFF (omega arith) in
    elim (Bool-cases (gc_function == 3 && plane_mask == 0xFFFFFFFF)) [
      | inl plain ↦
          let which = both_hold (gc_function == 3) (plane_mask == 0xFFFFFFFF) plain in
          let is_copy = (==_iff gc_function 3).0 which.0 in
          let all_planes = (==_iff plane_mask 0xFFFFFFFF).0 which.1 in
          let colour = bit_or (bit_and src_color 0x00FFFFFF) 0xFF000000 in
          let small : IsU32 colour =
            bit_or_fits 32 (bit_and src_color 0x00FFFFFF) 0xFF000000
              (bit_and_fits 32 src_color 0x00FFFFFF hs) (omega arith) in
          let meant : drawn gc_function plane_mask src_color (read_pixel buffer offset) i
              ≡ digit i src_color =
            rw (is_copy, all_planes) (drawn-copy i src_color (read_pixel buffer offset) hi) in
          rw
            (inside, plain, rop_pixel, read_pixel-write_pixel buffer offset colour small place.fits)
            (digit-opaque i (bit_and src_color 0x00FFFFFF) hi
              ∙ digit-rgb i src_color hi
              ∙ sym meant)
      | inr general ↦ elim (Bool-cases (gc_function == 5)) [
        | inl skipped ↦
            let is_noop = (==_iff gc_function 5).0 skipped in
            let meant : drawn gc_function plane_mask src_color (read_pixel buffer offset) i
                ≡ digit i (read_pixel buffer offset) =
              rw is_noop (drawn-noop i plane_mask src_color (read_pixel buffer offset)) in
            rw (inside, general, skipped, rop_pixel) (sym meant)
        | inr active ↦
            let result =
              apply_rop gc_function (bit_or src_color 0xFF000000) (read_pixel buffer offset)
                (bit_and plane_mask 0x00FFFFFF) in
            let small : IsU32 result =
              apply_rop-IsU32 gc_function (bit_or src_color 0xFF000000) (read_pixel buffer offset)
                (bit_and plane_mask 0x00FFFFFF) ho rgb in
            rw
              (
                inside,
                general,
                active,
                rop_pixel,
                read_pixel-write_pixel buffer offset result small place.fits,
              )
              (drawn-general gc_function i plane_mask src_color (read_pixel buffer offset) hf hs ho
                hi)
      ]
    ]
