-- ===== src/Renderer/Pixels.antt =====
-- One pixel of the software renderer: src/display/renderer.rs, `rop_pixel`.
use native.Mathlib.Nat.{suc-mul, mul-le-mul_right}
use psl_xserver.Prelude.{
  Bool-cases, List, Option-cases, ap, arith, both_hold, inl, inr, leb, leb→le, length, ltb, ltb→lt,
  none, refl, some, sym, unwrap_or, ℕ, ◌&&◌, ◌*◌, ◌+◌, ◌<◌, ◌==◌, ◌∙◌, ◌≡◌, ◌≢◌, ◌≤◌, ◌⊎◌,
}
use psl_xserver.Prelude.Int.{negsuc, pos, ℤ}
use psl_xserver.Renderer.{Canvas, pixel_offset, read_pixel, rop_pixel, write_pixel}
use psl_xserver.Wire.{IsU32, little_endian, u32_bytes}
use psl_xserver.Wire.Buffers.{length-store, store-inside, store-outside}

pub read_pixel-write_pixel :
    (buffer : List ℕ) (offset pixel : ℕ)
    → IsU32 pixel
    → offset + 4 ≤ length buffer
    → read_pixel (write_pixel buffer offset pixel) offset ≡ pixel
unfolding read_pixel write_pixel u32_bytes
read_pixel-write_pixel buffer offset pixel small fits =
    let bytes = u32_bytes little_endian pixel in
    rw
      (
        store-inside buffer offset bytes 0 offset 0 (omega arith) (omega arith) fits,
        store-inside buffer offset bytes 1 (offset + 1) 0 refl (omega arith) fits,
        store-inside buffer offset bytes 2 (offset + 2) 0 refl (omega arith) fits,
        store-inside buffer offset bytes 3 (offset + 3) 0 refl (omega arith) fits,
      )
      (omega arith)

-- Two pixels do not overlap.
abbrev Apart : ℕ → ℕ → Type 0
Apart a b = (a + 4 ≤ b) ⊎ (b + 4 ≤ a)

read_pixel-elsewhere :
    (buffer : List ℕ) (offset other pixel : ℕ)
    → Apart offset other
    → read_pixel (write_pixel buffer offset pixel) other ≡ read_pixel buffer other
unfolding read_pixel write_pixel u32_bytes
read_pixel-elsewhere buffer offset other pixel apart =
    let bytes = u32_bytes little_endian pixel in
    rw
      (
        store-outside buffer offset bytes other 0 (omega arith),
        store-outside buffer offset bytes (other + 1) 0 (omega arith),
        store-outside buffer offset bytes (other + 2) 0 (omega arith),
        store-outside buffer offset bytes (other + 3) 0 (omega arith),
      )
      refl

length-write_pixel :
    (buffer : List ℕ) (offset pixel : ℕ) → length (write_pixel buffer offset pixel) ≡ length buffer
unfolding write_pixel
length-write_pixel buffer offset pixel = length-store buffer offset (u32_bytes little_endian pixel)

-- What is known of a place that has an offset.
pub record Inside (c : Canvas) (buffer : List ℕ) (px py : ℤ) (offset : ℕ) : Type 0 where
  pub column : ℕ
  pub line : ℕ
  pub px_column : px ≡ pos column
  pub py_line : py ≡ pos line
  pub in_width : column < c.buf_w
  pub offset_is : offset ≡ line * c.stride + column * 4
  pub fits : offset + 4 ≤ length buffer

pub pixel_offset-Inside :
    (c : Canvas) (buffer : List ℕ) (px py : ℤ) (offset : ℕ)
    → pixel_offset c buffer px py ≡ some offset
    → Inside c buffer px py offset
unfolding pixel_offset
pixel_offset-Inside c buffer (pos x) (pos y) offset found =
    elim (Bool-cases
      (ltb x c.buf_w && ltb y c.buf_h && leb (y * c.stride + x * 4 + 4) (length buffer))) [
        | inl inside ↦
            let is : some (y * c.stride + x * 4) ≡ some offset =
              rw (inside, pixel_offset) at found in
            let same : y * c.stride + x * 4 ≡ offset = ap (unwrap_or 0) is in
            let outer =
              both_hold (ltb x c.buf_w && ltb y c.buf_h)
                (leb (y * c.stride + x * 4 + 4) (length buffer)) inside in
            let inner = both_hold (ltb x c.buf_w) (ltb y c.buf_h) outer.0 in
            record {
              column = x;
              line = y;
              px_column = refl;
              py_line = refl;
              in_width = ltb→lt x c.buf_w inner.0;
              offset_is = sym same;
              fits = omega (arith, same, leb→le (y * c.stride + x * 4 + 4) (length buffer) outer.1);
            }
        | inr outside ↦ absurd (none_ne_some offset (rw (outside, pixel_offset) at found))
      ]
  where
    none_ne_some : (n : ℕ) → none ≡ some n → ⊥
    none_ne_some n e = cc
pixel_offset-Inside c buffer (pos x) (negsuc y) offset found = absurd (cc found)
pixel_offset-Inside c buffer (negsuc x) py offset found = absurd (cc found)

lines_apart :
    (stride w y1 y2 x1 x2 : ℕ)
    → w * 4 ≤ stride
    → y1 < y2
    → x1 < w
    → y1 * stride + x1 * 4 + 4 ≤ y2 * stride + x2 * 4
lines_apart stride w y1 y2 x1 x2 rows before inside =
    omega (arith, suc-mul y1 stride, mul-le-mul_right stride before)

pixels-Apart :
    (c : Canvas) (buffer : List ℕ) (px py qx qy : ℤ) (a b : ℕ)
    → c.buf_w * 4 ≤ c.stride
    → Inside c buffer px py a
    → Inside c buffer qx qy b
    → (px ≢ qx) ⊎ (py ≢ qy)
    → Apart a b
pixels-Apart c buffer px py qx qy a b rows p q distinct = elim (Bool-cases (ltb p.line q.line)) [
  | inl above ↦
      let before =
        lines_apart c.stride c.buf_w p.line q.line p.column q.column rows (ltb→lt _ _ above)
          p.in_width in
      omega (arith, p.offset_is, q.offset_is, before)
  | inr not_above ↦ elim (Bool-cases (ltb q.line p.line)) [
    | inl below ↦
        let before =
          lines_apart c.stride c.buf_w q.line p.line q.column p.column rows (ltb→lt _ _ below)
            q.in_width in
        omega (arith, p.offset_is, q.offset_is, before)
    | inr not_below ↦
        let one_line : p.line ≡ q.line = ground arith in
        let columns : p.column ≢ q.column = λ e. other_columns e one_line distinct in
        omega (arith, p.offset_is, q.offset_is, ap (λ (n : ℕ). n * c.stride) one_line, columns)
  ]
]
  where
    other_columns : p.column ≡ q.column → p.line ≡ q.line → (px ≢ qx) ⊎ (py ≢ qy) → ⊥
    other_columns e l (inl d) = d (p.px_column ∙ ap pos e ∙ sym q.px_column)
    other_columns e l (inr d) = d (p.py_line ∙ ap pos l ∙ sym q.py_line)

-- Drawing a pixel leaves the buffer's length and every other pixel alone, when the lines of the
-- picture do not overlap.
pub rop_pixel-frame :
    (c : Canvas) (buffer : List ℕ) (px py qx qy : ℤ) (src_color gc_function plane_mask other : ℕ)
    → c.buf_w * 4 ≤ c.stride
    → pixel_offset c buffer qx qy ≡ some other
    → (px ≢ qx) ⊎ (py ≢ qy)
    → (length (rop_pixel c buffer px py src_color gc_function plane_mask) ≡ length buffer)
      × (read_pixel (rop_pixel c buffer px py src_color gc_function plane_mask) other
          ≡ read_pixel buffer other)
unfolding rop_pixel
rop_pixel-frame c buffer px py qx qy src_color gc_function plane_mask other rows found distinct =
    elim (Option-cases (pixel_offset c buffer px py)) [
      | inl outside ↦ rw (outside, rop_pixel) (refl, refl)
      | inr (offset, inside) ↦
          let apart =
            pixels-Apart c buffer px py qx qy offset other rows
              (pixel_offset-Inside c buffer px py offset inside)
              (pixel_offset-Inside c buffer qx qy other found) distinct in
          elim (Bool-cases (gc_function == 3 && plane_mask == 0xFFFFFFFF)) [
            | inl plain ↦ rw (inside, plain, rop_pixel) (keeps offset apart _)
            | inr general ↦ elim (Bool-cases (gc_function == 5)) [
              | inl skipped ↦ rw (inside, general, skipped, rop_pixel) (refl, refl)
              | inr active ↦ rw (inside, general, active, rop_pixel) (keeps offset apart _)
            ]
          ]
    ]
  where
    keeps :
        (offset : ℕ)
        → Apart offset other
        → (pixel : ℕ)
        → (length (write_pixel buffer offset pixel) ≡ length buffer)
          × (read_pixel (write_pixel buffer offset pixel) other ≡ read_pixel buffer other)
    keeps offset apart pixel = (
      length-write_pixel buffer offset pixel,
      read_pixel-elsewhere buffer offset other pixel apart,
    )

pub length-rop_pixel :
    (c : Canvas) (buffer : List ℕ) (px py : ℤ) (color gc_function plane_mask : ℕ)
    → length (rop_pixel c buffer px py color gc_function plane_mask) ≡ length buffer
unfolding rop_pixel
length-rop_pixel c buffer px py color gc_function plane_mask =
    elim (Option-cases (pixel_offset c buffer px py)) [
      | inl outside ↦ rw (outside, rop_pixel) refl
      | inr (offset, inside) ↦ elim (Bool-cases (gc_function == 3 && plane_mask == 0xFFFFFFFF)) [
        | inl plain ↦ rw (inside, plain, rop_pixel) (length-write_pixel buffer offset _)
        | inr general ↦ elim (Bool-cases (gc_function == 5)) [
          | inl skipped ↦ rw (inside, general, skipped, rop_pixel) refl
          | inr active ↦
              rw (inside, general, active, rop_pixel) (length-write_pixel buffer offset _)
        ]
      ]
    ]

-- The noop operation draws nothing.
pub rop_pixel-noop :
    (c : Canvas) (buffer : List ℕ) (px py : ℤ) (color plane_mask : ℕ)
    → rop_pixel c buffer px py color 5 plane_mask ≡ buffer
unfolding rop_pixel
rop_pixel-noop c buffer px py color plane_mask = elim (Option-cases (pixel_offset c buffer px py)) [
  | inl outside ↦ rw (outside, rop_pixel) refl
  | inr (offset, inside) ↦ rw (inside, rop_pixel) refl
]
