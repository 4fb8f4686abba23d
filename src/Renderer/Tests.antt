-- ===== src/Renderer/Tests.antt =====
-- The renderer at concrete pixels.
-- Three lines of three pixels, and nine black pixels.
use psl_xserver.Prelude.{
  List, [], ap, arith, if◌then◌else◌, inl, leb, length, map, refl, replicate, some, unwrap_or, ℕ,
  ◌==◌, ◌∷◌, ◌≡◌, ◌≢◌,
}
use psl_xserver.Prelude.Digits.{digit}
use psl_xserver.Prelude.Int.{negsuc, pos, pos_part, ◌+ℤ◌}
use psl_xserver.Renderer.{Canvas, apply_rop, draw_line, pixel_offset, read_pixel, rop_pixel}
use psl_xserver.Renderer.LineEnds.{EndsAt, draw_line_ends}
use psl_xserver.Renderer.PixelTable.{drawn, rop_pixel-table}
use psl_xserver.Renderer.Pixels.{rop_pixel-frame}
use psl_xserver.Renderer.RasterOps.{apply_rop-table, table_entry}

abbrev small_canvas : Canvas
small_canvas = record { buf_w = 3; buf_h = 3; stride = 12 }

abbrev black : List ℕ
black = replicate 36 0

-- A line from the corner crosses the middle.
crossing :
    map
      (λ b. read_pixel (unwrap_or [] b) 16)
      (draw_line small_canvas black (pos 0) (pos 0) (pos 2) (pos 2) 0x00123456 3 ∷ [])
    ≡ 0xFF123456 ∷ []
unfolding draw_line ◌+ℤ◌
crossing = refl

xor_digit : digit 4 (apply_rop 6 0x00FF00FF 0x0000FFFF 0x00FFFFFF) ≡ (
    if leb 24 4
    then 1
    else if digit 4 0x00FFFFFF == 1
    then table_entry 6 (digit 4 0x00FF00FF) (digit 4 0x0000FFFF)
    else digit 4 0x0000FFFF)
xor_digit =
    apply_rop-table 6 0x00FF00FF 0x0000FFFF 0x00FFFFFF 4 (omega arith) (omega arith) (omega arith)
      (omega arith) (omega arith)

middle_offset : pixel_offset small_canvas black (pos 1) (pos 1) ≡ some 16
unfolding pixel_offset
middle_offset = refl

rop_pixel-table_example :
    digit 4 (read_pixel (rop_pixel small_canvas black (pos 1) (pos 1) 0x00FF00FF 6 0x0000FFFF) 16)
    ≡ drawn 6 0x0000FFFF 0x00FF00FF (read_pixel black 16) 4
rop_pixel-table_example =
    rop_pixel-table small_canvas black (pos 1) (pos 1) 0x00FF00FF 6 0x0000FFFF 16 4 middle_offset
      (omega arith) (omega arith) (omega arith) (unfold read_pixel in omega arith) (omega arith)

pos_apart : pos 0 ≢ pos 1
pos_apart e = absurd (parts_apart (ap pos_part e))
  where
    parts_apart : ◌≡◌ {A = ℕ} 0 1 → ⊥
    parts_apart h = omega arith

rop_pixel-frame_example :
    (length (rop_pixel small_canvas black (pos 0) (pos 1) 0x00FF00FF 6 0x0000FFFF) ≡ length black)
    × (read_pixel (rop_pixel small_canvas black (pos 0) (pos 1) 0x00FF00FF 6 0x0000FFFF) 16
        ≡ read_pixel black 16)
rop_pixel-frame_example =
    rop_pixel-frame small_canvas black (pos 0) (pos 1) (pos 1) (pos 1) 0x00FF00FF 6 0x0000FFFF 16
      (omega arith) middle_offset (inl pos_apart)

draw_line_ends_example :
    EndsAt small_canvas
      (pos 2)
      (negsuc 0)
      0x00123456
      3
      black
      (draw_line small_canvas black (pos 0) (pos 2) (pos 2) (negsuc 0) 0x00123456 3)
draw_line_ends_example =
    draw_line_ends small_canvas black (pos 0) (pos 2) (pos 2) (negsuc 0) 0x00123456 3
