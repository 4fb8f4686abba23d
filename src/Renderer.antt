-- ===== src/Renderer.antt =====
-- The software renderer: src/display/renderer.rs. A buffer is a list of bytes, four for a pixel; a
-- pixel's number is read in the little-endian order of the machines that the program is built for.
pub mod RasterOps
pub mod Pixels
pub mod PixelTable
pub mod Lines
pub mod LineEnds
mod Tests
use Prim.Native.Nat.{bit_or, bit_xor}
use psl_xserver.Outcome.{err}
use psl_xserver.Prelude.{
  List, Option, [], bit_and, false, get_or, if◌then◌else◌, leb, length, ltb, none, some, suc, true,
  zero, ℕ, ◌&&◌, ◌*◌, ◌+◌, ◌==◌, ◌∷◌,
}
use psl_xserver.Prelude.Bits.{not_u32}
use psl_xserver.Prelude.Int.{
  abs, eqb_ℤ, leb_ℤ, ltb_ℤ, neg_part, negsuc, pos, pos_part, ℤ, ◌*ℤ◌, ◌+ℤ◌, ◌-ℤ◌,
}
use psl_xserver.Wire.{little_endian, store, u32_bytes}

-- The raster operations of a graphics context, in the order of their numbers.
pub rops : ℕ → ℕ → List ℕ
rops src dst =
    0
    ∷ (bit_and src dst)
    ∷ (bit_and src (not_u32 dst))
    ∷ src
    ∷ (bit_and (not_u32 src) dst)
    ∷ dst
    ∷ (bit_xor src dst)
    ∷ (bit_or src dst)
    ∷ (not_u32 (bit_or src dst))
    ∷ (not_u32 (bit_xor src dst))
    ∷ (not_u32 dst)
    ∷ (bit_or src (not_u32 dst))
    ∷ (not_u32 src)
    ∷ (bit_or (not_u32 src) dst)
    ∷ (not_u32 (bit_and src dst))
    ∷ 0xFFFFFFFF
    ∷ []

pub rop : ℕ → ℕ → ℕ → ℕ
unfolding rops
rop gc_function src dst = get_or (rops src dst) gc_function src

pub apply_rop : ℕ → ℕ → ℕ → ℕ → ℕ
unfolding rop
apply_rop gc_function src dst plane_mask =
    bit_or
      (bit_or (bit_and dst (not_u32 plane_mask)) (bit_and (rop gc_function src dst) plane_mask))
      0xFF000000

-- The bytes of the pixel at an offset, and the buffer with others there.
pub read_pixel : List ℕ → ℕ → ℕ
read_pixel buffer offset =
    get_or buffer offset 0
    + 256 * get_or buffer (offset + 1) 0
    + 65536 * get_or buffer (offset + 2) 0
    + 16777216 * get_or buffer (offset + 3) 0

pub write_pixel : List ℕ → ℕ → ℕ → List ℕ
unfolding store u32_bytes
write_pixel buffer offset pixel = store buffer offset (u32_bytes little_endian pixel)

pub record Canvas : Type 0 where
  pub buf_w : ℕ
  pub buf_h : ℕ
  pub stride : ℕ

-- Where the pixel at a place starts, if it lies inside the picture and the buffer.
pub pixel_offset : Canvas → List ℕ → ℤ → ℤ → Option ℕ
pixel_offset c buffer (pos px) (pos py) =
    if ltb px c.buf_w && ltb py c.buf_h && leb (py * c.stride + px * 4 + 4) (length buffer)
    then some (py * c.stride + px * 4)
    else none
pixel_offset c buffer px py = none

pub rop_pixel : Canvas → List ℕ → ℤ → ℤ → ℕ → ℕ → ℕ → List ℕ
unfolding pixel_offset apply_rop write_pixel read_pixel
rop_pixel c buffer px py src_color gc_function plane_mask = elim (pixel_offset c buffer px py) [
  | none ↦ buffer
  | some offset ↦
      if gc_function == 3 && plane_mask == 0xFFFFFFFF
      then write_pixel buffer offset (bit_or (bit_and src_color 0x00FFFFFF) 0xFF000000)
      else if gc_function == 5
      then buffer
      else write_pixel buffer offset (
          apply_rop gc_function (bit_or src_color 0xFF000000) (read_pixel buffer offset)
            (bit_and plane_mask 0x00FFFFFF))
]

-- The four bytes are given in their order in the buffer.
set_pixel : Canvas → List ℕ → ℤ → ℤ → List ℕ → List ℕ
unfolding pixel_offset store
set_pixel c buffer px py pixel = elim (pixel_offset c buffer px py) [
  | some offset ↦ store buffer offset pixel
  | none ↦ buffer
]

-- `DrawLine`: where a line goes, and the place and the error of the loop.
pub record Line : Type 0 where
  pub x2 : ℤ
  pub y2 : ℤ
  pub dx : ℤ
  pub dy : ℤ
  pub sx : ℤ
  pub sy : ℤ

pub record Pen : Type 0 where
  pub x : ℤ
  pub y : ℤ
  pub err : ℤ

pub step_x : Line → ℤ → Pen → Pen
step_x l e2 p = if leb_ℤ l.dy e2 then record p { err = p.err +ℤ l.dy; x = p.x +ℤ l.sx } else p

pub step_y : Line → ℤ → Pen → Pen
step_y l e2 p = if leb_ℤ e2 l.dx then record p { err = p.err +ℤ l.dx; y = p.y +ℤ l.sy } else p

pub line_step : Line → Pen → Pen
unfolding step_x step_y ◌*ℤ◌
line_step l p = let e2 = pos 2 *ℤ p.err in step_y l e2 (step_x l e2 p)

-- `none` is a loop that has run out of fuel.
pub line_loop : ℕ → Canvas → Line → ℕ → ℕ → Pen → List ℕ → Option (List ℕ)
unfolding line_step rop_pixel
line_loop zero c l color gc_function p buffer = none
line_loop (suc fuel) c l color gc_function p buffer =
    let buffer' = rop_pixel c buffer p.x p.y color gc_function 0xFFFFFFFF in
    elim (eqb_ℤ p.x l.x2 && eqb_ℤ p.y l.y2) [
      | true ↦ some buffer'
      | false ↦ line_loop fuel c l color gc_function (line_step l p) buffer'
    ]

pub line_from : ℤ → ℤ → ℤ → ℤ → Line
unfolding abs ◌-ℤ◌
line_from x1 y1 x2 y2 = record {
  x2 = x2;
  y2 = y2;
  dx = abs (x2 -ℤ x1);
  dy = pos 0 -ℤ abs (y2 -ℤ y1);
  sx = if ltb_ℤ x1 x2 then pos 1 else negsuc 0;
  sy = if ltb_ℤ y1 y2 then pos 1 else negsuc 0;
}

pub draw_line : Canvas → List ℕ → ℤ → ℤ → ℤ → ℤ → ℕ → ℕ → Option (List ℕ)
unfolding line_loop line_from
draw_line c buffer x1 y1 x2 y2 color gc_function = elim (gc_function == 5) [
  | true ↦ some buffer
  | false ↦
      let l = line_from x1 y1 x2 y2 in
      line_loop (pos_part l.dx + neg_part l.dy + 1) c l color gc_function
        (record { x = x1; y = y1; err = l.dx +ℤ l.dy }) buffer
]
