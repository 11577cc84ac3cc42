-- ===== src/Drivers/Gfx.antt =====
-- kernel/src/drivers/gfx/gop/gop.cpp and gop.h: the frame buffer, its copy, and the font.
pub mod Font
pub mod Pixels
pub mod Rect
use Font.{kernel_font}
use micron.Base.{
  ℕ, zero, suc, ◌+◌, ◌-◌, ◌*◌, ◌/◌, ◌%◌, ◌^◌, Bool, true, false, ◌&&◌, List, get_or, ltb, leb,
  if◌then◌else◌, u32, ◌>>>◌, update,
}

-- `gop` and `buffer`: pixels are words of 32 bits, counted from `framebuffer_addr` and from `buffer`.
-- The two do not overlap.
pub record Gfx : Type 0 where
  pub framebuffer_width : ℕ
  pub framebuffer_height : ℕ
  pub framebuffer : ℕ → ℕ
  pub buffer : ℕ → ℕ

-- `plot_pixel`, and `plot_pixel_buffer`, which writes to the same place.
unfoldable pub plot_pixel : (x y pixel : ℕ) → Gfx → Gfx
plot_pixel x y pixel g = record g {
  framebuffer = update g.framebuffer (u32 (g.framebuffer_width * y + x)) pixel;
}

-- A char is signed: from 128 on the index is negative, and `before` is what stands before the table.
unfoldable pub get_character_font : (before : ℕ → ℕ) (c : ℕ) → ℕ
get_character_font before c = if ltb c 128 then get_or kernel_font c 0 else before (256 - c)

-- `framebuffer_width * framebuffer_height * 4`, as the `uint64` size of a copy: the product of two
-- `uint16` is an `int`, which is taken to wrap around and is widened with its sign.
unfoldable pub frame_bytes : Gfx → ℕ
frame_bytes g =
    let product = g.framebuffer_width * g.framebuffer_height * 4 % 2 ^ 32 in
    if ltb product (2 ^ 31) then product else product + 2 ^ 64 - 2 ^ 32

-- `memcpy` of `n` pixels.
abbrev pub copied : (n : ℕ) → (from to : ℕ → ℕ) → ℕ → ℕ
copied n from to i = if ltb i n then from i else to i

unfoldable pub buff : Gfx → Gfx
buff g = record g { framebuffer = copied (frame_bytes g / 4) g.buffer g.framebuffer }

unfoldable pub save_screen : Gfx → Gfx
save_screen g = record g { buffer = copied (frame_bytes g / 4) g.framebuffer g.buffer }

unfoldable pub restore_screen : Gfx → Gfx
restore_screen g = record g { framebuffer = copied (frame_bytes g / 4) g.buffer g.framebuffer }

abbrev pub sub32 : ℕ → ℕ → ℕ
sub32 a b = (a + 2 ^ 32 - b) % 2 ^ 32

-- A coordinate of the middle between two points.
unfoldable pub rect_center : ℕ → ℕ → ℕ
rect_center a b = u32 (a + b) / 2

-- The inner loop of `rect`, with `left` rows before the frame's lower edge.
unfoldable pub rect_rows : (left xx yy last color : ℕ) → Gfx → Gfx
rect_rows zero xx yy last color g = g
rect_rows (suc left) xx yy last color g =
    if leb yy last && ltb yy g.framebuffer_height
    then rect_rows left xx (suc yy) last color (plot_pixel xx yy color g)
    else g

-- The outer loop, with `left` columns before the right edge; `top` and `bottom` bound the inner one.
unfoldable pub rect_columns : (left xx last top bottom color : ℕ) → Gfx → Gfx
rect_columns zero xx last top bottom color g = g
rect_columns (suc left) xx last top bottom color g =
    if leb xx last && ltb xx g.framebuffer_width
    then rect_columns left (suc xx) last top bottom color
        (rect_rows (g.framebuffer_height - top) xx top bottom color g)
    else g

-- The center of the rectangle in the frame; the coordinates are `uint32`.
unfoldable pub rect_absolute : (pos dim : ℕ) → ℕ
rect_absolute pos dim = u32 (sub32 pos (rect_center 0 dim) + rect_center 0 dim)

unfoldable pub rect : (x y w h color : ℕ) → Gfx → Gfx
rect x y w h color g =
    let left = sub32 (rect_absolute x w) (w / 2) in
    let right = u32 (rect_absolute x w + w / 2) in
    let top = sub32 (rect_absolute y h) (h / 2) in
    let bottom = u32 (rect_absolute y h + h / 2) in
    buff (rect_columns (g.framebuffer_width - left) left right top bottom color g)
