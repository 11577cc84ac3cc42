-- ===== src/Drivers/Tty/Screen/Cells.antt =====
-- What the drawing of one cell does to the pixels of the frame.
use micron.Base.{
  ℕ, zero, suc, ◌+◌, ◌-◌, ◌*◌, ◌^◌, ◌≤◌, ◌≡◌, ◌∙◌, refl, arith, ◌&&◌, ltb, leb, ◌==◌, if◌then◌else◌,
  update,
}
use micron.Drivers.Gfx.{Gfx, plot_pixel}
use micron.Drivers.Gfx.Pixels.{Inside, pixel_at, pixel_at-plot_pixel}
use micron.Drivers.Tty.Screen.{Surroundings, get_bit, fill_bits, render_row, render_rows}

-- The row lies in the frame.
abbrev pub RowInside : Gfx → ℕ → Type 0
RowInside g y = g.framebuffer_width * y + g.framebuffer_width ≤ 2 ^ 32

width-render_row :
    (left x xx y yy : ℕ) (color : ℕ → ℕ) (g : Gfx)
    → (render_row 1 left x xx y yy color g).framebuffer_width ≡ g.framebuffer_width
unfolding render_row plot_pixel
width-render_row zero x xx y yy color g = refl
width-render_row (suc left) x xx y yy color g =
    width-render_row left (suc x) (xx + 1) y yy color (plot_pixel xx yy (color (8 * y + x)) g)

pixel_at-render_row :
    (left x xx y yy : ℕ) (color : ℕ → ℕ) (g : Gfx) (a b : ℕ)
    → xx + left ≤ g.framebuffer_width
    → RowInside g yy
    → Inside g a b
    → pixel_at (render_row 1 left x xx y yy color g) a b ≡ (
        if (yy == b) && (leb xx a && ltb a (xx + left))
        then color (8 * y + (x + (a - xx)))
        else pixel_at g a b)
unfolding render_row
pixel_at-render_row zero x xx y yy color g a b fits row i = ground arith
pixel_at-render_row (suc left) x xx y yy color g a b fits row i =
    pixel_at-render_row left (suc x) (xx + 1) y yy color (plot_pixel xx yy (color (8 * y + x)) g) a
      b (unfold plot_pixel in omega arith) (unfold plot_pixel in row)
      (unfold plot_pixel in record { column = i.column; index = i.index })
    ∙ ground (
      arith,
      pixel_at-plot_pixel xx yy a b (color (8 * y + x)) g
          (record { column = omega arith; index = row }) i,
    )

pub width-render_rows :
    (left y yy xpos : ℕ) (color : ℕ → ℕ) (g : Gfx)
    → (render_rows 1 left y yy xpos color g).framebuffer_width ≡ g.framebuffer_width
unfolding render_rows
width-render_rows zero y yy xpos color g = refl
width-render_rows (suc left) y yy xpos color g =
    width-render_rows left (suc y) (yy + 1) xpos color (render_row 1 8 0 (xpos * 8) y yy color g)
    ∙ width-render_row 8 0 (xpos * 8) y yy color g

rows_fit :
    (w y left : ℕ)
    → w * (y + suc left) ≤ 2 ^ 32
    → (w * y + w ≤ 2 ^ 32) × (w * (y + 1 + left) ≤ 2 ^ 32)
rows_fit w y left h = grind arith

-- The rows of a cell from `y` on, at the frame's rows from `yy` on.
pub pixel_at-render_rows :
    (left y yy xpos : ℕ) (color : ℕ → ℕ) (g : Gfx) (a b : ℕ)
    → xpos * 8 + 8 ≤ g.framebuffer_width
    → g.framebuffer_width * (yy + left) ≤ 2 ^ 32
    → Inside g a b
    → pixel_at (render_rows 1 left y yy xpos color g) a b ≡ (
        if (leb yy b && ltb b (yy + left)) && (leb (xpos * 8) a && ltb a (xpos * 8 + 8))
        then color (8 * (y + (b - yy)) + (a - xpos * 8))
        else pixel_at g a b)
unfolding render_rows
pixel_at-render_rows zero y yy xpos color g a b fits rows i = ground arith
pixel_at-render_rows (suc left) y yy xpos color g a b fits rows i =
    pixel_at-render_rows left (suc y) (yy + 1) xpos color drawn a b (omega (arith, wide))
      (rw wide (rows_fit g.framebuffer_width yy left rows).1)
      (record { column = omega (arith, wide); index = rw wide i.index })
    ∙ ground (
      arith,
      pixel_at-render_row 8 0 (xpos * 8) y yy color g a b fits
          (rows_fit g.framebuffer_width yy left rows).0 i,
    )
  where
    drawn : Gfx
    drawn = render_row 1 8 0 (xpos * 8) y yy color g

    wide : drawn.framebuffer_width ≡ g.framebuffer_width
    wide = width-render_row 8 0 (xpos * 8) y yy color g

-- The bits of the font, in the order in which they are drawn.
pub fill_bits-get_bit :
    (env : Surroundings) (n i font k : ℕ) (bits : ℕ → ℕ)
    → fill_bits env n (suc i) font bits k
      ≡ (if leb i k && ltb k (i + n) then get_bit env font (suc k) else bits k)
unfolding fill_bits
fill_bits-get_bit env zero i font k bits = ground arith
fill_bits-get_bit env (suc n) i font k bits =
    fill_bits-get_bit env n (suc i) font k (update bits (suc i - 1) (get_bit env font (suc i)))
    ∙ ground arith
