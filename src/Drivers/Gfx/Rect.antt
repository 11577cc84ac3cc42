-- ===== src/Drivers/Gfx/Rect.antt =====
-- `rect` ends with a copy of `buffer` over the frame, which hides what it has drawn.
use micron.Base.{ℕ, zero, suc, ◌-◌, ◌*◌, ◌/◌, ◌^◌, ◌<◌, ◌≡◌, refl, arith, ap, ap₂, ◌∙◌}
use micron.Drivers.Gfx.{
  Gfx, frame_bytes, plot_pixel, buff, save_screen, restore_screen, rect_rows, rect_columns, rect,
}

-- The same frame size and the same copy.
abbrev pub SameBuffer : Gfx → Gfx → Type 0
SameBuffer g h =
    (h.framebuffer_width ≡ g.framebuffer_width)
    × (h.framebuffer_height ≡ g.framebuffer_height)
    × (h.buffer ≡ g.buffer)

SameBuffer-rect_rows :
    (left xx yy last color : ℕ) (g : Gfx) → SameBuffer g (rect_rows left xx yy last color g)
unfolding rect_rows plot_pixel
SameBuffer-rect_rows zero xx yy last color g = (refl, refl, refl)
SameBuffer-rect_rows (suc left) xx yy last color g =
    ground (arith, SameBuffer-rect_rows left xx (suc yy) last color (plot_pixel xx yy color g))

SameBuffer-rect_columns :
    (left xx last top bottom color : ℕ) (g : Gfx)
    → SameBuffer g (rect_columns left xx last top bottom color g)
unfolding rect_columns
SameBuffer-rect_columns zero xx last top bottom color g = (refl, refl, refl)
SameBuffer-rect_columns (suc left) xx last top bottom color g = ground (
  arith,
  SameBuffer-rect_rows (g.framebuffer_height - top) xx top bottom color g,
  SameBuffer-rect_columns left (suc xx) last top bottom color
      (rect_rows (g.framebuffer_height - top) xx top bottom color g),
)

pub frame_bytes-small :
    (g : Gfx)
    → g.framebuffer_width * g.framebuffer_height * 4 < 2 ^ 31
    → frame_bytes g / 4 ≡ g.framebuffer_width * g.framebuffer_height
unfolding frame_bytes
frame_bytes-small g h = ground arith

module _ (g r : Gfx) (i : ℕ) (inside : i < g.framebuffer_width * g.framebuffer_height)
    (small : g.framebuffer_width * g.framebuffer_height * 4 < 2 ^ 31)
    (same : SameBuffer (save_screen g) r) where
  same_area :
      r.framebuffer_width * r.framebuffer_height ≡ g.framebuffer_width * g.framebuffer_height
  unfolding save_screen
  same_area = ap₂ (λ (w h : ℕ). w * h) same.0 same.1

  saved : r.buffer i ≡ g.framebuffer i
  unfolding save_screen
  saved = ap (λ (b : ℕ → ℕ). b i) same.2 ∙ ground (arith, frame_bytes-small g small)

  all_pixels : frame_bytes r / 4 ≡ g.framebuffer_width * g.framebuffer_height
  all_pixels = frame_bytes-small r (omega (arith, same_area)) ∙ same_area

  framebuffer-buff : (buff r).framebuffer i ≡ g.framebuffer i
  unfolding buff
  framebuffer-buff = ground (arith, saved, all_pixels)

  framebuffer-restore_screen : (restore_screen (buff r)).framebuffer i ≡ g.framebuffer i
  unfolding buff restore_screen
  framebuffer-restore_screen = ground (arith, saved, all_pixels)

-- On a frame of less than 2 ^ 31 bytes, whatever rectangle is drawn, in whatever color, every pixel of
-- the frame is afterwards the one that `save_screen` has saved: nothing of the rectangle is seen, as
-- if the screen had been restored.
pub rect-save_screen :
    (x y w h color : ℕ) (g : Gfx) (i : ℕ)
    → i < g.framebuffer_width * g.framebuffer_height
    → g.framebuffer_width * g.framebuffer_height * 4 < 2 ^ 31
    → ((rect x y w h color (save_screen g)).framebuffer i ≡ g.framebuffer i)
      × ((restore_screen (rect x y w h color (save_screen g))).framebuffer i ≡ g.framebuffer i)
unfolding rect
rect-save_screen x y w h color g i inside small = (
  framebuffer-buff g _ i inside small (SameBuffer-rect_columns _ _ _ _ _ color (save_screen g)),
  framebuffer-restore_screen g _ i inside small
      (SameBuffer-rect_columns _ _ _ _ _ color (save_screen g)),
)
