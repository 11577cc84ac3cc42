-- ===== src/Drivers/Gfx/Pixels.antt =====
-- Pixels by their coordinates.
use native.Mathlib.Nat.{mul-le-mul_left}
use micron.Base.{
  ℕ, suc, ◌+◌, ◌*◌, ◌^◌, ◌≤◌, ◌<◌, ◌≡◌, ◌≢◌, arith, ◌⊎◌, inl, inr, ◌&&◌, ◌==◌, if◌then◌else◌, u32,
}
use micron.Drivers.Gfx.{Gfx, plot_pixel}

unfoldable pub pixel_at : Gfx → (x y : ℕ) → ℕ
pixel_at g x y = g.framebuffer (u32 (g.framebuffer_width * y + x))

-- The coordinates lie in the frame, and their index is a `uint32`.
pub record Inside (g : Gfx) (x y : ℕ) : Type 0 where
  pub column : x < g.framebuffer_width
  pub index : g.framebuffer_width * y + g.framebuffer_width ≤ 2 ^ 32

-- Two indices are equal where both coordinates are.
index_apart : (w x y px py : ℕ) → x < w → px < w → y < py → w * y + x ≢ w * py + px
index_apart w x y px py hx hp less = λ e. omega (arith, mul-le-mul_left w less, mul_suc w y)
  where
    mul_suc : (w y : ℕ) → w * suc y ≡ w * y + w
    mul_suc w y = omega arith

small_index : (w x y : ℕ) → x < w → w * y + w ≤ 2 ^ 32 → u32 (w * y + x) ≡ w * y + x
small_index w x y h k = omega arith

-- A pixel that is plotted is seen at its coordinates, and no other pixel of the frame changes.
pub pixel_at-plot_pixel :
    (x y px py pixel : ℕ) (g : Gfx)
    → Inside g x y
    → Inside g px py
    → pixel_at (plot_pixel x y pixel g) px py
      ≡ (if (x == px) && (y == py) then pixel else pixel_at g px py)
unfolding pixel_at plot_pixel
pixel_at-plot_pixel x y px py pixel g i j = elim (order y py) [
  | inl less ↦ ground (
    arith,
    small_index w x y i.column i.index,
    small_index w px py j.column j.index,
    index_apart w x y px py i.column j.column less,
  )
  | inr (inl same) ↦ rw same (
      ground (
        arith,
        small_index w x py i.column (rw same at i.index),
        small_index w px py j.column j.index,
      ))
  | inr (inr more) ↦ ground (
    arith,
    small_index w x y i.column i.index,
    small_index w px py j.column j.index,
    index_apart w px py x y j.column i.column more,
  )
]
  where
    w : ℕ
    w = g.framebuffer_width

    order : (a b : ℕ) → (a < b) ⊎ ((a ≡ b) ⊎ (b < a))
    order a b = omega arith
