-- ===== src/Drivers/Tty/Screen/Drawn.antt =====
-- The frame goes on showing the cells while characters are put.
use micron.Base.{
  ℕ, zero, suc, ◌+◌, ◌≤◌, ◌<◌, ◌≡◌, ◌∙◌, refl, arith, ◌&&◌, ltb, leb, ◌==◌, if◌then◌else◌,
}
use micron.Drivers.Tty.Screen.{Surroundings, Screen, render_entry_at, render_line, render_lines}
use micron.Drivers.Tty.Screen.Shown.{
  shade, Fits, entry_of, cell_pixel, cell_pixel-render_entry_at, width-render_entry_at,
  tty-render_entry_at,
}

-- Only pixels change.
abbrev pub SameCells : Screen → Screen → Type 0
SameCells s s' = (s'.tty ≡ s.tty) × (s'.gfx.framebuffer_width ≡ s.gfx.framebuffer_width)

pub Fits-SameCells : (s s' : Screen) → SameCells s s' → Fits s → Fits s'
Fits-SameCells s s' same f = record {
  screen = rw same.0 f.screen;
  narrow = rw same.0 f.narrow;
  low = rw same.0 f.low;
  columns = rw same.0 (rw same.1 f.columns);
  rows = rw same.0 (rw same.1 f.rows);
}

module _ (env : Surroundings) where
  SameCells-render_entry_at : (x y : ℕ) (s : Screen) → SameCells s (render_entry_at env x y s)
  SameCells-render_entry_at x y s = (tty-render_entry_at env x y s, width-render_entry_at env x y s)

  SameCells-render_line : (left x y : ℕ) (s : Screen) → SameCells s (render_line env left x y s)
  unfolding render_line
  SameCells-render_line zero x y s = (refl, refl)
  SameCells-render_line (suc left) x y s = ground (
    arith,
    SameCells-render_line left (suc x) y (render_entry_at env x y s),
    SameCells-render_entry_at x y s,
  )

  pub SameCells-render_lines : (left y : ℕ) (s : Screen) → SameCells s (render_lines env left y s)
  unfolding render_lines
  SameCells-render_lines zero y s = (refl, refl)
  SameCells-render_lines (suc left) y s = ground (
    arith,
    SameCells-render_lines left (suc y) (render_line env s.tty.vga_width 0 y s),
    SameCells-render_line s.tty.vga_width 0 y s,
  )

  cell_pixel-render_line :
      (left x₀ y₀ : ℕ) (s : Screen) (x y px py : ℕ)
      → Fits s
      → x₀ + left ≤ s.tty.vga_width
      → y₀ < s.tty.vga_height
      → x < s.tty.vga_width
      → y < s.tty.vga_height
      → px < 8
      → py < 8
      → cell_pixel (render_line env left x₀ y₀ s) x y px py ≡ (
          if (y₀ == y) && (leb x₀ x && ltb x (x₀ + left))
          then shade env (entry_of s.tty x y) px py
          else cell_pixel s x y px py)
  unfolding render_line
  cell_pixel-render_line zero x₀ y₀ s x y px py f hx₀ hy₀ hx hy hpx hpy = ground arith
  cell_pixel-render_line (suc left) x₀ y₀ s x y px py f hx₀ hy₀ hx hy hpx hpy =
      cell_pixel-render_line left (suc x₀) y₀ (render_entry_at env x₀ y₀ s) x y px py
        (Fits-SameCells s (render_entry_at env x₀ y₀ s) (SameCells-render_entry_at x₀ y₀ s) f)
        (unfold render_entry_at in omega arith) (unfold render_entry_at in hy₀)
        (unfold render_entry_at in hx) (unfold render_entry_at in hy) hpx hpy
      ∙ ground (
        arith,
        tty-render_entry_at env x₀ y₀ s,
        cell_pixel-render_entry_at env s x₀ y₀ x y px py f (omega arith) hy₀ hx hy hpx hpy,
      )

  pub cell_pixel-render_lines :
      (left y₀ : ℕ) (s : Screen) (x y px py : ℕ)
      → Fits s
      → y₀ + left ≤ s.tty.vga_height
      → x < s.tty.vga_width
      → y < s.tty.vga_height
      → px < 8
      → py < 8
      → cell_pixel (render_lines env left y₀ s) x y px py ≡ (
          if leb y₀ y && ltb y (y₀ + left)
          then shade env (entry_of s.tty x y) px py
          else cell_pixel s x y px py)
  unfolding render_lines
  cell_pixel-render_lines zero y₀ s x y px py f hy₀ hx hy hpx hpy = ground arith
  cell_pixel-render_lines (suc left) y₀ s x y px py f hy₀ hx hy hpx hpy =
      cell_pixel-render_lines left (suc y₀) line x y px py (Fits-SameCells s line same f)
        (rw same.0 (omega arith)) (rw same.0 hx) (rw same.0 hy) hpx hpy
      ∙ ground (
        arith,
        same,
        cell_pixel-render_line s.tty.vga_width 0 y₀ s x y px py f (omega arith) (omega arith) hx hy
            hpx hpy,
      )
    where
      line : Screen
      line = render_line env s.tty.vga_width 0 y₀ s

      same : SameCells s line
      same = SameCells-render_line s.tty.vga_width 0 y₀ s
