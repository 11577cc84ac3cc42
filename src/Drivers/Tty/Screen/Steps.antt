-- ===== src/Drivers/Tty/Screen/Steps.antt =====
-- A cell that is drawn, and the screen that is drawn whole.
use native.Mathlib.Nat.{mul-le-mul_right}
use mathlib.Core.Path.{subst}
use micron.Base.{
  ℕ, suc, ◌+◌, ◌*◌, ◌^◌, ◌<◌, ◌≡◌, ◌∙◌, sym, refl, ap, ap₂, false, arith, ltb, u8, u16, u64, ◌⊎◌,
  inl, inr, update,
}
use micron.Drivers.Tty.{put_entry_at, put_char, shift, vga_entry, next_row, next_column, step_back}
use micron.Drivers.Tty.Cursor.{resized}
use micron.Drivers.Tty.Screen.{
  Surroundings, Screen, render_entry_at, render_buffer, render_lines, draw_entry_at, draw_shift,
  draw_next_row, draw_next_column, draw_char,
}
use micron.Drivers.Tty.Screen.Shown.{
  shade, Fits, entry_of, cell_pixel, Shows, cell_pixel-render_entry_at,
}
use micron.Drivers.Tty.Screen.Drawn.{SameCells, SameCells-render_lines, cell_pixel-render_lines}

index_below : (w x y y' : ℕ) → x < w → y < y' → y * w + x < y' * w
index_below w x y y' h less = omega (arith, mul-le-mul_right w less)

cells_apart : (w x y x' y' : ℕ) → x < w → x' < w → y * w + x ≡ y' * w + x' → (x ≡ x') × (y ≡ y')
cells_apart w x y x' y' h h' e = elim (order y y') [
  | inl less ↦ absurd (omega (arith, index_below w x y y' h less))
  | inr (inl same) ↦ (omega (arith, ap (λ (k : ℕ). k * w) same), same)
  | inr (inr more) ↦ absurd (omega (arith, index_below w x' y' y h' more))
]
  where
    order : (a b : ℕ) → (a < b) ⊎ ((a ≡ b) ⊎ (b < a))
    order a b = omega arith

module _ (env : Surroundings) where
  pub tty-draw_entry_at :
      (c color x y : ℕ) (s : Screen)
      → (draw_entry_at env c color x y s).tty ≡ put_entry_at c color x y s.tty
  unfolding draw_entry_at put_entry_at render_entry_at
  tty-draw_entry_at c color x y s = ground arith

  pub tty-draw_shift : (s : Screen) → (draw_shift env s).tty ≡ shift s.tty
  unfolding draw_shift render_buffer
  tty-draw_shift s =
      (SameCells-render_lines env (shift s.tty).vga_height 0 (record s { tty = shift s.tty })).0

  tty-draw_next_row : (s : Screen) → (draw_next_row env s).tty ≡ next_row s.tty
  unfolding draw_next_row next_row
  tty-draw_next_row s =
      ground
        (arith, tty-draw_shift (record s { tty = record (s.tty) { row = u64 (suc s.tty.row) } }))

  tty-draw_next_column : (s : Screen) → (draw_next_column env s).tty ≡ next_column s.tty
  unfolding draw_next_column next_column
  tty-draw_next_column s =
      ground (arith, tty-draw_next_row (record s { tty = record (s.tty) { column = 0 } }))

  -- The terminal that draws is the one that only keeps its cells, with a frame beside it.
  pub tty-draw_char :
      (c color : ℕ) (s : Screen) → (draw_char env c color s).tty ≡ put_char c color s.tty
  unfolding draw_char put_char
  tty-draw_char c color s = ground (
    arith,
    tty-draw_entry_at 32 0 (step_back s.tty).column (step_back s.tty).row
        (record s { tty = step_back s.tty }),
    tty-draw_next_column s,
    tty-draw_next_row (draw_next_column env s),
    tty-draw_entry_at c color s.tty.column s.tty.row s,
    tty-draw_next_column (draw_entry_at env c color s.tty.column s.tty.row s),
  )

  render_buffer-Shows : (s : Screen) → Fits s → Shows env (render_buffer env s)
  unfolding render_buffer
  render_buffer-Shows s f x y px py hx hy hpx hpy = rw same.0 (
      cell_pixel-render_lines env s.tty.vga_height 0 s x y px py f (omega arith) hx' hy' hpx hpy
      ∙ ground (arith, hy'))
    where
      same : SameCells s (render_lines env s.tty.vga_height 0 s)
      same = SameCells-render_lines env s.tty.vga_height 0 s

      hx' : x < s.tty.vga_width
      hx' = rw same.0 at hx

      hy' : y < s.tty.vga_height
      hy' = rw same.0 at hy

  pub draw_shift-Shows :
      (s : Screen) → Fits (record s { tty = shift s.tty }) → Shows env (draw_shift env s)
  unfolding draw_shift
  draw_shift-Shows s f = render_buffer-Shows (record s { tty = shift s.tty }) f

  -- `s` with a cell stored, and not drawn.
  with_cell : (c color x y : ℕ) → Screen → Screen
  with_cell c color x y s = record s {
    tty = record (s.tty) {
      text_buffer = update s.tty.text_buffer (y * s.tty.vga_width + x) (vga_entry (u8 c) color);
    };
  }

  draw_entry_at-inside :
      (c color x y : ℕ) (s : Screen)
      → Fits s
      → x < s.tty.vga_width
      → y < s.tty.vga_height
      → draw_entry_at env c color x y s ≡ render_entry_at env x y (with_cell c color x y s)
  unfolding draw_entry_at with_cell put_entry_at
  draw_entry_at-inside c color x y s f hx hy = rw (inside x s.tty.vga_width hx) (
      rw (inside y s.tty.vga_height hy) (
        ap₂ (λ (a b : ℕ). render_entry_at env a b (with_cell c color x y s))
          (word x s.tty.vga_width hx f.narrow) (word y s.tty.vga_height hy f.low)))
    where
      inside : (a b : ℕ) → a < b → ltb b a ≡ false
      inside a b h = ground arith

      word : (a b : ℕ) → a < b → b < 2 ^ 16 → u16 a ≡ a
      word a b h k = omega arith

  pub draw_entry_at-Shows :
      (c color x y : ℕ) (s : Screen)
      → Fits s
      → x < s.tty.vga_width
      → y < s.tty.vga_height
      → Shows env s
      → Shows env (draw_entry_at env c color x y s)
  draw_entry_at-Shows c color x y s f hx hy shows =
      subst (Shows env) (sym (draw_entry_at-inside c color x y s f hx hy))
        (unfold render_entry_at with_cell in drawn)
    where
      t : Screen
      t = with_cell c color x y s

      fits : Fits t
      fits =
          unfold with_cell in
          record {
            screen = resized s.tty (with_cell c color x y s).tty (refl, refl) f.screen;
            narrow = f.narrow;
            low = f.low;
            columns = f.columns;
            rows = f.rows;
          }

      drawn :
          (x' y' px py : ℕ)
          → x' < s.tty.vga_width
          → y' < s.tty.vga_height
          → px < 8
          → py < 8
          → cell_pixel (render_entry_at env x y t) x' y' px py
            ≡ shade env (entry_of t.tty x' y') px py
      drawn x' y' px py hx' hy' hpx hpy =
          unfold with_cell in
          (cell_pixel-render_entry_at env t x y x' y' px py fits hx hy hx' hy' hpx hpy
            ∙ ground (
              arith,
              shows x' y' px py hx' hy' hpx hpy,
              cells_apart s.tty.vga_width x y x' y' hx hx',
            ))
