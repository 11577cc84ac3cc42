-- ===== src/Drivers/Tty/Screen/Texts.antt =====
-- Texts that are put on the screen.
use mathlib.Core.Path.{subst}
use micron.Base.{
  ℕ, suc, ◌<◌, ◌≡◌, ◌≢◌, sym, refl, true, false, arith, leb, ◌==◌, if◌then◌else◌, u16, u64, List,
  [], ◌∷◌, Bool,
}
use micron.Drivers.Tty.{Tty, put_entry_at, shift, step_back}
use micron.Drivers.Tty.Cursor.{OnScreen, resized, put_char-OnScreen}
use micron.Drivers.Tty.Screen.{
  Surroundings, Screen, render_buffer, draw_entry_at, draw_shift, draw_next_row, draw_next_column,
  draw_char, draw_text,
}
use micron.Drivers.Tty.Screen.Shown.{Fits, Shows, tty-render_entry_at, width-render_entry_at}
use micron.Drivers.Tty.Screen.Drawn.{SameCells-render_lines}
use micron.Drivers.Tty.Screen.Steps.{tty-draw_char, draw_shift-Shows, draw_entry_at-Shows}

-- The sizes of the one screen are those of the other.
abbrev SameShape : Screen → Screen → Type 0
SameShape s s' =
    (s'.tty.vga_width ≡ s.tty.vga_width)
    × (s'.tty.vga_height ≡ s.tty.vga_height)
    × (s'.gfx.framebuffer_width ≡ s.gfx.framebuffer_width)

Fits-SameShape : (s s' : Screen) → SameShape s s' → Fits s → Fits s'
Fits-SameShape s s' same f = record {
  screen = resized s.tty s'.tty (same.0, same.1) f.screen;
  narrow = omega arith;
  low = omega arith;
  columns = omega arith;
  rows = rw same.1 (rw same.2 f.rows);
}

-- The screen fits, and shows the cells.
pub record IsDrawn (env : Surroundings) (s : Screen) : Type 0 where
  pub fits : Fits s
  pub shows : Shows env s

module _ (env : Surroundings) where
  SameShape-draw_entry_at :
      (c color x y : ℕ) (s : Screen) → SameShape s (draw_entry_at env c color x y s)
  unfolding draw_entry_at put_entry_at
  SameShape-draw_entry_at c color x y s = ground (
    arith,
    tty-render_entry_at env (u16 x) (u16 y) (record s { tty = put_entry_at c color x y s.tty }),
    width-render_entry_at env (u16 x) (u16 y) (record s { tty = put_entry_at c color x y s.tty }),
  )

  SameShape-draw_shift : (s : Screen) → SameShape s (draw_shift env s)
  unfolding draw_shift render_buffer shift
  SameShape-draw_shift s =
      ground (arith, SameCells-render_lines env s.tty.vga_height 0 (record s { tty = shift s.tty }))

  IsDrawn-if :
      (b : Bool) (s s' : Screen)
      → IsDrawn env s
      → IsDrawn env s'
      → IsDrawn env (if b then s else s')
  IsDrawn-if true s s' d d' = d
  IsDrawn-if false s s' d d' = d'

  -- The cursor is not drawn.
  moved :
      (s : Screen) (row column : ℕ)
      → IsDrawn env s
      → IsDrawn env (record s { tty = record (s.tty) { row = row; column = column } })
  moved s row column d = record {
    fits =
        Fits-SameShape s (record s { tty = record (s.tty) { row = row; column = column } })
          (refl, refl, refl) d.fits;
    shows = d.shows;
  }

  draw_entry_at-IsDrawn :
      (c color x y : ℕ) (s : Screen)
      → x < s.tty.vga_width
      → y < s.tty.vga_height
      → IsDrawn env s
      → IsDrawn env (draw_entry_at env c color x y s)
  draw_entry_at-IsDrawn c color x y s hx hy d = record {
    fits =
        Fits-SameShape s (draw_entry_at env c color x y s) (SameShape-draw_entry_at c color x y s)
          d.fits;
    shows = draw_entry_at-Shows env c color x y s d.fits hx hy d.shows;
  }

  draw_shift-IsDrawn : (s : Screen) → Fits s → IsDrawn env (draw_shift env s)
  draw_shift-IsDrawn s f = record {
    fits = Fits-SameShape s (draw_shift env s) (SameShape-draw_shift s) f;
    shows =
        draw_shift-Shows env s (
          Fits-SameShape s (record s { tty = shift s.tty }) (unfold shift in (refl, refl, refl)) f);
  }

  draw_next_row-IsDrawn : (s : Screen) → IsDrawn env s → IsDrawn env (draw_next_row env s)
  unfolding draw_next_row
  draw_next_row-IsDrawn s d =
      IsDrawn-if (leb s.tty.vga_height (u64 (suc s.tty.row))) _ _ (draw_shift-IsDrawn _ down.fits)
        down
    where
      down : IsDrawn env (record s { tty = record (s.tty) { row = u64 (suc s.tty.row) } })
      down = moved s (u64 (suc s.tty.row)) s.tty.column d

  draw_next_column-IsDrawn : (s : Screen) → IsDrawn env s → IsDrawn env (draw_next_column env s)
  unfolding draw_next_column
  draw_next_column-IsDrawn s d =
      IsDrawn-if (leb s.tty.vga_width (u64 (suc s.tty.column))) _ _
        (draw_next_row-IsDrawn _ (moved s s.tty.row 0 d))
        (moved s s.tty.row (u64 (suc s.tty.column)) d)

  step_back-cursor :
      (t : Tty) → step_back t ≡ record t { row = (step_back t).row; column = (step_back t).column }
  unfolding step_back
  step_back-cursor t = ground arith

  step_back-inside :
      (t : Tty)
      → OnScreen t
      → ((step_back t).column < (step_back t).vga_width)
        × ((step_back t).row < (step_back t).vga_height)
  unfolding step_back
  step_back-inside t on = ground arith

  stepped : (s : Screen) → IsDrawn env s → IsDrawn env (record s { tty = step_back s.tty })
  stepped s d =
      subst (λ (t : Tty). IsDrawn env (record s { tty = t })) (sym (step_back-cursor s.tty))
        (moved s (step_back s.tty).row (step_back s.tty).column d)

  draw_char-IsDrawn :
      (c color : ℕ) (s : Screen)
      → OnScreen s.tty
      → IsDrawn env s
      → IsDrawn env (draw_char env c color s)
  unfolding draw_char
  draw_char-IsDrawn c color s on d = IsDrawn-if (c == 0) _ _ d (
      IsDrawn-if (c == 9) _ _ (moved s s.tty.row _ d) (
        IsDrawn-if (c == 8) _ _
          (draw_entry_at-IsDrawn 32 0 _ _ _ (step_back-inside s.tty on).0
            (step_back-inside s.tty on).1 (stepped s d))
          (IsDrawn-if (c == 10) _ _
            (moved _ _ 0 (draw_next_row-IsDrawn _ (draw_next_column-IsDrawn s d)))
            (draw_next_column-IsDrawn _ (
              draw_entry_at-IsDrawn c color s.tty.column s.tty.row s on.column_below on.row_below
                d)))))

abbrev pub NoTab : List ℕ → Type 0
NoTab [] = Unit
NoTab (c ∷ cs) = (c ≢ 9) × NoTab cs

-- A text with no tab that is put on a screen with the cursor on it, whose frame has room for its
-- cells and shows them, leaves the cursor on the screen and the frame showing the cells, through
-- new lines, backspaces and scrolling.
pub draw_text-IsDrawn :
    (env : Surroundings) (color : ℕ) (cs : List ℕ) (s : Screen)
    → NoTab cs
    → OnScreen s.tty
    → IsDrawn env s
    → OnScreen (draw_text env color cs s).tty × IsDrawn env (draw_text env color cs s)
unfolding draw_text
draw_text-IsDrawn env color [] s no_tab on d = (on, d)
draw_text-IsDrawn env color (c ∷ cs) s (ne, no_tab) on d =
    draw_text-IsDrawn env color cs (draw_char env c color s) no_tab
      (rw (tty-draw_char env c color s) (put_char-OnScreen c color s.tty ne on))
      (draw_char-IsDrawn env c color s on d)
