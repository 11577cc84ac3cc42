-- ===== src/Tests/Screen.antt =====
-- The screen as it is drawn, on a frame of 64 columns and 64 rows.
use micron.Base.{ℕ, ◌≡◌, arith, List, [], ◌∷◌}
use micron.Drivers.Gfx.{Gfx, save_screen, restore_screen, rect}
use micron.Drivers.Gfx.Rect.{rect-save_screen}
use micron.Drivers.Tty.{Tty, shift}
use micron.Drivers.Tty.Scroll.{IsScreen, shift-rows}
use micron.Drivers.Tty.Cursor.{OnScreen}
use micron.Drivers.Tty.Screen.{Surroundings, Screen, initialize, draw_text}
use micron.Drivers.Tty.Screen.Texts.{IsDrawn, NoTab, draw_text-IsDrawn}
use micron.Drivers.Tty.Screen.Start.{HasRoom, initialize-IsDrawn, draw_text-initialize}
use micron.Tests.Pmm.{state}

abbrev env : Surroundings
env = record { before_font = λ i. 0; wide_shift = λ source. source }

abbrev gfx : Gfx
gfx = record {
  framebuffer = λ i. i;
  buffer = λ i. 0;
  framebuffer_width = 64;
  framebuffer_height = 64;
}

gfx-HasRoom : HasRoom gfx
gfx-HasRoom = record {
  wide = omega arith;
  high = omega arith;
  width_fits = omega arith;
  height_fits = omega arith;
  bytes_fit = omega arith;
}

abbrev screen : Screen
screen = (initialize (λ page i. 7) gfx state).0

-- "A", a new line and "B".
abbrev line : List ℕ
line = 65 ∷ 10 ∷ 66 ∷ []

line-NoTab : NoTab line
line-NoTab = (omega arith, (omega arith, (omega arith, tt)))

draw_text-IsDrawn_example :
    OnScreen (draw_text env 7 line screen).tty × IsDrawn env (draw_text env 7 line screen)
draw_text-IsDrawn_example =
    draw_text-IsDrawn env 7 line screen line-NoTab
      (initialize-IsDrawn (λ page i. 7) gfx state gfx-HasRoom env).0
      (initialize-IsDrawn (λ page i. 7) gfx state gfx-HasRoom env).1

draw_text-initialize_example :
    OnScreen (draw_text env 7 line screen).tty × IsDrawn env (draw_text env 7 line screen)
draw_text-initialize_example =
    draw_text-initialize (λ page i. 7) gfx state gfx-HasRoom env 7 line line-NoTab

rect-save_screen_example :
    ((rect 3 4 10 20 5 (save_screen gfx)).framebuffer 200 ≡ 200)
    × ((restore_screen (rect 3 4 10 20 5 (save_screen gfx))).framebuffer 200 ≡ 200)
rect-save_screen_example = rect-save_screen 3 4 10 20 5 gfx 200 (omega arith) (omega arith)

-- Three rows of four cells.
abbrev small : Tty
small = record { vga_width = 4; vga_height = 3; row = 0; column = 0; text_buffer = λ i. i }

small-IsScreen : IsScreen small
small-IsScreen = record {
  some_width = omega arith;
  some_height = omega arith;
  width_fits = omega arith;
  height_fits = omega arith;
  cells_fit = omega arith;
}

shift-rows_example : (shift small).text_buffer 6 ≡ 10
shift-rows_example = shift-rows small 1 2 small-IsScreen (omega arith) (omega arith)
