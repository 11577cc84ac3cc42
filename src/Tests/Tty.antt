-- ===== src/Tests/Tty.antt =====
-- The terminal, on a screen of 4 columns and 3 rows.
use micron.Base.{ℕ, suc, ◌≡◌, arith, u8, ◌==◌, if◌then◌else◌}
use micron.Drivers.Tty.{Tty, vga_entry, put_char, Writer, in_text}
use micron.Drivers.Tty.Scroll.{IsScreen}
use micron.Drivers.Tty.Cursor.{OnScreen, IsPlain, position, put_char-position}

abbrev tty : Tty
tty = record { vga_width = 4; vga_height = 3; row = 1; column = 3; text_buffer = λ i. i }

tty-IsScreen : IsScreen tty
tty-IsScreen = record {
  some_width = omega arith;
  some_height = omega arith;
  width_fits = omega arith;
  height_fits = omega arith;
  cells_fit = omega arith;
}

tty-OnScreen : OnScreen tty
tty-OnScreen = record { screen = tty-IsScreen; row_below = omega arith; column_below = omega arith }

plain : IsPlain 65
plain = record {
  not_nul = omega arith;
  not_backspace = omega arith;
  not_tab = omega arith;
  not_newline = omega arith;
}

put_char-position_example :
    let t' = put_char 65 7 tty in
    (position t' ≡ suc (position tty))
    × ((p : ℕ) → t'.text_buffer p ≡ (if position tty == p then vga_entry (u8 65) 7 else p))
put_char-position_example =
    put_char-position 65 7 tty plain tty-OnScreen (unfold position in omega arith)

abbrev writer : Writer
writer = record { tty = tty; color = 7; color_code = λ i. 95; place = in_text }
