-- ===== src/Drivers/Tty.antt =====
-- kernel/src/drivers/tty/tty.cpp and tty.h: the terminal's cells, its cursor and its colours.
pub mod Cursor
pub mod Scroll
pub mod Screen
pub mod Colors
use micron.Base.{
  ℕ, zero, suc, ◌+◌, ◌-◌, ◌*◌, ◌/◌, ◌%◌, ◌^◌, bit_or, Bool, true, false, not, ◌&&◌, Option, none,
  some, List, [], ◌∷◌, get_or, ltb, leb, ◌==◌, if◌then◌else◌, u8, u16, u64, ◌<<<◌, update,
}
use micron.Util.Text.{strcomp}

pub record Tty : Type 0 where
  pub vga_width : ℕ
  pub vga_height : ℕ
  pub row : ℕ
  pub column : ℕ
  pub text_buffer : ℕ → ℕ

unfoldable pub vga_entry : (uc color : ℕ) → ℕ
vga_entry uc color = bit_or uc (color <<< 8)

-- The cell is stored where the position passes the tests; `Drivers.Tty.Screen` draws it. The index is not
-- reduced: on a screen of fewer than 2 ^ 64 cells it fits the word.
unfoldable pub put_entry_at : (c vcolor xpos ypos : ℕ) → Tty → Tty
put_entry_at c vcolor xpos ypos t =
    if ltb t.vga_width xpos then t else if ltb t.vga_height ypos then t else record t {
      text_buffer = update t.text_buffer (ypos * t.vga_width + xpos) (vga_entry (u8 c) vcolor);
    }

-- `xs` cells are left of a row, and `ys` rows, from (x, y) on.
unfoldable pub clear_row : (xs x y : ℕ) → Tty → Tty
clear_row zero x y t = t
clear_row (suc xs) x y t = clear_row xs (suc x) y (put_entry_at 32 0 x y t)

unfoldable pub clear_rows : (ys y : ℕ) → Tty → Tty
clear_rows zero y t = t
clear_rows (suc ys) y t = clear_rows ys (suc y) (clear_row t.vga_width 0 y t)

unfoldable pub set_cursor : (columnc rowc : ℕ) → Tty → Tty
set_cursor columnc rowc t = record t { column = u64 columnc; row = u64 rowc }

unfoldable pub clear : Tty → Tty
clear t = set_cursor 0 0 (clear_rows t.vga_height 0 t)

-- `for (i = 0; i < n; i++) text_buffer[i] = vga_entry(0, 0)`, with `n` cells left from `i` on.
unfoldable pub blank_cells : (n i : ℕ) → (ℕ → ℕ) → ℕ → ℕ
blank_cells zero i buffer = buffer
blank_cells (suc n) i buffer = blank_cells n (suc i) (update buffer i (vga_entry 0 0))

-- One pass of the inner loop of `shift`, with `n` cells left from `j` on.
unfoldable pub shift_cells : (n j : ℕ) → (ℕ → ℕ) → ℕ → ℕ
shift_cells zero j buffer = buffer
shift_cells (suc n) j buffer = shift_cells n (suc j) (update buffer j (buffer (suc j)))

unfoldable pub shift_passes : (passes n : ℕ) → (ℕ → ℕ) → ℕ → ℕ
shift_passes zero n buffer = buffer
shift_passes (suc passes) n buffer = shift_passes passes n (shift_cells n 0 buffer)

unfoldable pub shift : Tty → Tty
shift t = record t {
  text_buffer =
      shift_passes t.vga_width (u64 (t.vga_height * t.vga_width))
        (blank_cells t.vga_width 0 t.text_buffer);
  row = u64 (t.row + 2 ^ 64 - 1);
}

-- `if (++row >= vga_height) shift();`
unfoldable pub next_row : Tty → Tty
next_row t =
    let down = record t { row = u64 (suc t.row) } in
    if leb t.vga_height down.row then shift down else down

-- `if (++column >= vga_width) { column = 0; ... }`
unfoldable pub next_column : Tty → Tty
next_column t =
    let right = record t { column = u64 (suc t.column) } in
    if leb t.vga_width right.column then next_row (record right { column = 0 }) else right

unfoldable pub step_back : Tty → Tty
step_back t =
    if t.column == 0
    then (if t.row == 0
        then t
        else record t { column = u64 (t.vga_width + 2 ^ 64 - 1); row = t.row - 1 })
    else record t { column = t.column - 1 }

unfoldable pub put_char : (c color : ℕ) → Tty → Tty
put_char c color t =
    if c == 0
    then t
    else if c == 9
    then record t { column = u64 (u64 (t.column / 4 + 1) * 4) }
    else if c == 8
    then (let back = step_back t in put_entry_at 32 0 back.column back.row back)
    else if c == 10
    then record (next_row (next_column t)) { column = 0 }
    else next_column (put_entry_at c color t.column t.row t)

unfoldable pub get_optimal_size : (w h : ℕ) → ℕ × ℕ
get_optimal_size w h = (w / 8, h / 9)

-- The pixel colours of the switch, in the order of the codes.
abbrev pub pixel_colors : List ℕ
pixel_colors =
    0x000000 ∷ 0x2222FF ∷ 0x22FF22 ∷ 0x11FFFF ∷ 0xFF0000 ∷ 0xFF01AA ∷ 0xFFEBCD ∷ 0xDDDDDD ∷ 0x555555
    ∷ 0x01AAFF ∷ 0x01FF01 ∷ 0x01DDFF ∷ 0xFF2222 ∷ 0xFF0077 ∷ 0x8B4513 ∷ 0xFFFFFF ∷ []

unfoldable pub convert_vga_to_pix : ℕ → ℕ
convert_vga_to_pix vcolor = get_or pixel_colors vcolor 0

-- The names of the colours, in the order in which `write` tests them, with their codes.
abbrev pub color_names : List (List ℕ × ℕ)
color_names =
    (66 ∷ 76 ∷ 65 ∷ 67 ∷ 75 ∷ [], 0)
    ∷ (66 ∷ 76 ∷ 85 ∷ 69 ∷ [], 1)
    ∷ (71 ∷ 82 ∷ 69 ∷ 69 ∷ 78 ∷ [], 2)
    ∷ (67 ∷ 89 ∷ 65 ∷ 78 ∷ [], 3)
    ∷ (82 ∷ 69 ∷ 68 ∷ [], 4)
    ∷ (77 ∷ 65 ∷ 71 ∷ 69 ∷ 78 ∷ 84 ∷ 65 ∷ [], 5)
    ∷ (66 ∷ 82 ∷ 79 ∷ 87 ∷ 78 ∷ [], 6)
    ∷ (76 ∷ 73 ∷ 71 ∷ 72 ∷ 84 ∷ 95 ∷ 71 ∷ 82 ∷ 69 ∷ 89 ∷ [], 7)
    ∷ (68 ∷ 65 ∷ 82 ∷ 75 ∷ 95 ∷ 71 ∷ 82 ∷ 69 ∷ 89 ∷ [], 8)
    ∷ (76 ∷ 73 ∷ 71 ∷ 72 ∷ 84 ∷ 95 ∷ 66 ∷ 76 ∷ 85 ∷ 69 ∷ [], 9)
    ∷ (76 ∷ 73 ∷ 71 ∷ 72 ∷ 84 ∷ 95 ∷ 71 ∷ 82 ∷ 69 ∷ 69 ∷ 78 ∷ [], 10)
    ∷ (76 ∷ 73 ∷ 71 ∷ 72 ∷ 84 ∷ 95 ∷ 67 ∷ 89 ∷ 65 ∷ 78 ∷ [], 11)
    ∷ (76 ∷ 73 ∷ 71 ∷ 72 ∷ 84 ∷ 95 ∷ 82 ∷ 69 ∷ 68 ∷ [], 12)
    ∷ (76 ∷ 73 ∷ 71 ∷ 72 ∷ 84 ∷ 95 ∷ 77 ∷ 65 ∷ 71 ∷ 69 ∷ 78 ∷ 84 ∷ 65 ∷ [], 13)
    ∷ (76 ∷ 73 ∷ 71 ∷ 72 ∷ 84 ∷ 95 ∷ 66 ∷ 82 ∷ 79 ∷ 87 ∷ 78 ∷ [], 14)
    ∷ (87 ∷ 72 ∷ 73 ∷ 84 ∷ 69 ∷ [], 15)
    ∷ []

-- "$TERM_LINE!"
abbrev pub terminal_line : List ℕ
terminal_line = 36 ∷ 84 ∷ 69 ∷ 82 ∷ 77 ∷ 95 ∷ 76 ∷ 73 ∷ 78 ∷ 69 ∷ 33 ∷ []

-- Where `write` stands in the text: at a plain character, at a place of the colour's name, or at the
-- character behind the `!`.
pub data Place : Type 0 where
  in_text : Place
  in_code : ℕ → Place
  after_code : Place

-- `colorCode` has 15 places; the characters of a longer name land in what follows it.
pub record Writer : Type 0 where
  pub tty : Tty
  pub color : ℕ
  pub color_code : ℕ → ℕ
  pub place : Place

-- `strcomp` of a colour's name with the characters of `colorCode` from `i` on.
unfoldable pub names_color : List ℕ → (ℕ → ℕ) → ℕ → Bool
names_color [] code i = true
names_color (c ∷ name) code i = if c == code i then names_color name code (suc i) else false

unfoldable pub check_vga_colors : List (List ℕ × ℕ) → (ℕ → ℕ) → ℕ → ℕ
check_vga_colors [] code color = color
check_vga_colors ((name, c) ∷ names) code color =
    check_vga_colors names code (if names_color name code 0 then c else color)

-- The code ends at its `!`, at place `iter` of `colorCode`; the NUL goes one place further.
unfoldable pub end_code : ℕ → Writer → Writer
end_code iter w =
    let code = update w.color_code (suc iter) 0 in
    record w {
      color = check_vga_colors color_names code w.color;
      color_code = code;
      place = after_code;
    }

unfoldable pub put : ℕ → Writer → Writer
put c w = record w { tty = put_char c w.color w.tty; place = in_text }

unfoldable pub write_at : Place → ℕ → Writer → Writer
write_at in_text c w = if c == 36 then record w { place = in_code 0 } else put c w
write_at (in_code iter) c w =
    if c == 33
    then end_code iter w
    else record w { color_code = update w.color_code iter c; place = in_code (suc iter) }
write_at after_code c w = put c w

unfoldable pub write_chars : List ℕ → Writer → Writer
write_chars [] w = w
write_chars (c ∷ text) w = write_chars text (write_at w.place c w)

-- The loop that draws the line, with `n` places left from `i` on.
unfoldable pub draw_line : (n i : ℕ) → Tty → Tty
draw_line zero i t = t
draw_line (suc n) i t = draw_line n (suc i) (put_char (if i % 2 == 0 then 45 else 61) 0x0F t)

-- The text has to end at a plain character: inside a code or right behind it the source reads on
-- past the NUL, which is `none` here. `scratch` is what `colorCode` holds on entry.
unfoldable pub finish_write : Place → Writer → Option Tty
finish_write in_text w = some w.tty
finish_write (in_code iter) w = none
finish_write after_code w = none

unfoldable pub write : (scratch : ℕ → ℕ) → List ℕ → Tty → Option Tty
write scratch text t =
    if strcomp text terminal_line
    then some (draw_line t.vga_width 0 t)
    else (let w =
          write_chars text (record { tty = t; color = 7; color_code = scratch; place = in_text }) in
        finish_write w.place w)
