-- ===== src/Drivers/Tty/Screen.antt =====
-- kernel/src/drivers/tty/tty.cpp with the drawing: render_entry_at, render_entry_at_buffer,
-- render_buffer, and the operations that call them. The terminal without pixels is `Drivers.Tty`.
pub mod Cells
pub mod Drawn
pub mod Shown
pub mod Start
pub mod Steps
pub mod Texts
use micron.Base.{
  ℕ, zero, suc, ◌+◌, ◌-◌, ◌*◌, ◌/◌, ◌%◌, ◌^◌, bit_and, bit_xor, List, [], ◌∷◌, Bool, true, false,
  ltb, leb, ◌==◌, if◌then◌else◌, u8, u16, u32, u64, ◌>>>◌, update,
}
use micron.Memory.Pmm.{Pmm, request_page}
use micron.Drivers.Gfx.{Gfx, plot_pixel, frame_bytes, get_character_font}
use micron.Drivers.Tty.{Tty, put_entry_at, convert_vga_to_pix, shift, step_back, get_optimal_size}

-- What the code reads outside its data: the words before the font, and a word shifted by its width.
pub record Surroundings : Type 0 where
  pub before_font : ℕ → ℕ
  pub wide_shift : ℕ → ℕ

pub record Screen : Type 0 where
  pub tty : Tty
  pub gfx : Gfx

-- `get_bit` of kutil.h, for bits up to 64.
unfoldable pub get_bit : Surroundings → (source bit : ℕ) → ℕ
get_bit env source bit = bit_and (if ltb bit 64 then source >>> bit else env.wide_shift source) 1

-- `for (i = 1; i <= 64; i++) bits[i - 1] = get_bit(font_selector, i)`, with `n` rounds left.
unfoldable pub fill_bits : Surroundings → (n i font : ℕ) → (ℕ → ℕ) → ℕ → ℕ
fill_bits env zero i font bits = bits
fill_bits env (suc n) i font bits =
    fill_bits env n (suc i) font (update bits (i - 1) (get_bit env font i))

-- The inner loop, with `left` pixels of the row: `x` goes on by one and `xx` by `step`. The color of
-- each pixel is given by its number in the character.
unfoldable pub render_row : (step left x xx y yy : ℕ) → (color : ℕ → ℕ) → Gfx → Gfx
render_row step zero x xx y yy color g = g
render_row step (suc left) x xx y yy color g =
    render_row step left (suc x) (xx + step) y yy color (plot_pixel xx yy (color (8 * y + x)) g)

unfoldable pub render_rows : (step left y yy xpos : ℕ) → (color : ℕ → ℕ) → Gfx → Gfx
render_rows step zero y yy xpos color g = g
render_rows step (suc left) y yy xpos color g =
    render_rows step left (suc y) (yy + step) xpos color
      (render_row step 8 0 (xpos * 8) y yy color g)

-- The color of a pixel of a cell; `bits` begins as an array with no values.
unfoldable pub entry_color : Surroundings → (entry : ℕ) → ℕ → ℕ
entry_color env entry k =
    let font = get_character_font env.before_font (u8 (bit_xor entry 0xff00)) in
    let fg = convert_vga_to_pix (bit_and entry 0x0f00 >>> 8) in
    let bg = convert_vga_to_pix (u8 (entry >>> 12)) in
    if fill_bits env 64 1 font (λ i. 0) k == 0 then bg else fg

unfoldable pub render_entry_at : Surroundings → (xpos ypos : ℕ) → Screen → Screen
render_entry_at env xpos ypos s =
    let entry = s.tty.text_buffer (ypos * s.tty.vga_width + xpos) in
    record s { gfx = render_rows 1 8 0 (ypos * 9) xpos (entry_color env entry) s.gfx }

unfoldable pub render_entry_at_buffer : Surroundings → (xpos ypos : ℕ) → Screen → Screen
render_entry_at_buffer env xpos ypos s =
    let entry = s.tty.text_buffer (ypos * s.tty.vga_width + xpos) in
    record s { gfx = render_rows 2 8 0 (ypos * 9) xpos (entry_color env entry) s.gfx }

-- The loops of `render_buffer`, with `left` cells of a row, and `left` rows.
unfoldable pub render_line : Surroundings → (left xpos ypos : ℕ) → Screen → Screen
render_line env zero xpos ypos s = s
render_line env (suc left) xpos ypos s =
    render_line env left (suc xpos) ypos (render_entry_at env xpos ypos s)

unfoldable pub render_lines : Surroundings → (left ypos : ℕ) → Screen → Screen
render_lines env zero ypos s = s
render_lines env (suc left) ypos s =
    render_lines env left (suc ypos) (render_line env s.tty.vga_width 0 ypos s)

-- The counters are `uint16`: on a screen below 2 ^ 16 cells each way the loops end.
unfoldable pub render_buffer : Surroundings → Screen → Screen
render_buffer env s = render_lines env s.tty.vga_height 0 s

-- `put_entry_at`: the cell is stored, and drawn.
unfoldable pub draw_entry_at : Surroundings → (c vcolor xpos ypos : ℕ) → Screen → Screen
draw_entry_at env c vcolor xpos ypos s =
    if ltb s.tty.vga_width xpos
    then s
    else if ltb s.tty.vga_height ypos
    then s
    else render_entry_at env (u16 xpos) (u16 ypos)
        (record s { tty = put_entry_at c vcolor xpos ypos s.tty })

-- `shift`
unfoldable pub draw_shift : Surroundings → Screen → Screen
draw_shift env s = render_buffer env (record s { tty = shift s.tty })

-- `if (++row >= vga_height) shift();`
unfoldable pub draw_next_row : Surroundings → Screen → Screen
draw_next_row env s =
    let t = s.tty in
    let down = record s { tty = record t { row = u64 (suc t.row) } } in
    if leb t.vga_height down.tty.row then draw_shift env down else down

-- `if (++column >= vga_width) { column = 0; ... }`
unfoldable pub draw_next_column : Surroundings → Screen → Screen
draw_next_column env s =
    let t = s.tty in
    if leb t.vga_width (u64 (suc t.column))
    then draw_next_row env (record s { tty = record t { column = 0 } })
    else record s { tty = record t { column = u64 (suc t.column) } }

abbrev pub home : Screen → Screen
home s = let t = s.tty in record s { tty = record t { column = 0 } }

-- `put_char`
unfoldable pub draw_char : Surroundings → (c color : ℕ) → Screen → Screen
draw_char env c color s =
    let t = s.tty in
    if c == 0
    then s
    else if c == 9
    then record s { tty = record t { column = u64 (u64 (t.column / 4 + 1) * 4) } }
    else if c == 8
    then (let back = step_back t in
        draw_entry_at env 32 0 back.column back.row (record s { tty = back }))
    else if c == 10
    then home (draw_next_row env (draw_next_column env s))
    else draw_next_column env (draw_entry_at env c color t.column t.row s)

-- The loop of `displayString` in printf.cpp, with `put_char`'s color.
unfoldable pub draw_text : Surroundings → (color : ℕ) → List ℕ → Screen → Screen
draw_text env color [] s = s
draw_text env color (c ∷ cs) s = draw_text env color cs (draw_char env c color s)

abbrev pub zeroed : (n : ℕ) → (ℕ → ℕ) → ℕ → ℕ
zeroed n f i = if ltb i n then 0 else f i

-- `initialize`: `words` gives the 16-bit words from an address on. The size of the terminal is a
-- `uint32`. A pixel has 32 bits, as kernel/src/boot/boot.cpp asks for.
unfoldable pub initialize : (words : ℕ → ℕ → ℕ) → Gfx → Pmm → Screen × Pmm
initialize words g p =
    let (page, p') = request_page p in
    let (w, h) = get_optimal_size g.framebuffer_width g.framebuffer_height in
    let pixels = frame_bytes g / 4 in
    (
      record {
        tty = record {
          vga_width = w;
          vga_height = h;
          row = 0;
          column = 0;
          text_buffer = zeroed (u32 (h * w * 2) / 2) (words page);
        };
        gfx = record g {
          framebuffer = zeroed pixels g.framebuffer;
          buffer = zeroed pixels g.buffer;
        };
      },
      p',
    )
