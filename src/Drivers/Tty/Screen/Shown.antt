-- ===== src/Drivers/Tty/Screen/Shown.antt =====
-- The frame shows the cells of the terminal.
use native.Mathlib.Nat.{mul-le-mul_left}
use micron.Base.{
  ℕ, suc, ◌+◌, ◌-◌, ◌*◌, ◌^◌, ◌≤◌, ◌<◌, ◌≡◌, ◌∙◌, refl, ap, arith, bit_and, bit_xor, ◌&&◌, ltb, leb,
  ◌==◌, if◌then◌else◌, u8, ◌>>>◌,
}
use micron.Drivers.Gfx.{get_character_font}
use micron.Drivers.Gfx.Pixels.{Inside, pixel_at}
use micron.Drivers.Tty.{Tty, convert_vga_to_pix}
use micron.Drivers.Tty.Scroll.{IsScreen}
use micron.Drivers.Tty.Screen.{Surroundings, Screen, get_bit, entry_color, render_entry_at}
use micron.Drivers.Tty.Screen.Cells.{pixel_at-render_rows, width-render_rows, fill_bits-get_bit}

-- The pixel in column `px` and row `py` of a cell: the foreground where the font's bit is set. The
-- bit is the one behind that of the pixel's number, 8 * py + px.
unfoldable pub shade : Surroundings → (entry px py : ℕ) → ℕ
shade env entry px py =
    let font = get_character_font env.before_font (u8 (bit_xor entry 0xff00)) in
    if get_bit env font (8 * py + px + 1) == 0
    then convert_vga_to_pix (u8 (entry >>> 12))
    else convert_vga_to_pix (bit_and entry 0x0f00 >>> 8)

-- The cells lie in the frame, whose pixels have indices of 32 bits.
pub record Fits (s : Screen) : Type 0 where
  pub screen : IsScreen s.tty
  pub narrow : s.tty.vga_width < 2 ^ 16
  pub low : s.tty.vga_height < 2 ^ 16
  pub columns : s.tty.vga_width * 8 ≤ s.gfx.framebuffer_width
  pub rows : s.gfx.framebuffer_width * (9 * s.tty.vga_height) ≤ 2 ^ 32

abbrev pub entry_of : Tty → (x y : ℕ) → ℕ
entry_of t x y = t.text_buffer (y * t.vga_width + x)

-- A pixel of a cell, at its place in the frame.
abbrev pub cell_pixel : Screen → (x y px py : ℕ) → ℕ
cell_pixel s x y px py = pixel_at s.gfx (x * 8 + px) (y * 9 + py)

-- Each pixel of each cell is drawn as the character and the colors that the cell holds say.
abbrev pub Shows : Surroundings → Screen → Type 0
Shows env s =
    (x y px py : ℕ)
    → x < s.tty.vga_width
    → y < s.tty.vga_height
    → px < 8
    → py < 8
    → cell_pixel s x y px py ≡ shade env (entry_of s.tty x y) px py

rows_below : (w h k : ℕ) → w * (9 * h) ≤ 2 ^ 32 → k ≤ 9 * h → w * k ≤ 2 ^ 32
rows_below w h k fits below = omega (arith, mul-le-mul_left w below)

row_after : (w k : ℕ) → w * (k + 1) ≡ w * k + w
row_after w k = omega arith

-- The place of a pixel in the frame tells its cell and its place there.
covered :
    (color : ℕ → ℕ) (old x₀ y₀ x y px py : ℕ)
    → px < 8
    → py < 8
    → (if (leb (y₀ * 9) (y * 9 + py) && ltb (y * 9 + py) (y₀ * 9 + 8))
          && (leb (x₀ * 8) (x * 8 + px) && ltb (x * 8 + px) (x₀ * 8 + 8))
        then color (8 * (0 + (y * 9 + py - y₀ * 9)) + (x * 8 + px - x₀ * 8))
        else old)
      ≡ (if (x₀ == x) && (y₀ == y) then color (8 * py + px) else old)
covered color old x₀ y₀ x y px py hx hy = ground arith

module _ (env : Surroundings) where
  entry_color-shade :
      (entry px py : ℕ)
      → px < 8
      → py < 8
      → entry_color env entry (8 * py + px) ≡ shade env entry px py
  unfolding entry_color shade
  entry_color-shade entry px py hx hy = ground (
    arith,
    fill_bits-get_bit env 64 0 (get_character_font env.before_font (u8 (bit_xor entry 0xff00)))
        (8 * py + px) (λ i. 0),
    ap (get_bit env (get_character_font env.before_font (u8 (bit_xor entry 0xff00))))
        (after (8 * py + px)),
  )
    where
      after : (k : ℕ) → suc k ≡ k + 1
      after k = omega arith

  pub width-render_entry_at :
      (x y : ℕ) (s : Screen)
      → (render_entry_at env x y s).gfx.framebuffer_width ≡ s.gfx.framebuffer_width
  unfolding render_entry_at
  width-render_entry_at x y s = width-render_rows 8 0 (y * 9) x _ s.gfx

  pub tty-render_entry_at : (x y : ℕ) (s : Screen) → (render_entry_at env x y s).tty ≡ s.tty
  unfolding render_entry_at
  tty-render_entry_at x y s = refl

  pixel_Inside :
      (s : Screen) (x y px py : ℕ)
      → Fits s
      → x < s.tty.vga_width
      → y < s.tty.vga_height
      → px < 8
      → py < 8
      → Inside s.gfx (x * 8 + px) (y * 9 + py)
  pixel_Inside s x y px py f hx hy hpx hpy = record {
    column = omega arith;
    index = omega (
      arith,
      row_after s.gfx.framebuffer_width (y * 9 + py),
      rows_below s.gfx.framebuffer_width s.tty.vga_height (y * 9 + py + 1) f.rows (omega arith),
    );
  }

  pub cell_pixel-render_entry_at :
      (s : Screen) (x₀ y₀ x y px py : ℕ)
      → Fits s
      → x₀ < s.tty.vga_width
      → y₀ < s.tty.vga_height
      → x < s.tty.vga_width
      → y < s.tty.vga_height
      → px < 8
      → py < 8
      → cell_pixel (render_entry_at env x₀ y₀ s) x y px py ≡ (
          if (x₀ == x) && (y₀ == y)
          then shade env (entry_of s.tty x y) px py
          else cell_pixel s x y px py)
  unfolding render_entry_at
  cell_pixel-render_entry_at s x₀ y₀ x y px py f hx₀ hy₀ hx hy hpx hpy =
      pixel_at-render_rows 8 0 (y₀ * 9) x₀ (entry_color env (entry_of s.tty x₀ y₀)) s.gfx
        (x * 8 + px) (y * 9 + py) (omega arith)
        (rows_below s.gfx.framebuffer_width s.tty.vga_height (y₀ * 9 + 8) f.rows (omega arith))
        (pixel_Inside s x y px py f hx hy hpx hpy)
      ∙ covered (entry_color env (entry_of s.tty x₀ y₀)) (cell_pixel s x y px py) x₀ y₀ x y px py
          hpx hpy
      ∙ same_cell (cell_pixel s x y px py)
    where
      same_cell :
          (old : ℕ)
          → (if (x₀ == x) && (y₀ == y)
              then entry_color env (entry_of s.tty x₀ y₀) (8 * py + px)
              else old)
            ≡ (if (x₀ == x) && (y₀ == y) then shade env (entry_of s.tty x y) px py else old)
      same_cell old = ground (arith, entry_color-shade (entry_of s.tty x₀ y₀) px py hpx hpy)
