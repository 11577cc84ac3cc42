-- ===== src/Drivers/Tty/Screen/Start.antt =====
-- The terminal as `initialize` leaves it.
use native.Mathlib.Nat.{mul-le-mul_left, mul-le-mul_right}
use micron.Base.{
  ℕ, zero, ◌+◌, ◌*◌, ◌/◌, ◌^◌, ◌≤◌, ◌<◌, ◌≡◌, ◌∙◌, refl, sym, ap, arith, Bool, true, false,
  if◌then◌else◌, u32, List,
}
use micron.Memory.Pmm.{Pmm, request_page}
use micron.Drivers.Gfx.{Gfx, frame_bytes}
use micron.Drivers.Gfx.Rect.{frame_bytes-small}
use micron.Drivers.Gfx.Pixels.{pixel_at}
use micron.Drivers.Tty.{get_optimal_size, convert_vga_to_pix}
use micron.Drivers.Tty.Scroll.{IsScreen}
use micron.Drivers.Tty.Cursor.{OnScreen}
use micron.Drivers.Tty.Screen.{Surroundings, initialize, draw_text, zeroed}
use micron.Drivers.Tty.Screen.Shown.{Fits, Shows, shade, cell_pixel, entry_of}
use micron.Drivers.Tty.Screen.Texts.{IsDrawn, NoTab, draw_text-IsDrawn}

-- A frame with room for a cell, whose sizes are `uint16`, of less than 2 ^ 31 bytes.
pub record HasRoom (g : Gfx) : Type 0 where
  pub wide : 8 ≤ g.framebuffer_width
  pub high : 9 ≤ g.framebuffer_height
  pub width_fits : g.framebuffer_width < 2 ^ 16
  pub height_fits : g.framebuffer_height < 2 ^ 16
  pub bytes_fit : g.framebuffer_width * g.framebuffer_height * 4 < 2 ^ 31

cells-lt : (w h : ℕ) → w < 2 ^ 13 → h < 2 ^ 13 → h * w < 2 ^ 26
cells-lt w h p q =
    omega (arith, mul-le-mul_left h (le_of w p), mul-le-mul_right (2 ^ 13) (le_of h q))
  where
    le_of : (n : ℕ) → n < 2 ^ 13 → n ≤ 2 ^ 13
    le_of n p = omega arith

area-le : (w h : ℕ) → w < 2 ^ 16 → h < 2 ^ 16 → w * h ≤ 2 ^ 32
area-le w h p q =
    omega (arith, mul-le-mul_left w (le_of h q), mul-le-mul_right (2 ^ 16) (le_of w p))
  where
    le_of : (n : ℕ) → n < 2 ^ 16 → n ≤ 2 ^ 16
    le_of n p = omega arith

zeroed_below : (n : ℕ) (f : ℕ → ℕ) (i : ℕ) → i < n → zeroed n f i ≡ 0
zeroed_below n f i below = ground arith

pixel-lt : (w h x y : ℕ) → x < w → y < h → w * y + x < w * h
pixel-lt w h x y hx hy = omega (arith, mul-le-mul_left w (next hy))
  where
    next : y < h → y + 1 ≤ h
    next hy = omega arith

-- A cell's number is below the number of cells.
index-lt : (x y w h : ℕ) → x < w → y < h → y * w + x < h * w
index-lt x y w h hx hy = omega (arith, mul-le-mul_right w (next hy))
  where
    next : y < h → y + 1 ≤ h
    next hy = omega arith

blank_shade : (env : Surroundings) (px py : ℕ) → shade env 0 px py ≡ 0
unfolding shade convert_vga_to_pix
blank_shade env px py = if_same _
  where
    if_same : (b : Bool) → (if b then zero else zero) ≡ zero
    if_same true = refl
    if_same false = refl

module _ (words : ℕ → ℕ → ℕ) (g : Gfx) (p : Pmm) (room : HasRoom g) where
  small_cells : g.framebuffer_height / 9 * (g.framebuffer_width / 8) < 2 ^ 26
  small_cells =
      cells-lt (g.framebuffer_width / 8) (g.framebuffer_height / 9) (omega (arith, room.width_fits))
        (omega (arith, room.height_fits))

  initialize-IsScreen : IsScreen (initialize words g p).0.tty
  unfolding initialize get_optimal_size
  initialize-IsScreen = record {
    some_width = omega (arith, room.wide);
    some_height = omega (arith, room.high);
    width_fits = omega (arith, room.width_fits);
    height_fits = omega (arith, room.height_fits);
    cells_fit = omega (arith, small_cells);
  }

  initialize-OnScreen : OnScreen (initialize words g p).0.tty
  initialize-OnScreen = record {
    screen = initialize-IsScreen;
    row_below = unfold initialize get_optimal_size in omega (arith, room.high);
    column_below = unfold initialize get_optimal_size in omega (arith, room.wide);
  }

  initialize-Fits : Fits (initialize words g p).0
  initialize-Fits = record {
    screen = initialize-IsScreen;
    narrow = unfold initialize get_optimal_size in omega (arith, room.width_fits);
    low = unfold initialize get_optimal_size in omega (arith, room.height_fits);
    columns = unfold initialize get_optimal_size in omega arith;
    rows =
        unfold initialize get_optimal_size in
        area-le g.framebuffer_width (9 * (g.framebuffer_height / 9)) room.width_fits
          (omega (arith, room.height_fits));
  }

  blank_entry :
      (x y : ℕ)
      → x < (initialize words g p).0.tty.vga_width
      → y < (initialize words g p).0.tty.vga_height
      → entry_of (initialize words g p).0.tty x y ≡ 0
  unfolding initialize get_optimal_size
  blank_entry x y hx hy =
      zeroed_below (u32 (g.framebuffer_height / 9 * (g.framebuffer_width / 8) * 2) / 2)
        (words (request_page p).0) (y * (g.framebuffer_width / 8) + x)
        (omega (
          arith,
          small_cells,
          index-lt x y (g.framebuffer_width / 8) (g.framebuffer_height / 9) hx hy,
        ))

  blank_pixel :
      (x y px py : ℕ)
      → x < (initialize words g p).0.tty.vga_width
      → y < (initialize words g p).0.tty.vga_height
      → px < 8
      → py < 8
      → cell_pixel (initialize words g p).0 x y px py ≡ 0
  unfolding initialize get_optimal_size pixel_at
  blank_pixel x y px py hx hy hpx hpy =
      zeroed_below (frame_bytes g / 4) g.framebuffer
        (u32 (g.framebuffer_width * (y * 9 + py) + (x * 8 + px)))
        (omega (
          arith,
          frame_bytes-small g room.bytes_fit,
          area-le g.framebuffer_width g.framebuffer_height room.width_fits room.height_fits,
          pixel-lt g.framebuffer_width g.framebuffer_height (x * 8 + px) (y * 9 + py) (omega arith)
              (omega arith),
        ))

  initialize-Shows : (env : Surroundings) → Shows env (initialize words g p).0
  initialize-Shows env x y px py hx hy hpx hpy =
      blank_pixel x y px py hx hy hpx hpy
      ∙ sym (blank_shade env px py)
      ∙ sym (ap (λ (entry : ℕ). shade env entry px py) (blank_entry x y hx hy))

  pub initialize-IsDrawn :
      (env : Surroundings)
      → OnScreen (initialize words g p).0.tty × IsDrawn env (initialize words g p).0
  initialize-IsDrawn env =
      (initialize-OnScreen, record { fits = initialize-Fits; shows = initialize-Shows env })

  -- After `initialize`, on a frame of 8 to 65535 columns and 9 to 65535 rows, and of less than
  -- 2 ^ 31 bytes, a text with no tab is
  -- put on the screen with the cursor on the screen and the frame showing the cells at its end,
  -- whatever the memory held before.
  pub draw_text-initialize :
      (env : Surroundings) (color : ℕ) (cs : List ℕ)
      → NoTab cs
      → OnScreen (draw_text env color cs (initialize words g p).0).tty
        × IsDrawn env (draw_text env color cs (initialize words g p).0)
  draw_text-initialize env color cs no_tab =
      draw_text-IsDrawn env color cs (initialize words g p).0 no_tab (initialize-IsDrawn env).0
        (initialize-IsDrawn env).1
