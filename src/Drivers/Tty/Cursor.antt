-- ===== src/Drivers/Tty/Cursor.antt =====
-- The cursor stays on the screen, and a character is stored in a cell of the screen.
use micron.Base.{
  ℕ, suc, ◌+◌, ◌*◌, ◌≤◌, ◌<◌, ◌≡◌, ◌≢◌, ◌⊎◌, inl, inr, refl, arith, ap, ◌==◌, if◌then◌else◌, u8,
  update,
}
use micron.Drivers.Tty.{
  Tty, vga_entry, put_entry_at, shift, next_row, next_column, step_back, put_char,
}
use micron.Drivers.Tty.Scroll.{IsScreen, rows_above}

-- The cursor is on a cell of the screen.
pub record OnScreen (t : Tty) : Type 0 where
  pub screen : IsScreen t
  pub row_below : t.row < t.vga_height
  pub column_below : t.column < t.vga_width

-- The screen of one terminal is that of the other.
abbrev pub SameSize : Tty → Tty → Type 0
SameSize t t' = (t'.vga_width ≡ t.vga_width) × (t'.vga_height ≡ t.vga_height)

pub resized : (t t' : Tty) → SameSize t t' → IsScreen t → IsScreen t'
resized t t' same screen = record {
  some_width = omega arith;
  some_height = omega arith;
  width_fits = omega arith;
  height_fits = omega arith;
  cells_fit = rw same.0 (rw same.1 screen.cells_fit);
}

-- Where the cursor is after a step.
record Moved (t t' : Tty) (row column : ℕ) : Type 0 where
  pub same_size : SameSize t t'
  pub row_is : t'.row ≡ row
  pub column_is : t'.column ≡ column

-- Any character but a tab leaves the cursor on the screen, where it has been, in the last column and
-- on the last row as well.
pub put_char-OnScreen : (c color : ℕ) (t : Tty) → c ≢ 9 → OnScreen t → OnScreen (put_char c color t)
unfolding put_char put_entry_at shift next_row next_column step_back
put_char-OnScreen c color t no_tab on = record {
  screen = resized t (put_char c color t) (ground arith, ground arith) on.screen;
  row_below = ground arith;
  column_below = ground arith;
}

-- The place of the cursor, counted through the rows.
unfoldable pub position : Tty → ℕ
position t = t.row * t.vga_width + t.column

position_below : (r c w h : ℕ) → r < h → c < w → r * w + c < h * w
position_below r c w h hr hc = omega (arith, rows_above w h r hr)

ltb-cases : (a b : ℕ) → (a < b) ⊎ (b ≤ a)
ltb-cases a b = omega arith

stored : (c color : ℕ) → Tty → ℕ → ℕ
stored c color t = update t.text_buffer (t.row * t.vga_width + t.column) (vga_entry (u8 c) color)

-- Not a NUL, a backspace, a tab or a newline.
pub record IsPlain (c : ℕ) : Type 0 where
  pub not_nul : c ≢ 0
  pub not_backspace : c ≢ 8
  pub not_tab : c ≢ 9
  pub not_newline : c ≢ 10

put_char-right :
    (c color : ℕ) (t : Tty)
    → IsPlain c
    → OnScreen t
    → suc t.column < t.vga_width
    → put_char c color t ≡ record t { column = suc t.column; text_buffer = stored c color t }
unfolding put_char put_entry_at next_column next_row stored
put_char-right c color t plain on room = ground arith

put_char-down :
    (c color : ℕ) (t : Tty)
    → IsPlain c
    → OnScreen t
    → t.vga_width ≤ suc t.column
    → suc t.row < t.vga_height
    → put_char c color t ≡ record t { column = 0; row = suc t.row; text_buffer = stored c color t }
unfolding put_char put_entry_at next_column next_row stored
put_char-down c color t plain on full room = ground arith

-- A plain character on the screen, before its last cell, is stored with its colour in the cell at
-- the cursor, the cursor goes on by one cell, through the end of a row as well, and no other cell
-- changes.
pub put_char-position :
    (c color : ℕ) (t : Tty)
    → IsPlain c
    → OnScreen t
    → suc (position t) < t.vga_height * t.vga_width
    → let t' = put_char c color t in
      (position t' ≡ suc (position t))
      × ((p : ℕ)
          → t'.text_buffer p
            ≡ (if position t == p then vga_entry (u8 c) color else t.text_buffer p))
unfolding position stored
put_char-position c color t plain on room = elim (ltb-cases (suc t.column) t.vga_width) [
  | inl right ↦ rw (put_char-right c color t plain on right) (omega arith, λ p. refl)
  | inr full ↦
      rw (put_char-down c color t plain on full (row_left full)) (next_start full, λ p. refl)
]
  where
    row_left : t.vga_width ≤ suc t.column → suc t.row < t.vga_height
    row_left full = elim (ltb-cases (suc t.row) t.vga_height) [
      | inl below ↦ below
      | inr last ↦
          absurd
            (omega (arith, rows_above t.vga_width (suc t.row) t.row (omega arith), height last))
    ]
      where
        height : t.vga_height ≤ suc t.row → t.vga_height * t.vga_width ≡ suc t.row * t.vga_width
        height last = ap (λ (h : ℕ). h * t.vga_width) (omega arith)

    next_start : t.vga_width ≤ suc t.column → suc t.row * t.vga_width + 0 ≡ suc (position t)
    next_start full = omega arith
