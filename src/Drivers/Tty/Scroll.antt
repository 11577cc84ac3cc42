-- ===== src/Drivers/Tty/Scroll.antt =====
-- `shift` moves every row up by one.
use native.Mathlib.Nat.{mul-le-mul_right}
use micron.Base.{
  ℕ, zero, suc, ◌+◌, ◌-◌, ◌*◌, ◌^◌, ◌≤◌, ◌<◌, ◌≡◌, refl, arith, ap, ◌∙◌, min, ltb, ltb→lt,
  Bool-cases, false, inl, inr, if◌then◌else◌, update, u64,
}
use micron.Drivers.Tty.{Tty, vga_entry, blank_cells, shift_cells, shift_passes, shift}

shift_cells-at :
    (n j : ℕ) (buffer : ℕ → ℕ) (i : ℕ)
    → shift_cells n j buffer i
      ≡ (if ltb i j then buffer i else if ltb i (j + n) then buffer (suc i) else buffer i)
unfolding shift_cells
shift_cells-at zero j buffer i = ground arith
shift_cells-at (suc n) j buffer i =
    ground (arith, shift_cells-at n (suc j) (update buffer j (buffer (suc j))) i)

next_cell :
    (n m : ℕ) (buffer : ℕ → ℕ)
    → m ≤ n
    → (if ltb m 0 then buffer m else if ltb m (0 + n) then buffer (suc m) else buffer m)
      ≡ buffer (min (suc m) n)
next_cell n m buffer h = elim (Bool-cases (ltb m n)) [
  | inl e ↦ ground (arith, ap buffer (the_least (suc m) n (ltb→lt m n e)))
  | inr e ↦ ground (arith, ap buffer (the_last n m h e))
]
  where
    the_least : (a b : ℕ) → a ≤ b → a ≡ min a b
    the_least a b q = omega arith

    the_last : (a b : ℕ) → b ≤ a → ltb b a ≡ false → b ≡ min (suc b) a
    the_last a b p q = ground arith

shift_passes-at :
    (passes n : ℕ) (buffer : ℕ → ℕ) (i : ℕ)
    → i ≤ n
    → shift_passes passes n buffer i ≡ buffer (min (i + passes) n)
unfolding shift_passes
shift_passes-at zero n buffer i h = ap buffer (omega arith)
shift_passes-at (suc passes) n buffer i h =
    shift_passes-at passes n (shift_cells n 0 buffer) i h
    ∙ shift_cells-at n 0 buffer (min (i + passes) n)
    ∙ next_cell n (min (i + passes) n) buffer (omega arith)
    ∙ ap buffer (omega arith)

blank_cells-at :
    (n i : ℕ) (buffer : ℕ → ℕ) (p : ℕ)
    → blank_cells n i buffer p
      ≡ (if ltb p i then buffer p else if ltb p (i + n) then 0 else buffer p)
unfolding blank_cells vga_entry
blank_cells-at zero i buffer p = ground arith
blank_cells-at (suc n) i buffer p = ground (arith, blank_cells-at n (suc i) (update buffer i 0) p)

behind_first :
    (n : ℕ) (buffer : ℕ → ℕ) (p q : ℕ) → p ≡ q → n ≤ q → blank_cells n 0 buffer p ≡ buffer q
behind_first n buffer p q e h =
    blank_cells-at n 0 buffer p ∙ ground (arith, ap buffer e, reach p n (omega arith))
  where
    reach : (a b : ℕ) → b ≤ a → ltb a (0 + b) ≡ false
    reach a b le = ground arith

pub rows_above : (w h r : ℕ) → r < h → suc r * w ≤ h * w
rows_above w h r below = mul-le-mul_right w below

-- A screen of cells whose number fits the 64 bits of the loop's bound.
pub record IsScreen (t : Tty) : Type 0 where
  pub some_width : 0 < t.vga_width
  pub some_height : 0 < t.vga_height
  pub width_fits : t.vga_width < 2 ^ 64
  pub height_fits : t.vga_height < 2 ^ 64
  pub cells_fit : t.vga_height * t.vga_width < 2 ^ 64

shift_passes-behind :
    (passes n : ℕ) (buffer : ℕ → ℕ) (p : ℕ) → n ≤ p → shift_passes passes n buffer p ≡ buffer p
unfolding shift_passes
shift_passes-behind zero n buffer p h = refl
shift_passes-behind (suc passes) n buffer p h =
    shift_passes-behind passes n (shift_cells n 0 buffer) p h
    ∙ shift_cells-at n 0 buffer p
    ∙ outside n p buffer h
  where
    outside :
        (n p : ℕ) (buffer : ℕ → ℕ)
        → n ≤ p
        → (if ltb p 0 then buffer p else if ltb p (0 + n) then buffer (suc p) else buffer p)
          ≡ buffer p
    outside n p buffer h = ground arith

-- The words behind the screen's cells stay as they are.
pub shift-behind :
    (t : Tty) (p : ℕ)
    → IsScreen t
    → t.vga_height * t.vga_width ≤ p
    → (shift t).text_buffer p ≡ t.text_buffer p
unfolding shift
shift-behind t p screen h =
    shift_passes-behind t.vga_width (u64 (t.vga_height * t.vga_width))
      (blank_cells t.vga_width 0 t.text_buffer) p
      (below (t.vga_height * t.vga_width) screen.cells_fit h)
    ∙ behind_first t.vga_width t.text_buffer p p refl
        (omega (arith, rows_above t.vga_width t.vga_height 0 screen.some_height))
  where
    below : (n : ℕ) → n < 2 ^ 64 → n ≤ p → u64 n ≤ p
    below n q le = omega arith

shift-cell :
    (t : Tty) (i : ℕ)
    → IsScreen t
    → i < t.vga_height * t.vga_width
    → (shift t).text_buffer i
      ≡ blank_cells t.vga_width 0 t.text_buffer (min (i + t.vga_width) (t.vga_height * t.vga_width))
unfolding shift
shift-cell t i screen h = rw (the_bound (t.vga_height * t.vga_width) screen.cells_fit) (
    shift_passes-at t.vga_width (t.vga_height * t.vga_width)
      (blank_cells t.vga_width 0 t.text_buffer) i (omega arith))
  where
    the_bound : (n : ℕ) → n < 2 ^ 64 → u64 n ≡ n
    the_bound n q = omega arith

-- On a screen that is not empty, whose sizes fit their fields, `shift` moves each row but the first
-- one up by a row.
pub shift-rows :
    (t : Tty) (r c : ℕ)
    → IsScreen t
    → suc r < t.vga_height
    → c < t.vga_width
    → (shift t).text_buffer (r * t.vga_width + c) ≡ t.text_buffer (suc r * t.vga_width + c)
shift-rows t r c screen hr hc =
    shift-cell t (r * t.vga_width + c) screen
      (omega (arith, rows_above t.vga_width t.vga_height (suc r) hr))
    ∙ behind_first t.vga_width t.text_buffer
        (min (r * t.vga_width + c + t.vga_width) (t.vga_height * t.vga_width))
        (suc r * t.vga_width + c) (omega (arith, rows_above t.vga_width t.vga_height (suc r) hr))
        (omega arith)

whole_rows : (h w : ℕ) → 0 < h → (h - 1) * w + w ≡ h * w
whole_rows (suc h) w some_height = ap (λ (x : ℕ). x * w + w) (one_less h) ∙ omega arith
  where
    one_less : (n : ℕ) → suc n - 1 ≡ n
    one_less n = omega arith
whole_rows zero w some_height = absurd (omega arith)

-- The last row that `shift` leaves is not blank: each of its cells is the word that stands behind
-- the last cell of the screen.
shift_last_row :
    (t : Tty) (c : ℕ)
    → IsScreen t
    → c < t.vga_width
    → (shift t).text_buffer ((t.vga_height - 1) * t.vga_width + c)
      ≡ t.text_buffer (t.vga_height * t.vga_width)
shift_last_row t c screen hc =
    shift-cell t ((t.vga_height - 1) * t.vga_width + c) screen (omega (arith, last))
    ∙ behind_first t.vga_width t.text_buffer
        (min ((t.vga_height - 1) * t.vga_width + c + t.vga_width) (t.vga_height * t.vga_width))
        (t.vga_height * t.vga_width) (omega (arith, last)) (omega (arith, last))
  where
    last : (t.vga_height - 1) * t.vga_width + t.vga_width ≡ t.vga_height * t.vga_width
    last = whole_rows t.vga_height t.vga_width screen.some_height
