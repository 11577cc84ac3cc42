-- ===== src/Drivers/Tty/Colors.antt =====
-- The colour codes in the text that `write` prints.
use micron.Base.{ℕ, suc, ◌+◌, ◌≡◌, ◌≢◌, refl, arith, ap, ◌∙◌, update, List, [], ◌∷◌, ◌++◌, length}
use micron.Drivers.Tty.{
  in_text, in_code, Writer, color_names, names_color, check_vga_colors, end_code, put, write_at,
  write_chars,
}

-- No character of the text is this one.
abbrev pub Lacks : ℕ → List ℕ → Type 0
Lacks c [] = Unit
Lacks c (x ∷ xs) = (x ≢ c) × Lacks c xs

-- `code` with the characters of a name stored from place `i` on.
unfoldable pub filled : List ℕ → ℕ → (ℕ → ℕ) → ℕ → ℕ
filled [] i code = code
filled (c ∷ name) i code = filled name (suc i) (update code i c)

write_at-name :
    (i c : ℕ) (w : Writer)
    → c ≢ 33
    → write_at (in_code i) c (record w { place = in_code i })
      ≡ record w { color_code = update w.color_code i c; place = in_code (suc i) }
unfolding write_at
write_at-name i c w ne = ground arith

write_chars-name :
    (name rest : List ℕ) (i : ℕ) (w : Writer)
    → Lacks 33 name
    → write_chars (name ++ 33 ∷ rest) (record w { place = in_code i })
      ≡ write_chars rest
          (end_code (i + length name) (record w { color_code = filled name i w.color_code }))
unfolding write_chars write_at filled end_code
write_chars-name [] rest i w lacks = ap (λ n. write_chars rest (end_code n w)) (omega arith)
write_chars-name (c ∷ name) rest i w (ne, lacks) =
    ap (write_chars (name ++ 33 ∷ rest)) (write_at-name i c w ne)
    ∙ write_chars-name name rest (suc i) (record w { color_code = update w.color_code i c }) lacks
    ∙ ap
        (λ (n : ℕ).
          write_chars rest
            (end_code n (record w { color_code = filled (c ∷ name) i w.color_code })))
        (moved i (length name))
  where
    moved : (a b : ℕ) → suc a + b ≡ a + suc b
    moved a b = omega arith

-- What `colorCode` holds once a name and its `!` are read: one character behind the name is left
-- from before, the NUL stands behind that.
unfoldable pub named : List ℕ → (ℕ → ℕ) → ℕ → ℕ
named name code = update (filled name 0 code) (suc (length name)) 0

abbrev pub Each : (List ℕ × ℕ → Type 0) → List (List ℕ × ℕ) → Type 0
Each P [] = Unit
Each P (x ∷ xs) = P x × Each P xs

-- Whatever `colorCode` and the colour were before.
abbrev pub Selects : List ℕ × ℕ → Type 0
Selects (name, c) =
    (code : ℕ → ℕ) (color : ℕ) → check_vga_colors color_names (named name code) color ≡ c

-- Each of the sixteen names selects its own colour, whatever stands in `colorCode` behind the name,
-- which the code does not end with a NUL.
check_vga_colors-named : Each Selects color_names
unfolding check_vga_colors names_color named filled
check_vga_colors-named = (
  λ code color. refl,
  (
    λ code color. refl,
    (
      λ code color. refl,
      (
        λ code color. refl,
        (
          λ code color. refl,
          (
            λ code color. refl,
            (
              λ code color. refl,
              (
                λ code color. refl,
                (
                  λ code color. refl,
                  (
                    λ code color. refl,
                    (
                      λ code color. refl,
                      (
                        λ code color. refl,
                        (
                          λ code color. refl,
                          (λ code color. refl, (λ code color. refl, (λ code color. refl, tt))),
                        ),
                      ),
                    ),
                  ),
                ),
              ),
            ),
          ),
        ),
      ),
    ),
  ),
)

-- `$`, a name and `!` set the colour that the name selects, and the character behind the `!` is put
-- in that colour, whatever it is.
write_chars-code :
    (name rest : List ℕ) (c : ℕ) (w : Writer)
    → Lacks 33 name
    → write_chars (36 ∷ name ++ 33 ∷ c ∷ rest) (record w { place = in_text })
      ≡ write_chars rest (
          put c (record w {
            color = check_vga_colors color_names (named name w.color_code) w.color;
            color_code = named name w.color_code;
          }))
unfolding write_chars write_at end_code named put
write_chars-code name rest c w lacks =
    write_chars-name name (c ∷ rest) 0 w lacks
    ∙ ap
        (λ (n : ℕ).
          write_chars (c ∷ rest)
            (end_code n (record w { color_code = filled name 0 w.color_code })))
        (from_zero (length name))
  where
    from_zero : (n : ℕ) → 0 + n ≡ n
    from_zero n = omega arith
