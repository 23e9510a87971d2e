-- ===== src/Terminal/Cursor.antt =====
-- Where printing leaves the cursor.
use mayv.Prelude.{ℕ, ◌≤◌, ◌<◌, ◌||◌, leb, ◌==◌, if◌then◌else◌, if_elim, arith}
use mayv.Terminal.Screen.{
  Terminal, output_byte, set_cursor_position, put_cell, wrap_line, wrap_screen, print_char,
}

-- The cursor is on the screen.
abbrev pub OnScreen : Terminal → Type 0
OnScreen t = (t.cursor_x < 80) × (t.cursor_y < 25)

set_cursor_position-OnScreen :
    (t : Terminal) → OnScreen t → OnScreen (set_cursor_position t t.cursor_x t.cursor_y)
unfolding set_cursor_position output_byte
set_cursor_position-OnScreen t (x, y) =
    if_elim OnScreen (leb 80 t.cursor_x || leb 25 t.cursor_y) (λ e. (x, y)) (λ e. (x, y))

wrap_line-bounds :
    (t : Terminal) (c : ℕ)
    → t.cursor_x ≤ 80
    → t.cursor_y < 25
    → ((wrap_line t c).cursor_x < 80) × ((wrap_line t c).cursor_y ≤ 25)
unfolding wrap_line
wrap_line-bounds t c x y =
    if_elim {A = Terminal} (λ r. (r.cursor_x < 80) × (r.cursor_y ≤ 25))
      (leb 80 t.cursor_x || c == 0x0a) (λ e. (omega arith, omega (arith, y)))
      (λ e. (ground (arith, x), omega (arith, y)))

wrap_screen-OnScreen : (t : Terminal) → t.cursor_x < 80 → t.cursor_y ≤ 25 → OnScreen (wrap_screen t)
unfolding wrap_screen
wrap_screen-OnScreen t x y =
    if_elim OnScreen (leb 25 t.cursor_y) (λ e. (omega arith, omega arith))
      (λ e. (x, ground (arith, y)))

put_bounds :
    (t : Terminal) (c : ℕ)
    → OnScreen t
    → let put = if c == 0x0a then t else put_cell t c in (put.cursor_x ≤ 80) × (put.cursor_y < 25)
unfolding put_cell
put_bounds t c (x, y) =
    if_elim {A = Terminal} (λ r. (r.cursor_x ≤ 80) × (r.cursor_y < 25)) (c == 0x0a)
      (λ e. (omega (arith, x), y)) (λ e. (omega (arith, x), y))

-- `terminalPrintChar` leaves the cursor on the screen, wherever it was before.
pub print_char-OnScreen : (t : Terminal) (c : ℕ) → OnScreen (print_char t c)
unfolding print_char
print_char-OnScreen t c =
    if_elim OnScreen (leb 80 t.cursor_x || leb 25 t.cursor_y) (λ e. (omega arith, omega arith))
      (λ e.
        let put : Terminal = if c == 0x0a then t else put_cell t c in
        let (x, y) = put_bounds t c (ground arith, ground arith) in
        let (x', y') = wrap_line-bounds put c x y in
        set_cursor_position-OnScreen (wrap_screen (wrap_line put c))
          (wrap_screen-OnScreen (wrap_line put c) x' y'))
