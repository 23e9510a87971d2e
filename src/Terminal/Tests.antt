-- ===== src/Terminal/Tests.antt =====
-- Runs of the screen functions, and their theorems at concrete screens.
use mayv.Prelude.{ℕ, List, ◌∷◌, ◌-◌, ◌^◌, ◌+◌, ◌*◌, ◌%◌, ◌≡◌, refl, arith, []}
use mayv.LibC.Copying.{memcpy}
use mayv.Terminal.Screen.{
  Terminal, set_bg_colour, set_text_colour, output_byte, set_cursor_position, blank_word,
  write_bytes, fill_words, clear_line, clear_lines, clear_screen, clear_bottom, scroll, put_cell,
  wrap_line, wrap_screen, print_char, print_string,
}
use mayv.Terminal.Cursor.{OnScreen, print_char-OnScreen}
use mayv.Terminal.Numbers.{digits_of, magnitude, print_decimal, read_decimal, print_decimal-read}
use mayv.Terminal.Lines.{turns, clear_line_lem, scroll_lem}

program : Unit {0}
unfolding set_bg_colour set_text_colour output_byte set_cursor_position blank_word write_bytes
    fill_words clear_line clear_lines clear_screen clear_bottom scroll put_cell wrap_line
    wrap_screen print_char print_string memcpy
program = tt

-- The cursor in the last cell but one, white on black.
abbrev last_cells : Terminal
last_cells = record {
  memory = λ a. a % 256;
  cursor_x = 78;
  cursor_y = 24;
  text_colour = 15;
  bg_colour = 0;
  colour = 15;
  ports = [];
}

printed :
    ((print_char last_cells 0x41).memory 757660 ≡ 0x41)
    × ((print_char last_cells 0x41).cursor_x ≡ 79)
unfolding program
printed = (refl, refl)

-- A new line on the last line scrolls, and puts the cursor at its start.
new_line :
    ((print_char last_cells 0x0a).cursor_x ≡ 0) × ((print_char last_cells 0x0a).cursor_y ≡ 24)
unfolding program
new_line = (refl, refl)

print_char-OnScreen_example : OnScreen (print_char last_cells 0x41)
print_char-OnScreen_example = print_char-OnScreen last_cells 0x41

clear_line_lem_example :
    (clear_line last_cells 2).memory 753985
    ≡ turns last_cells.memory (0xb8000 + 2 * 160) 160 0x20 15 753985
clear_line_lem_example = clear_line_lem last_cells 2 753985 (omega arith)

scroll_lem_example : (scroll last_cells 1).memory 753700 ≡ last_cells.memory 753860
scroll_lem_example = scroll_lem last_cells 753700 (omega arith)

minus_170 : digits_of 24 (magnitude (2 ^ 64 - 170)) ≡ 0 ∷ 7 ∷ 1 ∷ []
unfolding digits_of
minus_170 = refl

print_decimal-read_example :
    (text : List ℕ) × (print_decimal last_cells (2 ^ 64 - 170)
      ≡ print_string last_cells (0x2d ∷ text))
    × (read_decimal 0 text ≡ 170)
print_decimal-read_example = print_decimal-read last_cells (2 ^ 64 - 170) (omega arith)
