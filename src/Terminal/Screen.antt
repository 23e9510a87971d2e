-- ===== src/Terminal/Screen.antt =====
-- src/boot/terminal.cpp: the cursor, the lines of the screen, and printing. The static variables are
-- the record Terminal; `memory` is all memory by addresses, and `ports` the bytes written to I/O ports,
-- the last one first. The lock around `terminalPrintString` is left out.
use mayv.Prelude.{
  ℕ, zero, suc, ◌+◌, ◌-◌, ◌*◌, ◌/◌, ◌%◌, ◌^◌, ◌||◌, leb, ◌==◌, if◌then◌else◌, List, [], ◌∷◌,
}
use Prim.Native.Nat.{bit_or, bit_and}
use mayv.Prelude.Memory.{update}
use mayv.LibC.Strings.{Memory}
use mayv.LibC.Copying.{memcpy}

pub record Terminal : Type 0 where
  pub memory : Memory
  pub cursor_x : ℕ
  pub cursor_y : ℕ
  pub text_colour : ℕ
  pub bg_colour : ℕ
  pub colour : ℕ
  pub ports : List (ℕ × ℕ)

abbrev pub video_memory : ℕ
video_memory = 0xb8000

abbrev pub vga_width : ℕ
vga_width = 80

abbrev pub vga_height : ℕ
vga_height = 25

abbrev pub video_mem_size : ℕ
video_mem_size = vga_width * vga_height * 2

-- `currentBgColour << 4 | currentTextColour`, on a byte
abbrev pub mixed : ℕ → ℕ → ℕ
mixed bg text = bit_or (bg * 2 ^ 4) text % 256

unfoldable pub set_bg_colour : Terminal → ℕ → Terminal
set_bg_colour t colour = record t { bg_colour = colour; colour = mixed colour t.text_colour }

unfoldable pub set_text_colour : Terminal → ℕ → Terminal
set_text_colour t colour = record t { text_colour = colour; colour = mixed t.bg_colour colour }

-- `IO::outputByte`
unfoldable pub output_byte : ℕ → ℕ → Terminal → Terminal
output_byte port value t = record t { ports = (port, value) ∷ t.ports }

unfoldable pub set_cursor_position : Terminal → ℕ → ℕ → Terminal
set_cursor_position t x y =
    if leb vga_width x || leb vga_height y
    then t
    else let position = y * vga_width + x in
      output_byte 0x3d5 (bit_and (position / 2 ^ 8) 0xff) (
        output_byte 0x3d4 0x0e (
          output_byte 0x3d5 (bit_and position 0xff)
            (output_byte 0x3d4 0x0f (record t { cursor_x = x; cursor_y = y }))))

-- One round of the loop that builds the word of four blank cells.
abbrev pub blank_round : ℕ → ℕ → ℕ
blank_round colour cells = bit_or (bit_or (cells * 2 ^ 8 % 2 ^ 64) colour * 2 ^ 8 % 2 ^ 64) 0x20

unfoldable pub blank_word : ℕ → ℕ
blank_word colour =
    blank_round colour (blank_round colour (blank_round colour (blank_round colour 0)))

-- The lowest byte first.
unfoldable pub write_bytes : ℕ → Memory → ℕ → ℕ → Memory
write_bytes zero mem addr cells = mem
write_bytes (suc left) mem addr cells =
    write_bytes left (update mem addr (cells % 256)) (addr + 1) (cells / 256)

-- `*lineAddress = cells`, from `lineAddress` on with `left` words to go
unfoldable pub fill_words : ℕ → Memory → ℕ → ℕ → Memory
fill_words zero mem addr cells = mem
fill_words (suc left) mem addr cells =
    fill_words left (write_bytes 8 mem addr cells) (addr + 8) cells

unfoldable pub clear_line : Terminal → ℕ → Terminal
clear_line t line = record t {
  memory = fill_words 20 t.memory (video_memory + line * vga_width * 2) (blank_word t.colour);
}

-- Lines `i` and on, `left` of them.
unfoldable pub clear_lines : ℕ → Terminal → ℕ → Terminal
clear_lines zero t i = t
clear_lines (suc left) t i = clear_lines left (clear_line t i) (i + 1)

unfoldable pub clear_screen : Terminal → Terminal
clear_screen t =
    set_cursor_position (record (clear_lines vga_height t 0) { cursor_x = 0; cursor_y = 0 }) 0 0

-- The loop of `terminalScroll` from `i` on.
unfoldable pub clear_bottom : ℕ → Terminal → ℕ → Terminal
clear_bottom zero t i = t
clear_bottom (suc left) t i = clear_bottom left (clear_line t (vga_height - i - 1)) (i + 1)

unfoldable pub scroll : Terminal → ℕ → Terminal
scroll t line_count =
    let count = line_count * vga_width * 2 in
    clear_bottom line_count
      (record t {
        memory = memcpy t.memory video_memory (video_memory + count) (video_mem_size - count);
      })
      0

-- The character and its colour in the cell under the cursor, and the cursor behind it.
unfoldable pub put_cell : Terminal → ℕ → Terminal
put_cell t c =
    let index = (t.cursor_y * vga_width + t.cursor_x) * 2 in
    record t {
      memory =
          update (update t.memory (video_memory + index) c) (video_memory + index + 1) t.colour;
      cursor_x = t.cursor_x + 1;
    }

-- The cursor at the start of the next line, if it left this one.
unfoldable pub wrap_line : Terminal → ℕ → Terminal
wrap_line t c =
    if leb vga_width t.cursor_x || c == 0x0a
    then record t { cursor_x = 0; cursor_y = t.cursor_y + 1 }
    else t

-- The screen scrolled, if the cursor left it.
unfoldable pub wrap_screen : Terminal → Terminal
wrap_screen t =
    if leb vga_height t.cursor_y
    then record (scroll t 1) { cursor_x = 0; cursor_y = vga_height - 1 }
    else t

unfoldable pub print_char : Terminal → ℕ → Terminal
print_char t c =
    if leb vga_width t.cursor_x || leb vga_height t.cursor_y
    then record t { cursor_x = 0; cursor_y = 0 }
    else let put = if c == 0x0a then t else put_cell t c in
      let moved = wrap_screen (wrap_line put c) in
      set_cursor_position moved moved.cursor_x moved.cursor_y

-- The characters at `str`.
unfoldable pub print_string : Terminal → List ℕ → Terminal
print_string t [] = t
print_string t (c ∷ str) = print_string (print_char t c) str
