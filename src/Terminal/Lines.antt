-- ===== src/Terminal/Lines.antt =====
-- What clearing a line and scrolling leave in the video memory.
use mayv.Prelude.{
  ℕ, zero, suc, ◌+◌, ◌-◌, ◌*◌, ◌/◌, ◌%◌, ◌≤◌, ◌<◌, ◌≡◌, refl, ap, Bool, true, ◌&&◌, ltb, leb, ◌==◌,
  if◌then◌else◌, arith, inl,
}
use mayv.Prelude.Memory.{update}
use mayv.Prelude.Bits.{all_below, all_below_sound}
use mayv.LibC.Strings.{Memory}
use mayv.LibC.Copying.{memcpy}
use mayv.LibC.CopyLaws.{memcpy_lem}
use mayv.Terminal.Screen.{
  Terminal, blank_word, write_bytes, fill_words, clear_line, clear_bottom, scroll,
}

-- The word's `left` lowest bytes are `x` and `y` in turn.
abbrev Turns : ℕ → ℕ → ℕ → ℕ → Type 0
Turns zero cells x y = Unit {0}
Turns (suc left) cells x y = (cells % 256 ≡ x) × Turns left (cells / 256) y x

-- Bytes that are `x` and `y` in turn, on `size` bytes from `addr` on.
abbrev pub turns : Memory → ℕ → ℕ → ℕ → ℕ → Memory
turns mem addr size x y a =
    if leb addr a && ltb a (addr + size) then (if (a - addr) % 2 == 0 then x else y) else mem a

write_bytes_lem :
    (left : ℕ) (mem : Memory) (addr cells x y a : ℕ)
    → Turns left cells x y
    → write_bytes left mem addr cells a ≡ turns mem addr left x y a
unfolding write_bytes
write_bytes_lem zero mem addr cells x y a h = ground arith
write_bytes_lem (suc left) mem addr cells x y a (lowest, h) = ground (
  arith,
  lowest,
  write_bytes_lem left (update mem addr (cells % 256)) (addr + 1) (cells / 256) y x a h,
)

fill_words_lem :
    (left : ℕ) (mem : Memory) (addr cells x y a : ℕ)
    → Turns 8 cells x y
    → fill_words left mem addr cells a ≡ turns mem addr (left * 8) x y a
unfolding fill_words
fill_words_lem zero mem addr cells x y a h = ground arith
fill_words_lem (suc left) mem addr cells x y a h = ground (
  arith,
  fill_words_lem left (write_bytes 8 mem addr cells) (addr + 8) cells x y a h,
  write_bytes_lem 8 mem addr cells x y a h,
)

abbrev turns_test : ℕ → ℕ → ℕ → ℕ → Bool
turns_test zero cells x y = true
turns_test (suc left) cells x y = cells % 256 == x && turns_test left (cells / 256) y x

turns_test-Turns : (left cells x y : ℕ) → turns_test left cells x y ≡ true → Turns left cells x y
turns_test-Turns zero cells x y h = tt
turns_test-Turns (suc left) cells x y h =
    (ground (arith, h), turns_test-Turns left (cells / 256) y x (ground (arith, h)))

blank_table : all_below (λ colour. turns_test 8 (blank_word colour) 0x20 colour) 256 ≡ true
unfolding all_below blank_word
blank_table = refl

blank_word-Turns : (colour : ℕ) → colour < 256 → Turns 8 (blank_word colour) 0x20 colour
blank_word-Turns colour h =
    turns_test-Turns 8 (blank_word colour) 0x20 colour
      (all_below_sound (λ c. turns_test 8 (blank_word c) 0x20 c) 256 colour blank_table h)

-- `terminalClearLine` writes a space and the current colour, a byte, into every cell of the line, and
-- nothing else.
pub clear_line_lem :
    (t : Terminal) (line a : ℕ)
    → t.colour < 256
    → (clear_line t line).memory a ≡ turns t.memory (0xb8000 + line * 160) 160 0x20 t.colour a
unfolding clear_line
clear_line_lem t line a h = ground (
  arith,
  fill_words_lem 20 t.memory (0xb8000 + line * 80 * 2) (blank_word t.colour) 0x20 t.colour a
      (blank_word-Turns t.colour h),
)

cell_below : (mem : Memory) (a : ℕ) → 0xb8000 ≤ a → mem (753824 + (a - 0xb8000)) ≡ mem (a + 160)
cell_below mem a h = same_cell (753824 + (a - 0xb8000)) (a + 160) (omega (arith, h))
  where
    same_cell : (i j : ℕ) → i ≡ j → mem i ≡ mem j
    same_cell i j e = ap mem e

-- Scrolling by one line, with a colour that is a byte, moves every line but the first one up, blanks
-- the last line, and leaves all memory but the screen as it was.
pub scroll_lem :
    (t : Terminal) (a : ℕ)
    → t.colour < 256
    → (scroll t 1).memory a ≡ (
        if leb 0xb8000 a && ltb a (0xb8000 + 24 * 160)
        then t.memory (a + 160)
        else turns t.memory (0xb8000 + 24 * 160) 160 0x20 t.colour a)
unfolding scroll clear_bottom
scroll_lem t a h =
    let moved : Terminal = record t { memory = memcpy t.memory 0xb8000 753824 3840 } in
    ground (
      arith,
      clear_line_lem moved 24 a h,
      memcpy_lem t.memory 0xb8000 753824 3840 (inl (omega arith)) a,
      cell_below t.memory a,
    )
