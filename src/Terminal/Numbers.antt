-- ===== src/Terminal/Numbers.antt =====
-- src/boot/terminal.cpp: `terminalPrintDecimal` and `terminalPrintHex`. A signed number of 64 bits is
-- given by its bits.
use mayv.Prelude.{
  ℕ, zero, suc, ◌+◌, ◌-◌, ◌*◌, ◌/◌, ◌%◌, ◌^◌, ◌<◌, ◌≡◌, refl, ap, sym, ◌∙◌, Bool, false, ltb, leb,
  ◌==◌, if◌then◌else◌, if_elim, arith, inl, inr, Bool-cases, ℕ_discrete, List, [], ◌∷◌, ◌++◌,
}
use native.Mathlib.Nat.{pow-suc}
use mayv.Terminal.Screen.{Terminal, print_char, print_string}

-- `hexPalette[digit]`
abbrev pub hex_palette : ℕ → ℕ
hex_palette digit = if ltb digit 10 then 48 + digit else 87 + digit

abbrev pub is_negative : ℕ → Bool
is_negative value = leb (2 ^ 63) value

-- `v`
abbrev pub magnitude : ℕ → ℕ
magnitude value = if is_negative value then 2 ^ 64 - value else value

-- The digits of the array, the lowest first, at most so many.
unfoldable pub digits_of : ℕ → ℕ → List ℕ
digits_of zero v = []
digits_of (suc left) v = let rest = digits_of left (v / 10) in if v == 0 then [] else v % 10 ∷ rest

-- The loop that prints the array from its end.
unfoldable pub print_digits : Terminal → List ℕ → Terminal
print_digits t [] = t
print_digits t (digit ∷ digits) = print_char (print_digits t digits) (hex_palette digit)

-- `terminalPrintDecimal`; the array has 24 bytes.
unfoldable pub print_decimal : Terminal → ℕ → Terminal
print_decimal t value =
    if value == 0
    then print_char t 0x30
    else let signed = if is_negative value then print_char t 0x2d else t in
      print_digits signed (digits_of 24 (magnitude value))

-- The characters of the bytes of a value, given the lowest byte first.
unfoldable pub hex_value : List ℕ → List ℕ
hex_value [] = []
hex_value (x ∷ bytes) = hex_value bytes ++ hex_palette (x / 16 % 16) ∷ hex_palette (x % 16) ∷ []

-- `terminalPrintHex`
unfoldable pub print_hex : Terminal → List ℕ → Terminal
print_hex t value =
    print_char (print_string (print_string t (0x5b ∷ 0x30 ∷ 0x78 ∷ [])) (hex_value value)) 0x5d

-- The text of digits, the lowest first.
text_of : List ℕ → List ℕ
text_of [] = []
text_of (digit ∷ digits) = text_of digits ++ hex_palette digit ∷ []

-- The number that decimal digits stand for, read from the left.
unfoldable pub read_decimal : ℕ → List ℕ → ℕ
read_decimal so_far [] = so_far
read_decimal so_far (c ∷ text) = read_decimal (so_far * 10 + (c - 0x30)) text

print_string-append :
    (t : Terminal) (xs ys : List ℕ)
    → print_string t (xs ++ ys) ≡ print_string (print_string t xs) ys
unfolding print_string
print_string-append t [] ys = refl
print_string-append t (x ∷ xs) ys = print_string-append (print_char t x) xs ys

read_decimal-append :
    (so_far : ℕ) (xs : List ℕ) (c : ℕ)
    → read_decimal so_far (xs ++ c ∷ []) ≡ read_decimal so_far xs * 10 + (c - 0x30)
unfolding read_decimal
read_decimal-append so_far [] c = refl
read_decimal-append so_far (x ∷ xs) c = read_decimal-append (so_far * 10 + (x - 0x30)) xs c

print_digits-text :
    (t : Terminal) (digits : List ℕ) → print_digits t digits ≡ print_string t (text_of digits)
unfolding print_digits print_string text_of
print_digits-text t [] = refl
print_digits-text t (digit ∷ digits) =
    ap (λ (x : Terminal). print_char x (hex_palette digit)) (print_digits-text t digits)
    ∙ sym (print_string-append t (text_of digits) (hex_palette digit ∷ []))

read_decimal-digits_of :
    (left v : ℕ) → v < 10 ^ left → read_decimal 0 (text_of (digits_of left v)) ≡ v
unfolding digits_of read_decimal text_of
read_decimal-digits_of zero v small = omega (arith, small)
read_decimal-digits_of (suc left) v small =
    if_elim (λ (digits : List ℕ). read_decimal 0 (text_of digits) ≡ v) (v == 0)
      (λ none_left. ground (arith, none_left))
      (λ more.
        read_decimal-append 0 (text_of (digits_of left (v / 10))) (hex_palette (v % 10))
        ∙ ap (λ (n : ℕ). n * 10 + (hex_palette (v % 10) - 0x30))
            (read_decimal-digits_of left (v / 10) (omega (arith, small, pow-suc 10 left)))
        ∙ ground arith)

-- The sign that is printed
abbrev pub sign : ℕ → List ℕ
sign value = if is_negative value then 0x2d ∷ [] else []

print_signed :
    (t : Terminal) (value : ℕ)
    → value < 2 ^ 64
    → 0 < value
    → (text : List ℕ) × (print_decimal t value ≡ print_string t (sign value ++ text))
      × (read_decimal 0 text ≡ magnitude value)
unfolding print_decimal print_string
print_signed t value small proper =
    let digits = digits_of 24 (magnitude value) in
    let test : (value == 0) ≡ false = ground (arith, proper) in
    (
      text_of digits,
      elim (Bool-cases (is_negative value)) [
        | inl minus ↦
            rw (test, minus) (print_digits-text (print_char t 0x2d) (digits_of 24 (2 ^ 64 - value)))
        | inr plus ↦ rw (test, plus) (print_digits-text t (digits_of 24 value))
      ],
      read_decimal-digits_of 24 (magnitude value) (ground (arith, small)),
    )

-- `terminalPrintDecimal` prints a minus sign if the number is negative, and behind it a text that
-- reads back as the absolute value of the number.
pub print_decimal-read :
    (t : Terminal) (value : ℕ)
    → value < 2 ^ 64
    → (text : List ℕ) × (print_decimal t value ≡ print_string t (sign value ++ text))
      × (read_decimal 0 text ≡ magnitude value)
unfolding print_decimal print_string read_decimal
print_decimal-read t value small = elim (ℕ_discrete value 0) [
  | yes at ↦ (0x30 ∷ [], rw at refl, rw at refl)
  | no other ↦ print_signed t value small (omega (arith, other))
]
