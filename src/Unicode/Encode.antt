-- ===== src/Unicode/Encode.antt =====
-- src/boot/unicode.cpp: `toUtf8` of a code point, and `toCodePoint` and `toUtf8` of UTF-16.
use Prim.Native.Nat.{bit_and, bit_or}
use mayv.Prelude.{
  ℕ, zero, suc, ◌+◌, ◌-◌, ◌*◌, ◌/◌, ◌^◌, Bool, ◌&&◌, ◌||◌, ltb, leb, ◌==◌, if◌then◌else◌, Option,
  none, some, List, [], ◌∷◌, ◌++◌, length, get_or, drop,
}

-- `UINT32_MAX`, the answer to a malformed sequence
abbrev pub no_code_point : ℕ
no_code_point = 2 ^ 32 - 1

-- `toUtf8(uint32_t)`
unfoldable pub to_utf8 : ℕ → List ℕ
to_utf8 code_point =
    if ltb code_point 0x80
    then code_point ∷ []
    else if ltb code_point 0x800
    then bit_or 0xc0 (bit_and (code_point / 2 ^ 6) 0x1f)
      ∷ bit_or 0x80 (bit_and code_point 0x3f)
      ∷ []
    else if ltb code_point 0x10000
    then bit_or 0xe0 (bit_and (code_point / 2 ^ 12) 0x0f)
      ∷ bit_or 0x80 (bit_and (code_point / 2 ^ 6) 0x3f)
      ∷ bit_or 0x80 (bit_and code_point 0x3f)
      ∷ []
    else if ltb code_point 0x110000
    then bit_or 0xf0 (bit_and (code_point / 2 ^ 18) 0x07)
      ∷ bit_or 0x80 (bit_and (code_point / 2 ^ 12) 0x3f)
      ∷ bit_or 0x80 (bit_and (code_point / 2 ^ 6) 0x3f)
      ∷ bit_or 0x80 (bit_and code_point 0x3f)
      ∷ []
    else []

-- `0xd800 >= word || 0xe000 <= word`
abbrev pub is_single : ℕ → Bool
is_single word = leb word 0xd800 || leb 0xe000 word

abbrev pub is_high_surrogate : ℕ → Bool
is_high_surrogate word = leb 0xd800 word && leb word 0xdbff

abbrev pub is_low_surrogate : ℕ → Bool
is_low_surrogate word = leb 0xdc00 word && leb word 0xdfff

-- the code point of a surrogate pair
unfoldable pub pair_code_point : ℕ → ℕ → ℕ
pair_code_point word1 word2 = bit_or ((word1 - 0xd800) * 2 ^ 10) (word2 - 0xdc00) + 0x10000

-- `toCodePoint(char16_t, char16_t)`; the second word is 0 where it is left out
unfoldable pub words_code_point : ℕ → ℕ → ℕ
words_code_point word1 word2 =
    if is_single word1 && word2 == 0
    then word1
    else if is_high_surrogate word1 && is_low_surrogate word2
    then pair_code_point word1 word2
    else no_code_point

-- `toCodePoint(std::u16string)`
unfoldable pub utf16_code_point : List ℕ → ℕ
utf16_code_point (w ∷ []) = if is_single w then w else no_code_point
utf16_code_point (w ∷ v ∷ []) =
    if is_high_surrogate w && is_low_surrogate v then pair_code_point w v else no_code_point
utf16_code_point _ = no_code_point

-- The loop of `toUtf8(std::u16string)` over the words from `str[i]` on, appending to `utf8Str`.
-- `none` is the panic on a malformed string.
unfoldable pub utf8_loop : ℕ → List ℕ → List ℕ → Option (List ℕ)
utf8_loop fuel utf8 [] = some utf8
utf8_loop zero utf8 (w ∷ rest) = none
utf8_loop (suc fuel) utf8 (w ∷ rest) =
    let single = utf8_loop fuel (utf8 ++ to_utf8 (words_code_point w 0)) rest in
    let next = get_or rest 0 0 in
    let pair = utf8_loop fuel (utf8 ++ to_utf8 (words_code_point w next)) (drop 1 rest) in
    if is_single w
    then single
    else (if is_high_surrogate w && is_low_surrogate next then pair else none)

-- `toUtf8(std::u16string)`. Each round takes a word at least, so the length is enough fuel.
unfoldable pub utf16_to_utf8 : List ℕ → Option (List ℕ)
utf16_to_utf8 str = utf8_loop (length str) [] str
