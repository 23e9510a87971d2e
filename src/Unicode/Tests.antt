-- ===== src/Unicode/Tests.antt =====
-- Runs of the Unicode functions, and their theorems at concrete inputs.
use mayv.Prelude.{◌≡◌, refl, true, false, arith, inl, inr, none, some, [], ◌∷◌, ◌++◌, ◌↔◌}
use mayv.Unicode.Encode.{
  to_utf8, words_code_point, pair_code_point, utf16_code_point, utf8_loop, utf16_to_utf8,
}
use mayv.Unicode.Decode.{
  is_ascii, is_lead2, is_lead3, is_lead4, is_continuation, to_code_point, sequence_length,
  valid_loop, is_valid_utf8,
}
use mayv.Unicode.RoundTrip.{to_code_point-to_utf8}
use mayv.Unicode.Grammar.{Framed, is_valid_utf8-Framed}
use mayv.Unicode.Strict.{Utf8, octets, to_utf8-Utf8}
use mayv.Unicode.Utf16.{
  utf16_words, utf16_text, utf8_text, utf16_code_point-utf16_words, utf16_to_utf8-text,
  utf16_to_utf8-panics,
}

program : Unit {0}
unfolding to_utf8 words_code_point pair_code_point utf16_code_point utf8_loop utf16_to_utf8 is_ascii
    is_lead2 is_lead3 is_lead4 is_continuation to_code_point sequence_length valid_loop
    is_valid_utf8 utf16_words utf16_text utf8_text
program = tt

euro :
    (to_utf8 0x20ac ≡ 0xe2 ∷ 0x82 ∷ 0xac ∷ []) × (to_code_point (0xe2 ∷ 0x82 ∷ 0xac ∷ []) ≡ 0x20ac)
unfolding program
euro = (refl, refl)

-- a lead byte alone, and a sequence cut short
malformed :
    (is_valid_utf8 (0x61 ∷ 0xc3 ∷ []) ≡ false) × (to_code_point (0xe2 ∷ 0x82 ∷ []) ≡ 0xffffffff)
unfolding program
malformed = (refl, refl)

-- An overlong form, a surrogate and a code point from 0x110000 on are accepted.
accepted :
    (is_valid_utf8 (0xc0 ∷ 0x80 ∷ []) ≡ true)
    × (is_valid_utf8 (0xed ∷ 0xa0 ∷ 0x80 ∷ []) ≡ true)
    × (is_valid_utf8 (0xf7 ∷ 0xbf ∷ 0xbf ∷ 0xbf ∷ []) ≡ true)
unfolding program
accepted = (refl, refl, refl)

text_runs :
    utf16_to_utf8 (0x61 ∷ 0xd83d ∷ 0xde00 ∷ []) ≡ some (0x61 ∷ 0xf0 ∷ 0x9f ∷ 0x98 ∷ 0x80 ∷ [])
unfolding program
text_runs = refl

to_code_point-to_utf8_example : to_code_point (to_utf8 0x1f600) ≡ 0x1f600
to_code_point-to_utf8_example = to_code_point-to_utf8 0x1f600 (omega arith)

is_valid_utf8-Framed_example :
    (is_valid_utf8 (0x61 ∷ 0xc3 ∷ 0xa9 ∷ []) ≡ true) ↔ Framed (0x61 ∷ 0xc3 ∷ 0xa9 ∷ [])
is_valid_utf8-Framed_example = is_valid_utf8-Framed (0x61 ∷ 0xc3 ∷ 0xa9 ∷ []) (omega arith)

to_utf8-Utf8_example : Utf8 (to_utf8 0x20ac ++ []) × (is_valid_utf8 (to_utf8 0x20ac ++ []) ≡ true)
to_utf8-Utf8_example = to_utf8-Utf8 0x20ac [] (inl (omega arith)) octets

utf16_code_point-utf16_words_example : utf16_code_point (utf16_words 0x10000) ≡ 0x10000
utf16_code_point-utf16_words_example =
    utf16_code_point-utf16_words 0x10000 (omega arith, inr (omega arith))

utf16_to_utf8-text_example :
    utf16_to_utf8 (utf16_text (0x61 ∷ 0x1f600 ∷ [])) ≡ some (utf8_text (0x61 ∷ 0x1f600 ∷ []))
utf16_to_utf8-text_example = utf16_to_utf8-text (0x61 ∷ 0x1f600 ∷ []) (
  (omega arith, inl (omega arith)),
  inl (omega arith),
  ((omega arith, inr (omega arith)), inr (omega arith), tt),
)

utf16_to_utf8-panics_example : utf16_to_utf8 (utf16_words 0x10000) ≡ none
utf16_to_utf8-panics_example = utf16_to_utf8-panics 0x10000 (omega arith) (omega arith)
