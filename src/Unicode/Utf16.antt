-- ===== src/Unicode/Utf16.antt =====
-- `toUtf8` of a UTF-16 string: right on well-formed strings, but for the surrogate 0xd800.
use mathlib.Core.List.{append_assoc, append-nil}
use mayv.Prelude.{
  ℕ, zero, suc, ◌+◌, ◌-◌, ◌*◌, ◌/◌, ◌%◌, ◌≤◌, ◌<◌, ◌≡◌, refl, ap, true, ltb, if◌then◌else◌, arith,
  dec_lt, Option, none, some, List, [], ◌∷◌, ◌++◌, length, length-append, ◌⊎◌,
}
use mayv.Prelude.Bits.{bit_or_disjoint}
use mayv.Unicode.Encode.{
  to_utf8, words_code_point, pair_code_point, utf8_loop, is_single, utf16_to_utf8, utf16_code_point,
}

-- The UTF-16 words of a code point, by the standard.
unfoldable pub utf16_words : ℕ → List ℕ
utf16_words cp =
    if ltb cp 0x10000
    then cp ∷ []
    else (0xd800 + (cp - 0x10000) / 1024) ∷ (0xdc00 + (cp - 0x10000) % 1024) ∷ []

unfoldable pub utf16_text : List ℕ → List ℕ
utf16_text [] = []
utf16_text (cp ∷ cps) = utf16_words cp ++ utf16_text cps

unfoldable pub utf8_text : List ℕ → List ℕ
utf8_text [] = []
utf8_text (cp ∷ cps) = to_utf8 cp ++ utf8_text cps

abbrev pub Scalar : ℕ → Type 0
Scalar cp = (cp < 0x110000) × ((cp < 0xd800) ⊎ (0xe000 ≤ cp))

-- The first word of the code point is not 0xd800.
abbrev pub Served : ℕ → Type 0
Served cp = (cp < 0x10000) ⊎ (0x10400 ≤ cp)

abbrev pub AllServed : List ℕ → Type 0
AllServed [] = Unit {0}
AllServed (cp ∷ cps) = Scalar cp × Served cp × AllServed cps

pair_code_point_lem :
    (x y : ℕ) → y < 1024 → pair_code_point (0xd800 + x) (0xdc00 + y) ≡ x * 1024 + y + 0x10000
unfolding pair_code_point
pair_code_point_lem x y h = rw (high, low, bit_or_disjoint 10 x y h) refl
  where
    high : 0xd800 + x - 0xd800 ≡ x
    high = omega arith

    low : 0xdc00 + y - 0xdc00 ≡ y
    low = omega arith

-- `toCodePoint` of the words of a code point above 0xffff gives it back, 0xd800 included.
words_code_point-words :
    (cp : ℕ)
    → 0x10000 ≤ cp
    → cp < 0x110000
    → words_code_point (0xd800 + (cp - 0x10000) / 1024) (0xdc00 + (cp - 0x10000) % 1024) ≡ cp
unfolding words_code_point
words_code_point-words cp lo hi =
    ground
      (arith, pair_code_point_lem ((cp - 0x10000) / 1024) ((cp - 0x10000) % 1024) (omega arith))

-- `toCodePoint` of the UTF-16 string of one code point gives it back.
pub utf16_code_point-utf16_words : (cp : ℕ) → Scalar cp → utf16_code_point (utf16_words cp) ≡ cp
unfolding utf16_words utf16_code_point
utf16_code_point-utf16_words cp s =
    ground
      (arith, pair_code_point_lem ((cp - 0x10000) / 1024) ((cp - 0x10000) % 1024) (omega arith))

single : (cp : ℕ) → cp < 0x10000 → Scalar cp → is_single cp ≡ true
single cp h s = ground arith

word_value : (cp : ℕ) → cp < 0x10000 → Scalar cp → words_code_point cp 0 ≡ cp
unfolding words_code_point
word_value cp h s = ground arith

-- one round of the loop, on one word and on two
round_single :
    (fuel cp : ℕ) (out rest : List ℕ)
    → cp < 0x10000
    → Scalar cp
    → utf8_loop (suc fuel) out (cp ∷ rest) ≡ utf8_loop fuel (out ++ to_utf8 cp) rest
unfolding utf8_loop
round_single fuel cp out rest h s =
    rw (utf8_loop, single cp h s)
      (ap (λ w. utf8_loop fuel (out ++ to_utf8 w) rest) (word_value cp h s))

round_pair :
    (fuel cp : ℕ) (out rest : List ℕ)
    → 0x10400 ≤ cp
    → cp < 0x110000
    → utf8_loop
        (suc fuel)
        out
        ((0xd800 + (cp - 0x10000) / 1024) ∷ (0xdc00 + (cp - 0x10000) % 1024) ∷ rest)
      ≡ utf8_loop fuel (out ++ to_utf8 cp) rest
unfolding utf8_loop
round_pair fuel cp out rest lo hi = ground (arith, words_code_point-words cp (omega arith) hi)

utf16_words_1 : (cp : ℕ) → cp < 0x10000 → utf16_words cp ≡ cp ∷ []
unfolding utf16_words
utf16_words_1 cp h = ground arith

utf16_words_2 :
    (cp : ℕ)
    → 0x10000 ≤ cp
    → utf16_words cp ≡ (0xd800 + (cp - 0x10000) / 1024) ∷ (0xdc00 + (cp - 0x10000) % 1024) ∷ []
unfolding utf16_words
utf16_words_2 cp h = ground arith

words_length : (cp : ℕ) → 0 < length (utf16_words cp)
unfolding utf16_words
words_length cp = ground arith

-- one code point at the front
step_text :
    (cp fuel : ℕ) (out rest : List ℕ) (answer : Option (List ℕ))
    → Scalar cp
    → Served cp
    → length (utf16_words cp ++ rest) ≤ fuel
    → ((f : ℕ) → length rest ≤ f → utf8_loop f (out ++ to_utf8 cp) rest ≡ answer)
    → utf8_loop fuel out (utf16_words cp ++ rest) ≡ answer
step_text cp zero out rest answer s v room next =
    absurd (omega (arith, words_length cp, length-append (utf16_words cp) rest))
step_text cp (suc fuel) out rest answer s v room next = elim (dec_lt cp 0x10000) [
  | yes p ↦
      rw (utf16_words_1 cp p, round_single fuel cp out rest p s)
        (next fuel
          (omega (arith, ap length (utf16_words_1 cp p), length-append (utf16_words cp) rest)))
  | no p ↦
      rw (utf16_words_2 cp (omega arith), round_pair fuel cp out rest (omega arith) s.0)
        (next fuel (
          omega (
            arith,
            ap length (utf16_words_2 cp (omega arith)),
            length-append (utf16_words cp) rest,
          )))
]

utf8_loop-text :
    (cps : List ℕ) (fuel : ℕ) (out : List ℕ)
    → AllServed cps
    → length (utf16_text cps) ≤ fuel
    → utf8_loop fuel out (utf16_text cps) ≡ some (out ++ utf8_text cps)
unfolding utf16_text utf8_text
utf8_loop-text [] zero out v room = unfold utf8_loop in rw append-nil
utf8_loop-text [] (suc fuel) out v room = unfold utf8_loop in rw append-nil
utf8_loop-text (cp ∷ cps) fuel out (s, served, v) room =
    step_text cp fuel out (utf16_text cps) _ s served room
      (λ f enough. rw (← append_assoc) (utf8_loop-text cps f (out ++ to_utf8 cp) v enough))

-- `toUtf8` of the UTF-16 form of a text is its UTF-8 form, where no code point of the text begins
-- with the word 0xd800.
pub utf16_to_utf8-text :
    (cps : List ℕ) → AllServed cps → utf16_to_utf8 (utf16_text cps) ≡ some (utf8_text cps)
unfolding utf16_to_utf8
utf16_to_utf8-text cps v = utf8_loop-text cps (length (utf16_text cps)) [] v (omega arith)

-- `toUtf8` panics on the UTF-16 form of every code point from 0x10000 to 0x103ff, whose first word is
-- 0xd800.
pub utf16_to_utf8-panics :
    (cp : ℕ) → 0x10000 ≤ cp → cp < 0x10400 → utf16_to_utf8 (utf16_words cp) ≡ none
unfolding utf16_to_utf8 utf8_loop
utf16_to_utf8-panics cp lo hi = rw (utf16_words_2 cp lo) (ground arith)
