-- ===== src/Unicode/RoundTrip.antt =====
-- A code point survives the way to UTF-8 and back.
use mayv.Prelude.{ℕ, ◌+◌, ◌*◌, ◌/◌, ◌%◌, ◌≤◌, ◌<◌, ◌≡◌, ◌∙◌, arith, dec_lt, [], ◌∷◌}
use mayv.Prelude.Bits.{bit_and_mask}
use mayv.Unicode.Encode.{to_utf8}
use mayv.Unicode.Decode.{to_code_point}
use mayv.Unicode.Bytes.{
  is_ascii_lem, is_lead2_lem, is_lead3_lem, is_lead4_lem, is_continuation_lem, to_utf8_1, to_utf8_2,
  to_utf8_3, to_utf8_4, join2, join3, join4,
}

-- what `to_code_point` makes of well-formed sequences
sequence1 : (a : ℕ) → a < 128 → to_code_point (a ∷ []) ≡ a
unfolding to_code_point
sequence1 a h = ground (arith, is_ascii_lem a)

sequence2 :
    (x y : ℕ) → 2 ≤ x → x < 32 → y < 64 → to_code_point ((192 + x) ∷ (128 + y) ∷ []) ≡ x * 64 + y
unfolding to_code_point
sequence2 x y hx hx' hy = ground (
  arith,
  is_ascii_lem (192 + x),
  is_lead2_lem (192 + x),
  is_continuation_lem (128 + y),
  bit_and_mask 5 (192 + x),
  bit_and_mask 6 (128 + y),
  join2 x y,
)

sequence3 :
    (x y z : ℕ)
    → x < 16
    → y < 64
    → z < 64
    → to_code_point ((224 + x) ∷ (128 + y) ∷ (128 + z) ∷ []) ≡ x * 4096 + y * 64 + z
unfolding to_code_point
sequence3 x y z hx hy hz = ground (
  arith,
  is_ascii_lem (224 + x),
  is_lead2_lem (224 + x),
  is_lead3_lem (224 + x),
  is_continuation_lem (128 + y),
  is_continuation_lem (128 + z),
  bit_and_mask 4 (224 + x),
  bit_and_mask 6 (128 + y),
  bit_and_mask 6 (128 + z),
  join3 x y z,
)

sequence4 :
    (x y z w : ℕ)
    → x < 8
    → y < 64
    → z < 64
    → w < 64
    → to_code_point ((240 + x) ∷ (128 + y) ∷ (128 + z) ∷ (128 + w) ∷ [])
      ≡ x * 262144 + y * 4096 + z * 64 + w
unfolding to_code_point
sequence4 x y z w hx hy hz hw = ground (
  arith,
  is_ascii_lem (240 + x),
  is_lead2_lem (240 + x),
  is_lead3_lem (240 + x),
  is_lead4_lem (240 + x),
  is_continuation_lem (128 + y),
  is_continuation_lem (128 + z),
  is_continuation_lem (128 + w),
  bit_and_mask 3 (240 + x),
  bit_and_mask 6 (128 + y),
  bit_and_mask 6 (128 + z),
  bit_and_mask 6 (128 + w),
  join4 x y z w,
)

-- Every code point below 0x110000 is read back from its UTF-8 sequence.
pub to_code_point-to_utf8 : (cp : ℕ) → cp < 0x110000 → to_code_point (to_utf8 cp) ≡ cp
to_code_point-to_utf8 cp h = elim (dec_lt cp 0x80) [
  | yes p ↦ rw (to_utf8_1 cp p) (sequence1 cp p)
  | no p ↦ elim (dec_lt cp 0x800) [
    | yes q ↦
        rw (to_utf8_2 cp (omega arith) q)
          (sequence2 (cp / 64) (cp % 64) (omega arith) (omega arith) (omega arith) ∙ omega arith)
    | no q ↦ elim (dec_lt cp 0x10000) [
      | yes r ↦ rw (to_utf8_3 cp (omega arith) r) (
          sequence3 (cp / 4096) (cp / 64 % 64) (cp % 64) (omega arith) (omega arith) (omega arith)
          ∙ omega arith)
      | no r ↦ rw (to_utf8_4 cp (omega arith) h) (
          sequence4 (cp / 262144) (cp / 4096 % 64) (cp / 64 % 64) (cp % 64) (omega arith)
            (omega arith) (omega arith) (omega arith)
          ∙ omega arith)
    ]
  ]
]
