-- ===== src/Unicode/Bytes.antt =====
-- The bit tests and bit fields of the UTF-8 code as arithmetic.
use Prim.Native.Nat.{bit_and, bit_or}
use mayv.Prelude.{ℕ, ◌+◌, ◌*◌, ◌/◌, ◌%◌, ◌^◌, ◌≤◌, ◌<◌, ◌≡◌, ◌∙◌, ◌&&◌, ltb, leb, arith, [], ◌∷◌}
use mayv.Prelude.Bits.{
  bit_and_mask, bit_or_disjoint, bit_and_top1, bit_and_top2, bit_and_top3, bit_and_top4,
  bit_and_top5,
}
use mayv.Unicode.Encode.{to_utf8}
use mayv.Unicode.Decode.{is_ascii, is_lead2, is_lead3, is_lead4, is_continuation}

module _ (b : ℕ) (h : b < 256) where
  pub is_ascii_lem : is_ascii b ≡ ltb b 128
  unfolding is_ascii
  is_ascii_lem = ground (arith, bit_and_top1 b h)

  pub is_continuation_lem : is_continuation b ≡ (leb 128 b && ltb b 192)
  unfolding is_continuation
  is_continuation_lem = ground (arith, bit_and_top2 b h)

  pub is_lead2_lem : is_lead2 b ≡ (leb 192 b && ltb b 224)
  unfolding is_lead2
  is_lead2_lem = ground (arith, bit_and_top3 b h)

  pub is_lead3_lem : is_lead3 b ≡ (leb 224 b && ltb b 240)
  unfolding is_lead3
  is_lead3_lem = ground (arith, bit_and_top4 b h)

  pub is_lead4_lem : is_lead4 b ≡ (leb 240 b && ltb b 248)
  unfolding is_lead4
  is_lead4_lem = ground (arith, bit_and_top5 b h)

-- fields under a tag
pub tag2 : (y : ℕ) → bit_or 0xc0 (bit_and y 0x1f) ≡ 192 + y % 32
tag2 y = rw (bit_and_mask 5 y) (bit_or_disjoint 5 6 (y % 32) (omega arith))

pub tag3 : (y : ℕ) → bit_or 0xe0 (bit_and y 0x0f) ≡ 224 + y % 16
tag3 y = rw (bit_and_mask 4 y) (bit_or_disjoint 4 14 (y % 16) (omega arith))

pub tag4 : (y : ℕ) → bit_or 0xf0 (bit_and y 0x07) ≡ 240 + y % 8
tag4 y = rw (bit_and_mask 3 y) (bit_or_disjoint 3 30 (y % 8) (omega arith))

pub tag_continuation : (y : ℕ) → bit_or 0x80 (bit_and y 0x3f) ≡ 128 + y % 64
tag_continuation y = rw (bit_and_mask 6 y) (bit_or_disjoint 6 2 (y % 64) (omega arith))

-- `to_utf8` as arithmetic, one equation for each length
module _ (cp : ℕ) where
  pub to_utf8_1 : cp < 0x80 → to_utf8 cp ≡ cp ∷ []
  unfolding to_utf8
  to_utf8_1 h = ground arith

  pub to_utf8_2 : 0x80 ≤ cp → cp < 0x800 → to_utf8 cp ≡ (192 + cp / 64) ∷ (128 + cp % 64) ∷ []
  unfolding to_utf8
  to_utf8_2 lo hi = ground (arith, tag2 (cp / 64), tag_continuation cp)

  pub to_utf8_3 :
      0x800 ≤ cp
      → cp < 0x10000
      → to_utf8 cp ≡ (224 + cp / 4096) ∷ (128 + cp / 64 % 64) ∷ (128 + cp % 64) ∷ []
  unfolding to_utf8
  to_utf8_3 lo hi =
      ground (arith, tag3 (cp / 4096), tag_continuation (cp / 64), tag_continuation cp)

  pub to_utf8_4 :
      0x10000 ≤ cp
      → cp < 0x110000
      → to_utf8 cp
        ≡ (240 + cp / 262144) ∷ (128 + cp / 4096 % 64) ∷ (128 + cp / 64 % 64) ∷ (128 + cp % 64) ∷ []
  unfolding to_utf8
  to_utf8_4 lo hi = ground (
    arith,
    tag4 (cp / 262144),
    tag_continuation (cp / 4096),
    tag_continuation (cp / 64),
    tag_continuation cp,
  )

-- fields joined again
pub join2 : (x y : ℕ) → y < 64 → bit_or (x * 2 ^ 6) y ≡ x * 64 + y
join2 x y h = bit_or_disjoint 6 x y h

pub join3 :
    (x y z : ℕ)
    → y < 64
    → z < 64
    → bit_or (bit_or (x * 2 ^ 12) (y * 2 ^ 6)) z ≡ x * 4096 + y * 64 + z
join3 x y z hy hz =
    rw (bit_or_disjoint 12 x (y * 64) (omega arith), regroup)
      (bit_or_disjoint 6 (x * 64 + y) z hz ∙ omega arith)
  where
    regroup : x * 4096 + y * 64 ≡ (x * 64 + y) * 64
    regroup = omega arith

pub join4 :
    (x y z w : ℕ)
    → y < 64
    → z < 64
    → w < 64
    → bit_or (bit_or (bit_or (x * 2 ^ 18) (y * 2 ^ 12)) (z * 2 ^ 6)) w
      ≡ x * 262144 + y * 4096 + z * 64 + w
join4 x y z w hy hz hw =
    rw (bit_or_disjoint 18 x (y * 4096) (omega arith), regroup)
      (join3 (x * 64 + y) z w hz hw ∙ omega arith)
  where
    regroup : x * 262144 + y * 4096 ≡ (x * 64 + y) * 4096
    regroup = omega arith
