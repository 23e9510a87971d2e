-- ===== src/Physical/Buddies.antt =====
-- `requestPages` without RequestType::PhysicalContiguous: which order is searched, and what is
-- granted.
use native.Mathlib.Nat.{div-mul-le_self, div-eq_of_lt-le, div-div-eq-div-mul, pow-suc}
use mayv.Prelude.{
  ℕ, zero, suc, ◌+◌, ◌-◌, ◌*◌, ◌/◌, ◌%◌, ◌^◌, ◌≤◌, ◌<◌, ◌≡◌, refl, ap, Bool, true, false, ◌&&◌,
  ◌||◌, ltb, leb, arith, inl, inr, Bool-cases, Option-cases, ℕ_discrete, ◌≢◌, none, some, ◌⊎◌,
}
use mayv.Physical.Sync.{buddies_whole, buddy_in}
use mayv.Prelude.Bits.{all_below, all_below_sound}
use mayv.Physical.Pages.{Bitmaps, bitmap_start, bitmap_size}
use mayv.Physical.Request.{
  is_full_byte, find_byte, find_bit, find_buddy, fitting_level, closest_level,
}
use mayv.Physical.Layout.{used_at, position, buddies-le-size, buddy_end}
use mayv.Physical.Invariant.{Closed}
use mayv.Physical.Contiguous.{AllFree}

-- the level either holds the pages and at most a quarter of it is wasted, or it is the next one below
abbrev fits_well : ℕ → ℕ → Bool
fits_well count level =
    ltb level 10
    && ((leb count (2 ^ level) && leb (3 * 2 ^ level) (4 * count))
        || (ltb (2 ^ level) count && ltb (2 * count) (3 * 2 ^ level)))

levels_table : all_below (λ k. fits_well (k + 1) (closest_level (k + 1))) 512 ≡ true
unfolding all_below closest_level fitting_level
levels_table = refl

-- For a request of 1 to 512 pages the search starts at an order whose buddies hold the request and
-- waste at most a quarter, or else at the next smaller order, which holds more than two thirds of it.
pub closest_level_lem :
    (count : ℕ)
    → 0 < count
    → count ≤ 512
    → let level = closest_level count in
      (level < 10)
      × (((count ≤ 2 ^ level) × (3 * 2 ^ level ≤ 4 * count))
          ⊎ ((2 ^ level < count) × (2 * count < 3 * 2 ^ level)))
closest_level_lem count pos small = ground (arith, rw back at entry)
  where
    back : count - 1 + 1 ≡ count
    back = omega arith

    entry : fits_well (count - 1 + 1) (closest_level (count - 1 + 1)) ≡ true
    entry =
        all_below_sound (λ k. fits_well (k + 1) (closest_level (k + 1))) 512 (count - 1)
          levels_table (omega arith)

module _ (total : ℕ) (bits : Bitmaps) where
  find_byte_sound :
      (order left byte : ℕ) {r : ℕ}
      → find_byte total bits order left byte ≡ some r
      → (is_full_byte total bits order r ≡ false) × (r < byte + left)
  unfolding find_byte
  find_byte_sound order zero byte h = cc
  find_byte_sound order (suc left) byte {r} h =
      ground (arith, find_byte_sound order left (byte + 1) {r = r})

  find_byte_complete :
      (order left byte : ℕ) (r : ℕ)
      → find_byte total bits order left byte ≡ none
      → byte ≤ r
      → r < byte + left
      → is_full_byte total bits order r ≡ true
  unfolding find_byte
  find_byte_complete order zero byte r h lo hi = absurd (omega arith)
  find_byte_complete order (suc left) byte r h lo hi = elim (ℕ_discrete byte r) [
    | yes same ↦ rw (← same) (ground arith)
    | no ne ↦ ground (arith, find_byte_complete order left (byte + 1) r)
  ]

  find_bit_sound :
      (order byte : ℕ)
      → is_full_byte total bits order byte ≡ false
      → (find_bit total bits order byte 8 0 < 8)
        × (bits ((bitmap_start total order + byte) * 8 + find_bit total bits order byte 8 0)
            ≡ false)
  unfolding find_bit is_full_byte
  find_bit_sound order byte h = ground arith

  full_byte-used :
      (order byte k : ℕ)
      → is_full_byte total bits order byte ≡ true
      → k < 8
      → bits ((bitmap_start total order + byte) * 8 + k) ≡ true
  unfolding is_full_byte
  full_byte-used order byte zero h lt = ground arith
  full_byte-used order byte (suc zero) h lt = ground arith
  full_byte-used order byte (suc (suc zero)) h lt = ground arith
  full_byte-used order byte (suc (suc (suc zero))) h lt = ground arith
  full_byte-used order byte (suc (suc (suc (suc zero)))) h lt = ground arith
  full_byte-used order byte (suc (suc (suc (suc (suc zero))))) h lt = ground arith
  full_byte-used order byte (suc (suc (suc (suc (suc (suc zero)))))) h lt = ground arith
  full_byte-used order byte (suc (suc (suc (suc (suc (suc (suc zero))))))) h lt = ground arith
  full_byte-used order byte (suc (suc (suc (suc (suc (suc (suc (suc k)))))))) h lt =
      absurd (omega arith)

  -- the buddy that is found has a clear bit in the bitmap
  pub find_buddy_sound :
      (order : ℕ) {b : ℕ}
      → find_buddy total bits order ≡ some b
      → (b < bitmap_size total order * 8) × (used_at total bits order b ≡ false)
  unfolding find_buddy
  find_buddy_sound order {b} h =
      elim (Option-cases (find_byte total bits order (bitmap_size total order) 0)) [
        | inl nothing ↦ cc (rw (nothing, find_buddy) at h)
        | inr (byte, found) ↦
            let room : (is_full_byte total bits order byte ≡ false)
                × (byte < 0 + bitmap_size total order) =
              find_byte_sound order (bitmap_size total order) 0 found in
            let clear : (find_bit total bits order byte 8 0 < 8)
                × (bits ((bitmap_start total order + byte) * 8 + find_bit total bits order byte 8 0)
                    ≡ false) =
              find_bit_sound order byte room.0 in
            let answer : find_bit total bits order byte 8 0 + byte * 8 ≡ b =
              cc (rw (found, find_buddy) at h) in
            let place : (bitmap_start total order + byte) * 8 + find_bit total bits order byte 8 0
                ≡ position total order b =
              omega arith in
            (omega arith, rw place at clear.1)
      ]

  find_buddy-full :
      (order b : ℕ)
      → find_buddy total bits order ≡ none
      → b < bitmap_size total order * 8
      → used_at total bits order b ≡ true
  unfolding find_buddy
  find_buddy-full order b h lt =
      elim (Option-cases (find_byte total bits order (bitmap_size total order) 0)) [
        | inl nothing ↦ rw place at (
            full_byte-used order (b / 8) (b - b / 8 * 8)
              (find_byte_complete order (bitmap_size total order) 0 (b / 8) nothing (omega arith)
                (omega arith))
              (omega arith))
        | inr (byte, found) ↦ cc (rw (found, find_buddy) at h)
      ]
    where
      place : (bitmap_start total order + b / 8) * 8 + (b - b / 8 * 8) ≡ position total order b
      place = omega arith

  -- a clear bit in the bitmap is enough for the search to find one
  pub find_buddy-clear :
      (order b : ℕ)
      → b < bitmap_size total order * 8
      → used_at total bits order b ≡ false
      → find_buddy total bits order ≢ none
  find_buddy-clear order b lt clear h = cc (clear, find_buddy-full order b h lt)

  pub find_buddy_complete :
      (order b : ℕ)
      → find_buddy total bits order ≡ none
      → b < total / 2 ^ order
      → used_at total bits order b ≡ true
  find_buddy_complete order b h lt =
      find_buddy-full order b h (omega (arith, buddies-le-size total order))

module _ (total : ℕ) (bits : Bitmaps) (whole : total % 512 ≡ 0) (small : total < 2 ^ 51) where
  -- a used page makes every buddy around it used
  page_buddy :
      (o c : ℕ)
      → Closed total bits
      → o < 10
      → c < total
      → used_at total bits 0 c ≡ true
      → used_at total bits o (c / 2 ^ o) ≡ true
  page_buddy zero c closed ho hc u = let e : c / 1 ≡ c = omega arith in rw e u
  page_buddy (suc o) c closed ho hc u =
      rw (pow-suc 2 o, ← div-div-eq-div-mul c (2 ^ o) 2)
        (closed o (c / 2 ^ o) ho inside (page_buddy o c closed (omega arith) hc u))
    where
      inside : c / 2 ^ o < total / 2 ^ o
      inside =
          buddy_in total whole small o (c / 2 ^ o) (omega arith)
            (omega (arith, div-mul-le_self c (2 ^ o)))

  -- a buddy that shows as free has no used page
  pub buddy-AllFree :
      (o b : ℕ)
      → Closed total bits
      → o < 10
      → b < total / 2 ^ o
      → used_at total bits o b ≡ false
      → AllFree total bits (b * 2 ^ o) (b * 2 ^ o + 2 ^ o)
  buddy-AllFree o b closed ho hb clear c lo hi = elim (Bool-cases (used_at total bits 0 c)) [
    | inl busy ↦ cc (clear, rw same at (page_buddy o c closed ho inside busy))
    | inr idle ↦ idle
  ]
    where
      inside : c < total
      inside = omega (arith, buddy_end total o b hb)

      same : c / 2 ^ o ≡ b
      same = div-eq_of_lt-le (2 ^ o) lo (omega arith)

  -- In whole groups of eight largest buddies no bitmap has a bit too many.
  pub no_padding : (o : ℕ) → o < 10 → total % 4096 ≡ 0 → bitmap_size total o * 8 ≡ total / 2 ^ o
  unfolding bitmap_size
  no_padding o ho even = ground (arith, eights)
    where
      eights : total / 2 ^ o ≡ total / 4096 * 2 ^ (9 - o) * 8
      eights =
          omega (arith, buddies_whole total whole small o ho, ap (λ (t : ℕ). t * 2 ^ (9 - o)) group)
        where
          group : total / 512 ≡ total / 4096 * 8
          group = omega arith
