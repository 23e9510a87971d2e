-- ===== src/Physical/Layout.antt =====
-- Where the bit of a buddy stands: the bitmaps of the orders do not overlap, and an address inside a
-- buddy leads to the buddy's bit. The memory is a whole number of largest buddies.
use native.Mathlib.Nat.{
  pow-suc, suc-add, zero-add, one-mul, one-le-pow, div-eq_of_lt-le, mul-mod_left, le-div_iff_mul-le,
}
use mayv.Prelude.{
  ℕ, zero, suc, ◌+◌, ◌-◌, ◌*◌, ◌/◌, ◌^◌, ◌≤◌, ◌<◌, ◌≡◌, ap, Bool, not, ◌&&◌, dec_lt, arith,
}
use mayv.Prelude.Memory.{update}
use mayv.Prelude.Words.{add64}
use mayv.Physical.Pages.{
  Bitmaps, free, bitmap_size, bitmap_start, align_down, bitmap_index, bit_at, put_bit, is_of_type,
  buddies_loop, are_buddies_of_type,
}

pub two_pow_add : (a b : ℕ) → 2 ^ (a + b) ≡ 2 ^ a * 2 ^ b
two_pow_add zero b = simp (zero-add, one-mul)
two_pow_add (suc a) b = rw (suc-add, pow-suc 2 (a + b), pow-suc 2 a, two_pow_add a b) (omega arith)

-- the bit of a buddy
abbrev pub position : ℕ → ℕ → ℕ → ℕ
position total order b = bitmap_start total order * 8 + b

abbrev pub used_at : ℕ → Bitmaps → ℕ → ℕ → Bool
used_at total bits order b = bits (position total order b)

module _ (total : ℕ) where
  -- A bitmap has a bit for each buddy.
  pub buddies-le-size : (o : ℕ) → total / 2 ^ o ≤ bitmap_size total o * 8
  unfolding bitmap_size
  buddies-le-size o = ground arith

  start_le : (o m : ℕ) → o ≤ m → bitmap_start total o ≤ bitmap_start total m
  unfolding bitmap_start
  start_le zero zero h = omega arith
  start_le (suc o) zero h = absurd (omega arith)
  start_le o (suc m) h = elim (dec_lt m o) [
    | yes p ↦ let e : o ≡ suc m = omega arith in rw e (omega arith)
    | no p ↦ omega (arith, start_le o m (omega arith))
  ]

  pub below_next :
      (o b m : ℕ) → b < total / 2 ^ o → o < m → position total o b < bitmap_start total m * 8
  unfolding bitmap_start
  below_next o b m h lt = omega (arith, buddies-le-size o, start_le (suc o) m lt)

  -- The bitmaps do not overlap: the bits of two buddies are different.
  pub position_injective :
      (o b m c : ℕ)
      → b < total / 2 ^ o
      → c < total / 2 ^ m
      → position total o b ≡ position total m c
      → (o ≡ m) × (b ≡ c)
  position_injective o b m c hb hc e = elim (dec_lt o m) [
    | yes p ↦ absurd (omega (arith, below_next o b m hb p))
    | no p ↦ elim (dec_lt m o) [
      | yes q ↦ absurd (omega (arith, below_next m c o hc q))
      | no q ↦ let same : o ≡ m = omega arith in (same, same_order same)
    ]
  ]
    where
      same_order : o ≡ m → b ≡ c
      same_order s = omega (arith, e, ap (bitmap_start total) s)

  -- An address inside the buddy `b` has the index of its bit.
  pub bitmap_index-buddy :
      (o b addr : ℕ)
      → o < 10
      → b * (2 ^ o * 4096) ≤ addr
      → addr < b * (2 ^ o * 4096) + 2 ^ o * 4096
      → addr < total * 4096
      → bitmap_index total addr o ≡ record { byte = b / 8; bit = b - b / 8 * 8 }
  unfolding bitmap_index
  bitmap_index-buddy o b addr ho lo hi inside = ground (arith, quotient)
    where
      quotient : addr / 2 ^ (12 + o) ≡ b
      quotient =
          rw (two_pow_add 12 o) (div-eq_of_lt-le (2 ^ 12 * 2 ^ o) (omega arith) (omega arith))

  pub bit_at-position :
      (bits : Bitmaps) (o b : ℕ)
      → bit_at total bits o (record { byte = b / 8; bit = b - b / 8 * 8 }) ≡ used_at total bits o b
  unfolding bit_at
  bit_at-position bits o b = ground (arith, ap bits place)
    where
      place : (bitmap_start total o + b / 8) * 8 + (b - b / 8 * 8) ≡ position total o b
      place = omega arith

  pub put_bit-position :
      (bits : Bitmaps) (o b : ℕ) (v : Bool)
      → put_bit total bits o (record { byte = b / 8; bit = b - b / 8 * 8 }) v
        ≡ update bits (position total o b) v
  unfolding put_bit
  put_bit-position bits o b v = ground (arith, ap (λ k. update bits k v) place)
    where
      place : (bitmap_start total o + b / 8) * 8 + (b - b / 8 * 8) ≡ position total o b
      place = omega arith

  -- `b < total / 2^o`, as the order of the ends of the buddy and of the memory
  pub buddy_end : (o b : ℕ) → b < total / 2 ^ o → b * 2 ^ o + 2 ^ o ≤ total
  buddy_end o b h = omega (arith, (le-div_iff_mul-le (one-le-pow o 2 (omega arith))).0 h)

  aligned : (o b : ℕ) → align_down (b * (2 ^ o * 4096)) o ≡ b * (2 ^ o * 4096)
  aligned o b = rw (mul-mod_left b (2 ^ o * 4096)) (omega arith)

  doubled : (o b : ℕ) → b * (2 ^ suc o * 4096) ≡ 2 * b * (2 ^ o * 4096)
  doubled o b = rw (pow-suc 2 o) (omega arith)

  bit_of_half :
      (bits : Bitmaps) (o b c i : ℕ)
      → o < 10
      → total < 2 ^ 51
      → c ≡ 2 * b + i
      → c < total / 2 ^ o
      → bit_at total bits o
          (bitmap_index total (add64 (align_down (b * (2 ^ suc o * 4096)) o) (i * 2 ^ o * 4096)) o)
        ≡ used_at total bits o c
  bit_of_half bits o b c i ho small e h =
      rw (doubled o b, aligned o (2 * b), wrapped)
        (rw (bitmap_index-buddy o c (c * (2 ^ o * 4096)) ho (omega arith) (omega arith) inside)
          (bit_at-position bits o c))
    where
      inside : c * (2 ^ o * 4096) < total * 4096
      inside = omega (arith, buddy_end o c h, one-le-pow o 2 (omega arith))

      wrapped : add64 (2 * b * (2 ^ o * 4096)) (i * 2 ^ o * 4096) ≡ c * (2 ^ o * 4096)
      wrapped = rw e (omega (arith, rw e at inside))

  -- Both halves of a buddy are free exactly if its two bits one order below are clear.
  pub are_buddies_of_type-halves :
      (bits : Bitmaps) (o b : ℕ)
      → suc o < 10
      → total < 2 ^ 51
      → 2 * b + 1 < total / 2 ^ o
      → are_buddies_of_type total bits (b * (2 ^ suc o * 4096)) o 2 free
        ≡ (not (used_at total bits o (2 * b)) && not (used_at total bits o (2 * b + 1)))
  unfolding are_buddies_of_type buddies_loop is_of_type
  are_buddies_of_type-halves bits o b ho small h = ground (
    arith,
    bit_of_half bits o b (2 * b) 0 (omega arith) small (omega arith) (omega arith),
    bit_of_half bits o b (2 * b + 1) 1 (omega arith) small (omega arith) h,
    inside,
  )
    where
      inside : b * (2 ^ suc o * 4096) < total * 4096
      inside =
          rw (doubled o b) (omega (arith, buddy_end o (2 * b + 1) h, one-le-pow o 2 (omega arith)))
