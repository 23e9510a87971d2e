-- ===== src/Physical/Sync.antt =====
-- What one `while` of `markPages` does to the bitmap above: exactly the visited buddies with a used
-- half become used.
use native.Mathlib.Nat.{
  lt_of_mul-lt-mul_right, pow-suc, one-le-pow, mul-div_left, mul-le-mul_right, mul_assoc,
}
use mayv.Prelude.{
  ℕ, zero, suc, ◌+◌, ◌-◌, ◌*◌, ◌/◌, ◌%◌, ◌^◌, ◌≤◌, ◌<◌, ◌≡◌, ap, sym, ◌∙◌, Bool, true, false, ◌&&◌,
  ◌||◌, ltb, leb, ◌==◌, if◌then◌else◌, arith, dec_lt, ℕ_discrete,
}
use mayv.Prelude.Memory.{update}
use mayv.Prelude.Words.{add64}
use mayv.Physical.Pages.{Bitmaps}
use mayv.Physical.Marking.{sync_buddy, sync_level}
use mayv.Physical.Layout.{
  two_pow_add, position, used_at, position_injective, bitmap_index-buddy, put_bit-position,
  are_buddies_of_type-halves, buddy_end,
}

module _ (total : ℕ) (whole : total % 512 ≡ 0) (small : total < 2 ^ 51) where
  whole_parts : (o : ℕ) → o < 10 → total ≡ total / 512 * 2 ^ (9 - o) * 2 ^ o
  whole_parts o h = rw (mul_assoc, power) (omega arith)
    where
      nine : 9 - o + o ≡ 9
      nine = omega arith

      power : 2 ^ (9 - o) * 2 ^ o ≡ 512
      power = sym (two_pow_add (9 - o) o) ∙ ap (λ (k : ℕ). 2 ^ k) nine

  pub buddies_whole : (o : ℕ) → o < 10 → total / 2 ^ o ≡ total / 512 * 2 ^ (9 - o)
  buddies_whole o h =
      rw (← whole_parts o h) at
        (mul-div_left (total / 512 * 2 ^ (9 - o)) (one-le-pow o 2 (omega arith)))

  pub buddies_halve : (o : ℕ) → suc o < 10 → total / 2 ^ o ≡ 2 * (total / 2 ^ suc o)
  buddies_halve o h =
      rw (buddies_whole o (omega arith), buddies_whole (suc o) h, next, pow-suc) (omega arith)
    where
      next : 9 - o ≡ suc (9 - suc o)
      next = omega arith

  pub buddy_in : (o b : ℕ) → o < 10 → b * 2 ^ o < total → b < total / 2 ^ o
  buddy_in o b h lt = lt_of_mul-lt-mul_right (2 ^ o) (rw (buddies_whole o h, ← whole_parts o h) lt)

  -- writing one bit changes that buddy alone
  pub update-used_at :
      (bits : Bitmaps) (o b : ℕ) (v : Bool) (m c : ℕ)
      → b < total / 2 ^ o
      → c < total / 2 ^ m
      → used_at total (update bits (position total o b) v) m c
        ≡ (if m == o && c == b then v else used_at total bits m c)
  update-used_at bits o b v m c hb hc = ground (arith, position_injective total m c o b hc hb, same)
    where
      same : m ≡ o → c ≡ b → position total m c ≡ position total o b
      same e d = rw (e, d)

  sync_buddy_lem :
      (bits : Bitmaps) (o b : ℕ)
      → suc o < 10
      → b < total / 2 ^ suc o
      → sync_buddy total o (b * (2 ^ suc o * 4096)) bits ≡ (
          if used_at total bits o (2 * b) || used_at total bits o (2 * b + 1)
          then update bits (position total (suc o) b) true
          else bits)
  unfolding sync_buddy
  sync_buddy_lem bits o b ho hb =
      rw
        (
          are_buddies_of_type-halves total bits o b ho small inner,
          bitmap_index-buddy total (suc o) b _ ho (omega arith) (omega arith) inside,
          put_bit-position total bits (suc o) b true,
        )
        (ground arith)
    where
      inner : 2 * b + 1 < total / 2 ^ o
      inner = omega (arith, buddies_halve o ho)

      inside : b * (2 ^ suc o * 4096) < total * 4096
      inside = omega (arith, buddy_end total (suc o) b hb, one-le-pow (suc o) 2 (omega arith))

  -- the buddies of order `suc o` from `b` on that begin before the page `e`
  abbrev pub visits : ℕ → ℕ → ℕ → ℕ → Bool
  visits o b e c = leb b c && ltb (c * 2 ^ suc o) e

  -- what the level says of a buddy after the `while`
  abbrev pub raised : Bitmaps → ℕ → ℕ → ℕ → ℕ → ℕ → Bool
  raised bits o b e m c =
      if m == suc o && visits o b e c
      then used_at total bits m c
        || (used_at total bits o (2 * c) || used_at total bits o (2 * c + 1))
      else used_at total bits m c

  unvisited : (o b e c : ℕ) → e ≤ b * 2 ^ suc o → visits o b e c ≡ false
  unvisited o b e c h = elim (dec_lt c b) [
    | yes p ↦ ground arith
    | no p ↦ ground (arith, mul-le-mul_right {m = b} {n = c} (2 ^ suc o) (omega arith))
  ]

  sync_buddy-used_at :
      (bits : Bitmaps) (o b m c : ℕ)
      → suc o < 10
      → b < total / 2 ^ suc o
      → c < total / 2 ^ m
      → used_at total (sync_buddy total o (b * (2 ^ suc o * 4096)) bits) m c ≡ (
          if m == suc o && c == b
          then used_at total bits m c
            || (used_at total bits o (2 * b) || used_at total bits o (2 * b + 1))
          else used_at total bits m c)
  sync_buddy-used_at bits o b m c ho hb hc =
      rw (sync_buddy_lem bits o b ho hb)
        (ground (arith, update-used_at bits (suc o) b true m c hb hc))

  raised-step :
      (bits : Bitmaps) (o b e m c : ℕ)
      → suc o < 10
      → e ≤ total
      → b * 2 ^ suc o < e
      → c < total / 2 ^ m
      → raised (sync_buddy total o (b * (2 ^ suc o * 4096)) bits) o (suc b) e m c
        ≡ raised bits o b e m c
  raised-step bits o b e m c ho he hb hc = elim (ℕ_discrete m (suc o)) [
    | no other ↦
        ground (arith, sync_buddy-used_at bits o b m c ho (buddy_in (suc o) b ho (omega arith)) hc)
    | yes same ↦ rw same (same_level (rw same at hc))
  ]
    where
      hb' : b < total / 2 ^ suc o
      hb' = buddy_in (suc o) b ho (omega arith)

      same_level :
          c < total / 2 ^ suc o
          → raised (sync_buddy total o (b * (2 ^ suc o * 4096)) bits) o (suc b) e (suc o) c
            ≡ raised bits o b e (suc o) c
      same_level h = ground (
        arith,
        sync_buddy-used_at bits o b (suc o) c ho hb' h,
        sync_buddy-used_at bits o b o (2 * c) ho hb' (omega (arith, buddies_halve o ho)),
        sync_buddy-used_at bits o b o (2 * c + 1) ho hb' (omega (arith, buddies_halve o ho)),
      )

  pub sync_level_lem :
      (fuel : ℕ) (bits : Bitmaps) (o b e m c : ℕ)
      → suc o < 10
      → e ≤ total
      → e ≤ b * 2 ^ suc o + fuel * 2 ^ suc o
      → c < total / 2 ^ m
      → used_at total (sync_level total fuel o (b * (2 ^ suc o * 4096)) (e * 4096) bits) m c
        ≡ raised bits o b e m c
  unfolding sync_level
  sync_level_lem zero bits o b e m c ho he enough hc =
      ground (arith, unvisited o b e c (omega arith))
  sync_level_lem (suc fuel) bits o b e m c ho he enough hc = elim (dec_lt (b * 2 ^ suc o) e) [
    | no p ↦ ground (arith, unvisited o b e c (omega arith))
    | yes p ↦
        let next : add64 (b * (2 ^ suc o * 4096)) (2 ^ suc o * 4096) ≡ suc b * (2 ^ suc o * 4096) =
          omega (arith, buddy_end total (suc o) b (buddy_in (suc o) b ho (omega arith))) in
        let test : ltb (b * (2 ^ suc o * 4096)) (e * 4096) ≡ true = ground arith in
        rw (next, test)
          (sync_level_lem fuel _ o (suc b) e m c ho he (omega arith) hc
            ∙ raised-step bits o b e m c ho he p hc)
  ]
