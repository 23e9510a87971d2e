-- ===== src/Physical/Counting.antt =====
-- The loop of `markPages` over the pages: the pages of the range get the new mark, no other bit
-- changes, and the count of available pages stays right.
use mayv.Prelude.{
  ℕ, zero, suc, ◌+◌, ◌*◌, ◌/◌, ◌%◌, ◌^◌, ◌≤◌, ◌<◌, ◌≡◌, refl, ap, ◌∙◌, Bool, true, false, ◌&&◌, ltb,
  leb, ◌==◌, if◌then◌else◌, arith, ℕ_discrete,
}
use mayv.Prelude.Memory.{update}
use mayv.Prelude.Words.{add64, sub64}
use mayv.Physical.Pages.{Bitmaps, MarkPageType, free, used}
use mayv.Physical.Marking.{mark_page, mark_loop}
use mayv.Physical.Layout.{position, used_at, bitmap_index-buddy, bit_at-position, put_bit-position}
use mayv.Physical.Sync.{update-used_at}
use mayv.Physical.Invariant.{count_used, Counted}

-- the bit that a mark leaves
abbrev pub mark_bit : MarkPageType → Bool
mark_bit used = true
mark_bit free = false

abbrev pub bit_value : Bool → ℕ
bit_value b = if b then 1 else 0

-- the pages `lo` to `hi - 1`
abbrev pub in_range : ℕ → ℕ → ℕ → Bool
in_range lo hi c = leb lo c && ltb c hi

module _ (total : ℕ) where
  -- the state after `mark_page` on the page `p`
  abbrev pub marked : MarkPageType → ℕ → Bitmaps × ℕ → Bitmaps × ℕ
  marked used p (bits, available) = (
    update bits (position total 0 p) true,
    (if used_at total bits 0 p then available else sub64 available 1),
  )
  marked free p (bits, available) = (
    update bits (position total 0 p) false,
    (if used_at total bits 0 p then add64 available 1 else available),
  )

  mark_page_lem :
      (ty : MarkPageType) (p : ℕ) (s : Bitmaps × ℕ)
      → p < total
      → mark_page total ty (p * 4096) s ≡ marked ty p s
  unfolding mark_page
  mark_page_lem used p (bits, available) h =
      rw
        (
          bitmap_index-buddy total 0 p (p * 4096) (omega arith) (omega arith) (omega arith)
              (omega arith),
          put_bit-position total bits 0 p true,
          bit_at-position total bits 0 p,
        )
        refl
  mark_page_lem free p (bits, available) h =
      rw
        (
          bitmap_index-buddy total 0 p (p * 4096) (omega arith) (omega arith) (omega arith)
              (omega arith),
          put_bit-position total bits 0 p false,
          bit_at-position total bits 0 p,
        )
        refl

  count-update :
      (bits : Bitmaps) (p : ℕ) (v : Bool) (n : ℕ)
      → count_used total (update bits (position total 0 p) v) n
          + (if ltb p n then bit_value (used_at total bits 0 p) else 0)
        ≡ count_used total bits n + (if ltb p n then bit_value v else 0)
  unfolding count_used
  count-update bits p v zero = ground arith
  count-update bits p v (suc n) = ground (arith, count-update bits p v n)

  page_count-le : (bits : Bitmaps) (n : ℕ) → count_used total bits n ≤ n
  unfolding count_used
  page_count-le bits zero = omega arith
  page_count-le bits (suc n) = ground (arith, page_count-le bits n)

  -- A page that is free leaves room in the count.
  free-count :
      (bits : Bitmaps) (p n : ℕ)
      → p < n
      → used_at total bits 0 p ≡ false
      → count_used total bits n < n
  unfolding count_used
  free-count bits p zero h e = absurd (omega arith)
  free-count bits p (suc n) h e = elim (ℕ_discrete p n) [
    | yes same ↦ ground (arith, page_count-le bits n, rw same at e)
    | no other ↦ ground (arith, free-count bits p n (omega arith) e)
  ]

  marked-Counted :
      (ty : MarkPageType) (p : ℕ) (s : Bitmaps × ℕ)
      → total < 2 ^ 51
      → p < total
      → Counted total s
      → Counted total (marked ty p s)
  marked-Counted used p (bits, available) small h c =
      ground (arith, count-update bits p true total, free-count bits p total)
  marked-Counted free p (bits, available) small h c =
      ground (arith, count-update bits p false total)

  mark_loop-suc :
      (ty : MarkPageType) (p i left : ℕ) (s : Bitmaps × ℕ)
      → p + i < total
      → total < 2 ^ 51
      → mark_loop total ty (p * 4096) i (suc left) s
        ≡ mark_loop total ty (p * 4096) (i + 1) left (marked ty (p + i) s)
  unfolding mark_loop
  mark_loop-suc ty p i left s h small =
      ap (mark_loop total ty (p * 4096) (i + 1) left)
        (ap (λ a. mark_page total ty a s) page ∙ mark_page_lem ty (p + i) s h)
    where
      page : add64 (p * 4096) (i * 4096) ≡ (p + i) * 4096
      page = omega arith

module _ (total : ℕ) (whole : total % 512 ≡ 0) (small : total < 2 ^ 51) where
  pub mark_loop-Counted :
      (ty : MarkPageType) (p i left : ℕ) (s : Bitmaps × ℕ)
      → p + i + left ≤ total
      → Counted total s
      → Counted total (mark_loop total ty (p * 4096) i left s)
  unfolding mark_loop
  mark_loop-Counted ty p i zero s h c = c
  mark_loop-Counted ty p i (suc left) s h c =
      rw (mark_loop-suc total ty p i left s (omega arith) small) (
        mark_loop-Counted ty p (i + 1) left (marked total ty (p + i) s) (omega arith)
          (marked-Counted total ty (p + i) s small (omega arith) c))

  marked-used_at :
      (ty : MarkPageType) (p : ℕ) (s : Bitmaps × ℕ) (m c : ℕ)
      → p < total
      → c < total / 2 ^ m
      → used_at total (marked total ty p s).0 m c
        ≡ (if m == 0 && c == p then mark_bit ty else used_at total s.0 m c)
  marked-used_at used p (bits, available) m c hp hc =
      update-used_at total whole small bits 0 p true m c (omega arith) hc
  marked-used_at free p (bits, available) m c hp hc =
      update-used_at total whole small bits 0 p false m c (omega arith) hc

  -- exactly the pages of the range get the new mark
  pub mark_loop-used_at :
      (ty : MarkPageType) (p i left : ℕ) (s : Bitmaps × ℕ) (m c : ℕ)
      → p + i + left ≤ total
      → c < total / 2 ^ m
      → used_at total (mark_loop total ty (p * 4096) i left s).0 m c ≡ (
          if m == 0 && in_range (p + i) (p + i + left) c
          then mark_bit ty
          else used_at total s.0 m c)
  unfolding mark_loop
  mark_loop-used_at ty p i zero s m c h hc = ground arith
  mark_loop-used_at ty p i (suc left) s m c h hc =
      rw (mark_loop-suc total ty p i left s (omega arith) small) (
        ground (
          arith,
          mark_loop-used_at ty p (i + 1) left (marked total ty (p + i) s) m c (omega arith) hc,
          marked-used_at ty (p + i) s m c (omega arith) hc,
        ))
