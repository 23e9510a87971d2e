-- ===== src/Virtual/Release.antt =====
-- The loop of `freePages`: the blocks after it.
use mayv.Prelude.{
  ℕ, ◌+◌, ◌-◌, ◌*◌, ◌/◌, ◌%◌, ◌≤◌, ◌<◌, ◌≡◌, Bool, true, false, ◌&&◌, ◌||◌, leb, ◌==◌, if_elim,
  arith, List, [], ◌∷◌,
}
use mayv.Prelude.Words.{word}
use mayv.Virtual.Space.{
  AddressSpaceNode, Release, released, not_found, already_free, block_end, behind, release,
}
use mayv.Virtual.Regions.{
  Tiled, Tiled-at, available_at, available_pages, Tiled-le, available_at_before,
}
use mayv.Virtual.Request.{in_pages}

-- Does the block hold the range, as `freePages` tests it?
abbrev pub holds : ℕ → ℕ → AddressSpaceNode → Bool
holds first last b = leb b.base first && leb last (block_end b)

-- No block holds the range.
abbrev pub NoneHolds : ℕ → ℕ → List AddressSpaceNode → Type 0
NoneHolds first last [] = Unit {0}
NoneHolds first last (b ∷ rest) = (holds first last b ≡ false) × NoneHolds first last rest

-- The list after the pages of the range became available: they were used, and no other changes.
abbrev pub GivenBack : ℕ → ℕ → ℕ → ℕ → List AddressSpaceNode → List AddressSpaceNode → Type 0
GivenBack start end first count before after =
    Tiled start end after
    × (start ≤ first)
    × ((a : ℕ) → in_pages first count a ≡ true → available_at before a ≡ false)
    × ((a : ℕ) → available_at after a ≡ (available_at before a || in_pages first count a))
    × (available_pages after ≡ available_pages before + count)

-- What the loop of `freePages` comes to, by its result.
abbrev pub LoopResult : ℕ → ℕ → ℕ → ℕ → List AddressSpaceNode → Release → Type 0
LoopResult start end first count before not_found = NoneHolds first (first + count * 4096) before
LoopResult start end first count before already_free = available_at before first ≡ true
LoopResult start end first count before (released after) =
    GivenBack start end first count before after

block_end_le : (b : AddressSpaceNode) → block_end b ≤ b.base + b.page_count * 4096
block_end_le b = omega arith

module _ (end first count : ℕ) (small : end ≤ word) (some_pages : 0 < count)
    (fits : first + count * 4096 < word) (aligned : first % 4096 ≡ 0) where
  release_exact :
      (start : ℕ) (b : AddressSpaceNode) (rest : List AddressSpaceNode)
      → Tiled start end (b ∷ rest)
      → b.available ≡ false
      → b.base ≡ first
      → block_end b ≡ first + count * 4096
      → GivenBack start end first count (b ∷ rest) (record b { available = true } ∷ rest)
  release_exact start b rest (at, h) is_used starts ends =
      let behind_it = Tiled-le (start + b.page_count * 4096) end rest h in
      let same_count : b.page_count ≡ count =
        omega (arith, behind_it, ends, starts, at, small, fits) in
      (
        (at, h),
        omega (arith, at, starts),
        (λ a inside.
            ground
              (arith, same_count, available_at_before (start + b.page_count * 4096) end rest a h)),
        (λ a. ground (arith, same_count)),
        ground (arith, same_count),
      )

  release_part :
      (start : ℕ) (b : AddressSpaceNode) (rest : List AddressSpaceNode)
      → Tiled start end (b ∷ rest)
      → start % 4096 ≡ 0
      → b.available ≡ false
      → b.base ≤ first
      → first + count * 4096 ≤ block_end b
      → GivenBack start end first count (b ∷ rest) (
          record b { page_count = (first - b.base) / 4096 }
          ∷ record { available = true; base = first; page_count = count }
          ∷ record {
            available = false;
            base = first + count * 4096;
            page_count = (block_end b - (first + count * 4096)) / 4096;
          }
          ∷ rest)
  release_part start b rest (at, h) even is_used starts ends =
      let behind_it = Tiled-le (start + b.page_count * 4096) end rest h in
      let front : b.base + (first - b.base) / 4096 * 4096 ≡ first =
        omega (arith, even, aligned, at, starts) in
      let its_end : block_end b ≡ b.base + b.page_count * 4096 =
        omega (arith, behind_it, at, small, ends, some_pages) in
      let tail : first + count * 4096 + (block_end b - (first + count * 4096)) / 4096 * 4096
          ≡ start + b.page_count * 4096 =
        omega (arith, even, aligned, at, ends, its_end) in
      (
        (
          at,
          (
            omega (arith, front, at),
            (
              omega (arith, front, at),
              Tiled-at
                  (start
                    + (first - b.base) / 4096 * 4096
                    + count * 4096
                    + (block_end b - (first + count * 4096)) / 4096 * 4096)
                  (start + b.page_count * 4096) end rest (omega (arith, front, at, tail)) h,
            ),
          ),
        ),
        omega (arith, at, starts),
        (λ a inside. ground (
          arith,
          is_used,
          available_at_before (start + b.page_count * 4096) end rest a h,
          its_end,
          ends,
          at,
        )),
        (λ a. ground (arith, is_used)),
        ground (arith, is_used),
      )

  behind-LoopResult :
      (start : ℕ) (b : AddressSpaceNode) (rest : List AddressSpaceNode) (r : Release)
      → Tiled start end (b ∷ rest)
      → holds first (first + count * 4096) b ≡ false
      → LoopResult (start + b.page_count * 4096) end first count rest r
      → LoopResult start end first count (b ∷ rest) (behind b r)
  unfolding behind
  behind-LoopResult start b rest not_found tiled missed h = (missed, h)
  behind-LoopResult start b rest already_free tiled missed h = ground (arith, h)
  behind-LoopResult start b rest (released after) (at, tiled) missed
        (left, later, were_used, kept, counted) =
      (
        (at, left),
        omega (arith, later),
        (λ a inside. ground (arith, at, were_used a inside, later, inside)),
        (λ a. ground (arith, kept a)),
        ground (arith, counted),
      )

  pub release_lem :
      (start : ℕ) (blocks : List AddressSpaceNode)
      → Tiled start end blocks
      → start % 4096 ≡ 0
      → LoopResult start end first count blocks (release first (first + count * 4096) count blocks)
  unfolding release
  release_lem start [] tiled even = tt
  release_lem start (b ∷ rest) (at, h) even =
      if_elim (LoopResult start end first count (b ∷ rest)) (holds first (first + count * 4096) b)
        (λ held.
          if_elim (LoopResult start end first count (b ∷ rest)) b.available
            (λ is_free. ground (arith, held, is_free, block_end_le b))
            (λ is_used.
              if_elim (LoopResult start end first count (b ∷ rest))
                (b.base == first && block_end b == first + count * 4096)
                (λ same. release_exact start b rest (at, h) is_used (ground arith) (ground arith))
                (λ differ.
                  release_part start b rest (at, h) even is_used (ground arith) (ground arith))))
        (λ missed.
          behind-LoopResult start b rest (release first (first + count * 4096) count rest) (at, h)
            missed (release_lem (start + b.page_count * 4096) rest h (omega (arith, even))))
