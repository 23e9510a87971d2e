-- ===== src/Heap/Checking.antt =====
-- `validHeap` of a region accepts it exactly if none of its blocks is larger than all the free ones
-- together.
use mayv.Prelude.{
  ℕ, zero, suc, ◌+◌, ◌^◌, ◌≤◌, ◌<◌, ◌≡◌, refl, ap, sym, ◌∙◌, Bool, true, false, ◌&&◌, leb, ◌==◌,
  if◌then◌else◌, arith, inl, inr, Bool-cases, ap₂, Option, none, some, List, [], ◌∷◌,
}
use mayv.Prelude.Words.{add64}
use mayv.Heap.Regions.{
  HeapHeader, first_entry, next_heap_entry, valid_heap_entry, total_size, valid_heap, valid_heaps,
}
use mayv.Heap.Tiling.{Block, Tiles, span, IsRegion, Tiles-span}
use mayv.Heap.Searching.{cursor, next-cursor, valid_iff}

-- Is no block larger than that?
unfoldable pub within : ℕ → List Block → Bool
within remaining [] = true
within remaining (block ∷ blocks) = leb block.1 remaining && within remaining blocks

-- What `validHeap` comes to for several regions
unfoldable pub all_within : List HeapHeader → List (List Block) → Bool
all_within [] regions = true
all_within (heap ∷ heaps) [] = true
all_within (heap ∷ heaps) (blocks ∷ regions) =
    within heap.remaining blocks && all_within heaps regions

-- Each header with its blocks
abbrev pub AllRegions : List HeapHeader → List (List Block) → Type 0
AllRegions [] [] = Unit {0}
AllRegions [] (blocks ∷ regions) = ⊥
AllRegions (heap ∷ heaps) [] = ⊥
AllRegions (heap ∷ heaps) (blocks ∷ regions) = IsRegion heap blocks × AllRegions heaps regions

module _ (heap : HeapHeader) (inside : heap.address + heap.size + 16 < 2 ^ 64) where
  total_valid :
      (fuel at total : ℕ)
      → 0 < at
      → valid_heap_entry heap (heap.entries at) ≡ true
      → total_size (suc fuel) heap at total
        ≡ total_size fuel heap (next_heap_entry heap at) (add64 total (8 + (heap.entries at).size))
  unfolding total_size
  total_valid fuel at total proper valid = ground (arith, proper, valid)

  total_corrupt :
      (fuel at total : ℕ)
      → 0 < at
      → valid_heap_entry heap (heap.entries at) ≡ false
      → total_size (suc fuel) heap at total ≡ none
  unfolding total_size
  total_corrupt fuel at total proper bad = ground (arith, proper, bad)

  total_null : (fuel total : ℕ) → total_size (suc fuel) heap 0 total ≡ some total
  unfolding total_size
  total_null fuel total = refl

  total_size_lem :
      (fuel at total : ℕ) (blocks : List Block)
      → heap.address + 48 ≤ at
      → Tiles heap.entries at (heap.address + heap.size) blocks
      → span blocks < fuel
      → total + span blocks < 2 ^ 64
      → total_size fuel heap (cursor at blocks) total
        ≡ (if within heap.remaining blocks then some (total + span blocks) else none)
  unfolding span within
  total_size_lem zero at total blocks from tiles enough fits = ground (arith, enough)
  total_size_lem (suc fuel) at total [] from tiles enough fits =
      total_null fuel total ∙ ap some (omega arith)
  total_size_lem (suc fuel) at total (block ∷ blocks) from (stands, rest) enough fits =
      let (sign, is_size, least) = stands in
      let to : at + 8 + block.1 ≤ heap.address + heap.size = omega (
        arith,
        Tiles-span heap.entries (at + 8 + block.1) (heap.address + heap.size) blocks rest,
      ) in
      let valid = valid_iff heap inside at block from to stands in
      let sum : add64 total (8 + (heap.entries at).size) ≡ total + 8 + block.1 =
        omega (arith, is_size, fits) in
      elim (Bool-cases (leb block.1 heap.remaining)) [
        | inr large ↦ rw large (total_corrupt fuel at total (omega (arith, from)) (valid ∙ large))
        | inl fine ↦
            total_valid fuel at total (omega (arith, from)) (valid ∙ fine)
            ∙ ap₂ (total_size fuel heap) (next-cursor heap inside at block blocks (stands, rest))
                sum
            ∙ total_size_lem fuel (at + 8 + block.1) (total + 8 + block.1) blocks
                (omega (arith, from)) rest (omega (arith, enough)) (omega (arith, fits))
            ∙ rw fine (
                ap (λ (n : ℕ). if within heap.remaining blocks then some n else none) (omega arith))
      ]

pub cursor_first : (at : ℕ) (blocks : List Block) → 0 < span blocks → cursor at blocks ≡ at
unfolding span
cursor_first at [] h = ground (arith, h)
cursor_first at (block ∷ blocks) h = refl

accepted :
    (total size : ℕ)
    → total ≡ size
    → (t : Bool) → (elim (if t then some total else none) [ none ↦ false | some x ↦ x == size ]) ≡ t
accepted total size e true = ground (arith, e)
accepted total size e false = refl

valid_heap-within :
    (heap : HeapHeader) (blocks : List Block)
    → IsRegion heap blocks
    → valid_heap heap ≡ within heap.remaining blocks
unfolding valid_heap
valid_heap-within heap blocks region =
    let whole =
      Tiles-span heap.entries (first_entry heap) (heap.address + heap.size) blocks region.tiles in
    let found =
      ap (λ (a : ℕ). total_size heap.size heap a 48)
        (sym (cursor_first (first_entry heap) blocks (omega (arith, whole, region.some_block))))
      ∙ total_size_lem heap region.inside heap.size (first_entry heap) 48 blocks (omega arith)
          region.tiles (omega (arith, whole, region.some_block))
          (omega (arith, whole, region.inside)) in
    ap (λ (out : Option ℕ). elim out [ none ↦ false | some total ↦ total == heap.size ]) found
    ∙ accepted (48 + span blocks) heap.size (omega (arith, whole)) (within heap.remaining blocks)

pub valid_heaps-all_within :
    (heaps : List HeapHeader) (regions : List (List Block))
    → AllRegions heaps regions
    → valid_heaps heaps ≡ all_within heaps regions
unfolding valid_heaps all_within
valid_heaps-all_within [] regions h = refl
valid_heaps-all_within (heap ∷ heaps) [] h = elim h [ ]
valid_heaps-all_within (heap ∷ heaps) (blocks ∷ regions) (region, rest) =
    ap₂ ◌&&◌ (valid_heap-within heap blocks region) (valid_heaps-all_within heaps regions rest)
