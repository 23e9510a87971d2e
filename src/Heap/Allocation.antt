-- ===== src/Heap/Allocation.antt =====
-- `allocate`: which block is handed out, and the blocks of all regions afterwards.
use mayv.Prelude.{
  ℕ, ◌+◌, ◌-◌, ◌^◌, ◌≤◌, ◌<◌, ◌≡◌, refl, ap, ◌∙◌, Bool, true, false, leb, if◌then◌else◌, if_elim,
  arith, subst, dec_lt, List, [], ◌∷◌, ◌++◌,
}
use mayv.Heap.Regions.{
  HeapHeader, Outcome, panicked, faulted, overran, returned, table_slots, first_entry, find_block,
  take_block, take_found, put_back, put_front, serve, after_serving, aligned, is_null, allocate,
}
use mayv.Heap.Tiling.{Block, span, IsRegion, Tiles-span}
use mayv.Heap.Searching.{NoFit, Oversized, Search, hit, miss, corrupt, find_block-Search}
use mayv.Heap.Carving.{carve, take_block-IsRegion}
use mayv.Heap.Checking.{all_within, AllRegions, cursor_first, valid_heaps-all_within}

-- What the loop over the regions comes to: the blocks of the regions before, and after.
pub data Served (count : ℕ)
    : List HeapHeader
      → List (List Block)
      → List (List Block)
      → Outcome (List HeapHeader × ℕ)
      → Type 0 where
  nowhere : Served count [] [] [] (returned ([], 0))
  here :
      (heap : HeapHeader) (heaps : List HeapHeader) (blocks : List Block)
      (regions : List (List Block)) (before : List Block) (size : ℕ) (after : List Block)
      → count ≤ heap.remaining
      → blocks ≡ before ++ (true, size) ∷ after
      → count ≤ size
      → NoFit count before
      → heap.entry_count < table_slots
      → Served count
          (heap ∷ heaps)
          (blocks ∷ regions)
          ((before ++ carve count size after) ∷ regions)
          (returned (
            take_block heap count (first_entry heap + span before) ∷ heaps,
            first_entry heap + span before + 8,
          ))
  full_table :
      (heap : HeapHeader) (heaps : List HeapHeader) (blocks : List Block)
      (regions : List (List Block)) (before : List Block) (size : ℕ) (after : List Block)
      → count ≤ heap.remaining
      → blocks ≡ before ++ (true, size) ∷ after
      → count ≤ size
      → NoFit count before
      → table_slots ≤ heap.entry_count
      → Served count (heap ∷ heaps) (blocks ∷ regions) (blocks ∷ regions) overran
  no_block :
      (heap : HeapHeader) (heaps : List HeapHeader) (blocks : List Block)
      (regions : List (List Block))
      → count ≤ heap.remaining
      → NoFit count blocks
      → Served count (heap ∷ heaps) (blocks ∷ regions) (blocks ∷ regions) faulted
  oversized :
      (heap : HeapHeader) (heaps : List HeapHeader) (blocks : List Block)
      (regions : List (List Block))
      → count ≤ heap.remaining
      → Oversized heap.remaining blocks
      → Served count (heap ∷ heaps) (blocks ∷ regions) (blocks ∷ regions) panicked
  later :
      (heap : HeapHeader) (heaps : List HeapHeader) (blocks : List Block)
      (regions after : List (List Block)) (out : Outcome (List HeapHeader × ℕ))
      → heap.remaining < count
      → Served count heaps regions after out
      → Served count (heap ∷ heaps) (blocks ∷ regions) (blocks ∷ after) (put_back heap out)

-- The regions after a call that returned
abbrev pub Remain : Outcome (List HeapHeader × ℕ) → List (List Block) → Type 0
Remain panicked after = Unit {0}
Remain faulted after = Unit {0}
Remain overran after = Unit {0}
Remain (returned (heaps, value)) after = AllRegions heaps after

Remain-put_back :
    (heap : HeapHeader) (blocks : List Block) (after : List (List Block))
    (out : Outcome (List HeapHeader × ℕ))
    → IsRegion heap blocks
    → Remain out after
    → Remain (put_back heap out) (blocks ∷ after)
Remain-put_back heap blocks after panicked region h = tt
Remain-put_back heap blocks after faulted region h = tt
Remain-put_back heap blocks after overran region h = tt
Remain-put_back heap blocks after (returned (heaps, value)) region h = (region, h)

abbrev pub Serves : ℕ → List HeapHeader → List (List Block) → Outcome (List HeapHeader × ℕ) → Type 0
Serves count heaps regions out =
    (after : List (List Block)) × Served count heaps regions after out × Remain out after

module _ (count : ℕ) (least : 8 ≤ count) where
  take_hit :
      (heap : HeapHeader) (entry : ℕ)
      → 0 < entry
      → heap.entry_count < table_slots
      → take_found heap count (returned entry) ≡ returned (take_block heap count entry, entry + 8)
  unfolding take_found
  take_hit heap entry proper room = ground (arith, proper, room)

  take_full :
      (heap : HeapHeader) (entry : ℕ)
      → 0 < entry
      → table_slots ≤ heap.entry_count
      → take_found heap count (returned entry) ≡ overran
  unfolding take_found
  take_full heap entry proper full = ground (arith, proper, full)

  served_here :
      (heap : HeapHeader) (heaps : List HeapHeader) (blocks : List Block)
      (regions : List (List Block)) (out : Outcome ℕ)
      → IsRegion heap blocks
      → AllRegions heaps regions
      → count ≤ heap.remaining
      → Search heap.remaining count (first_entry heap) blocks out
      → Serves count (heap ∷ heaps) (blocks ∷ regions) (put_front heaps (take_found heap count out))
  unfolding take_found
  served_here heap heaps blocks regions out region rest enough
        (hit before size after e fits none_before) =
      elim (dec_lt heap.entry_count table_slots) [
        | no full ↦
            rw (take_full heap (first_entry heap + span before) (omega arith) (omega (arith, full)))
              (
                blocks ∷ regions,
                full_table heap heaps blocks regions before size after enough e fits none_before
                    (omega (arith, full)),
                tt,
              )
        | yes room ↦ rw (take_hit heap (first_entry heap + span before) (omega arith) room) (
          (before ++ carve count size after) ∷ regions,
          here heap heaps blocks regions before size after enough e fits none_before room,
          (
            take_block-IsRegion heap before after size count (subst (IsRegion heap) e region) fits
                least room,
            rest,
          ),
        )
      ]
  served_here heap heaps blocks regions out region rest enough (miss none_there) =
      (blocks ∷ regions, no_block heap heaps blocks regions enough none_there, tt)
  served_here heap heaps blocks regions out region rest enough (corrupt large) =
      (blocks ∷ regions, oversized heap heaps blocks regions enough large, tt)

  Search-first :
      (heap : HeapHeader) (blocks : List Block)
      → IsRegion heap blocks
      → Search heap.remaining count
          (first_entry heap)
          blocks
          (find_block heap.size heap count (first_entry heap))
  Search-first heap blocks region =
      let whole =
        Tiles-span heap.entries (first_entry heap) (heap.address + heap.size) blocks region.tiles in
      subst
        (λ (a : ℕ).
          Search heap.remaining count (first_entry heap) blocks (find_block heap.size heap count a))
        (cursor_first (first_entry heap) blocks (omega (arith, whole, region.some_block)))
        (find_block-Search heap region.inside heap.size count (first_entry heap) blocks
          (omega arith) region.tiles (omega (arith, whole, region.some_block)))

  pub serve-Serves :
      (heaps : List HeapHeader) (regions : List (List Block))
      → AllRegions heaps regions
      → Serves count heaps regions (serve count heaps)
  unfolding serve
  serve-Serves [] [] h = ([], nowhere, tt)
  serve-Serves [] (blocks ∷ regions) h = elim h [ ]
  serve-Serves (heap ∷ heaps) [] h = elim h [ ]
  serve-Serves (heap ∷ heaps) (blocks ∷ regions) (region, rest) =
      if_elim (Serves count (heap ∷ heaps) (blocks ∷ regions)) (leb count heap.remaining)
        (λ enough.
          served_here heap heaps blocks regions (find_block heap.size heap count (first_entry heap))
            region rest (ground (arith, enough)) (Search-first heap blocks region))
        (λ little.
          let (after, served, remain) = serve-Serves heaps regions rest in
          (
            blocks ∷ after,
            later heap heaps blocks regions after (serve count heaps) (ground (arith, little))
                served,
            Remain-put_back heap blocks after (serve count heaps) region remain,
          ))

-- The check of all regions at the end
abbrev pub checked :
    Outcome (List HeapHeader × ℕ) → List (List Block) → Outcome (List HeapHeader × ℕ)
checked panicked after = panicked
checked faulted after = faulted
checked overran after = overran
checked (returned (heaps, value)) after =
    if all_within heaps after then returned (heaps, value) else panicked

after_serving-checked :
    (out : Outcome (List HeapHeader × ℕ)) (after : List (List Block))
    → Remain out after
    → after_serving out ≡ checked out after
after_serving-checked panicked after h = refl
after_serving-checked faulted after h = refl
after_serving-checked overran after h = refl
after_serving-checked (returned (heaps, value)) after h =
    ap (λ (t : Bool). if t then returned (heaps, value) else panicked)
      (valid_heaps-all_within heaps after h)

allocate_serves :
    (heaps : List HeapHeader) (count : ℕ)
    → is_null heaps ≡ false
    → 0 < count
    → count < 2 ^ 21 - 56
    → allocate heaps count ≡ after_serving (serve (aligned count) heaps)
unfolding allocate
allocate_serves heaps count some_heap from below = ground (arith, some_heap, from, below)

-- What allocating in regions of those blocks comes to.
abbrev pub Allocated :
    ℕ → List HeapHeader → List (List Block) → Outcome (List HeapHeader × ℕ) → Type 0
Allocated count heaps regions out =
    (served : Outcome (List HeapHeader × ℕ)) × (after : List (List Block)) × Served (aligned count)
      heaps regions after served
    × Remain served after
    × (out ≡ checked served after)

-- `allocate` of a size that is not zero and less than a new region's, in at least one region, each
-- filled by its blocks: the first region whose free blocks together are large enough is asked for the
-- size, rounded up to a multiple of 8. Its first free block that is large enough becomes a used block,
-- split if the rest can be a block of its own, and the address behind its entry is the result, if the
-- entry table of the region, of 16384 entries, has room for one more; otherwise the call writes behind
-- the table. If the region has no such block the call writes through a null pointer; if it panics instead, one of its blocks is
-- larger than all its free ones together. If no region is asked the result is null. The regions
-- afterwards are filled by their new blocks, and the call returns only if no block of any region is
-- larger than the free blocks of its region together; otherwise it panics.
pub allocate-Allocated :
    (heaps : List HeapHeader) (regions : List (List Block)) (count : ℕ)
    → AllRegions heaps regions
    → is_null heaps ≡ false
    → 0 < count
    → count < 2 ^ 21 - 56
    → Allocated count heaps regions (allocate heaps count)
allocate-Allocated heaps regions count h some_heap from below =
    let served = serve (aligned count) heaps in
    let least : 8 ≤ aligned count = ground (arith, from) in
    let (after, how, remain) = serve-Serves (aligned count) least heaps regions h in
    (
      served,
      after,
      how,
      remain,
      allocate_serves heaps count some_heap from below ∙ after_serving-checked served after remain,
    )
