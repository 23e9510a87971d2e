-- ===== src/Heap/Tests.antt =====
-- Runs of the heap, and its theorems at a concrete state.
use mayv.Prelude.{ℕ, ◌≡◌, refl, true, false, ◌==◌, if◌then◌else◌, arith, List, [], ◌∷◌}
use mayv.Heap.Regions.{
  HeapHeader, Outcome, panicked, faulted, overran, returned, free_signature, used_signature,
  next_heap_entry, valid_heap_entry, total_size, find_block, take_block, take_found, serve,
  valid_heap, valid_heaps, allocate,
}
use mayv.Heap.Tiling.{Block, IsRegion, free_total}
use mayv.Heap.Allocation.{Allocated, allocate-Allocated}

-- A region of 256 bytes: a used block of 16 bytes, and a free one.
abbrev small_region : HeapHeader
small_region = record {
  address = 0x10000;
  entry_count = 1;
  entry_table = λ i. 0x10038;
  remaining = 176;
  size = 256;
  entries = λ a.
      if a == 0x10030
      then record { signature = used_signature; size = 16 }
      else if a == 0x10048
      then record { signature = free_signature; size = 176 }
      else record { signature = 0; size = 0 };
}

abbrev small_blocks : List Block
small_blocks = (false, 16) ∷ (true, 176) ∷ []

small_region-IsRegion : IsRegion small_region small_blocks
unfolding free_total
small_region-IsRegion = record {
  tiles = ((refl, refl, omega arith), ((refl, refl, omega arith), refl));
  remaining = refl;
  some_block = omega arith;
  inside = omega arith;
  recorded = omega arith;
}

allocate-Allocated_example :
    Allocated 20 (small_region ∷ []) (small_blocks ∷ []) (allocate (small_region ∷ []) 20)
allocate-Allocated_example =
    allocate-Allocated (small_region ∷ []) (small_blocks ∷ []) 20 (small_region-IsRegion, tt) refl
      (omega arith) (omega arith)

abbrev value_of : Outcome (List HeapHeader × ℕ) → ℕ
value_of panicked = 1
value_of faulted = 2
value_of overran = 3
value_of (returned (heaps, value)) = value

-- 20 bytes come from the free block, and 120 bytes are more than what is left, so the check panics.
runs :
    (value_of (allocate (small_region ∷ []) 20) ≡ 0x10050)
    × (value_of (allocate (small_region ∷ []) 120) ≡ 1)
unfolding next_heap_entry valid_heap_entry total_size find_block take_block take_found serve
    valid_heap valid_heaps allocate
runs = (refl, refl)
