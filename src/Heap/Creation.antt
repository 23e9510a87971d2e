-- ===== src/Heap/Creation.antt =====
-- src/boot/heapmemmgmt.cpp: `create`, on the virtual memory manager.
use mayv.Prelude.{
  ℕ, ◌+◌, ◌-◌, ◌/◌, ◌^◌, ◌<◌, ◌≡◌, ap, Bool, true, false, not, ◌||◌, ◌==◌, if◌then◌else◌, arith,
  Option, none, some, List, [], ◌∷◌, ◌++◌,
}
use mayv.Prelude.Memory.{update}
use mayv.Physical.Pages.{PhysicalMemory}
use mayv.Physical.Request.{PageRequestResult, invalid_address, physical_contiguous, request_pages}
use mayv.Paging.Tables.{VirtualMemory}
use mayv.Paging.Mapping.{map_pages}
use mayv.Heap.Regions.{
  HeapEntry, HeapHeader, new_region_size, header_size, entry_size, free_signature, entry_table_size,
}
use mayv.Heap.Tiling.{IsRegion, free_total}

-- `RequestType::Writable`
abbrev pub writable_flag : ℕ
writable_flag = 64

-- Contiguous pages mapped at an address: the guard of `create`, up to the page tables. `none` is a
-- panic of `mapPages`.
unfoldable pub map_request :
    VirtualMemory → ℕ → ℕ → PhysicalMemory × PageRequestResult → Option (VirtualMemory × Bool)
map_request vm address count (physical, result) =
    let requested = record vm { physical = physical } in
    if result.address == invalid_address || not (result.allocated_count == count)
    then some (requested, false)
    else map_pages requested address result.address result.allocated_count writable_flag

abbrev pub back_pages : VirtualMemory → ℕ → ℕ → Option (VirtualMemory × Bool)
back_pages vm address count =
    map_request vm address count (request_pages vm.physical count physical_contiguous)

-- The region after its memory was cleared and its header and its first entry were written, with what
-- the pages of its entry table hold.
abbrev pub new_region : ℕ → (ℕ → ℕ) → HeapHeader
new_region address contents = record {
  address = address;
  entry_count = 0;
  entry_table = contents;
  remaining = new_region_size - header_size - entry_size;
  size = new_region_size;
  entries =
      update (λ a. record { signature = 0; size = 0 }) (address + header_size)
        (record { signature = free_signature; size = new_region_size - header_size - entry_size });
}

-- `create`: the tables, the regions and the result. The second request is made only after the first
-- one was mapped.
unfoldable pub create :
    VirtualMemory
    → List HeapHeader
    → ℕ
    → ℕ
    → (ℕ → ℕ)
    → Option (VirtualMemory × List HeapHeader × Bool)
create vm heaps new_heap_address entry_table contents =
    elim (back_pages vm new_heap_address (new_region_size / 4096)) [
      | none ↦ none
      | some (backed, mapped) ↦
          let second : Option (VirtualMemory × List HeapHeader × Bool) =
            elim (back_pages backed entry_table (entry_table_size / 4096)) [
              | none ↦ none
              | some (last, both) ↦ some (
                last,
                (if both then heaps ++ new_region new_heap_address contents ∷ [] else heaps),
                both,
              )
            ] in
          if mapped then second else some (backed, heaps, false)
    ]

-- A new region is one free block.
pub new_region-IsRegion :
    (address : ℕ) (contents : ℕ → ℕ)
    → address + 2 ^ 21 + 16 < 2 ^ 64
    → IsRegion (new_region address contents) ((true, 2 ^ 21 - 56) ∷ [])
unfolding free_total
new_region-IsRegion address contents fits = record {
  tiles =
      let entry : HeapEntry = record { signature = free_signature; size = 2 ^ 21 - 56 } in
      let e : (new_region address contents).entries (address + 48) ≡ entry = ground arith in
      (
        (ap (λ (x : HeapEntry). x.signature) e, ap (λ (x : HeapEntry). x.size) e, omega arith),
        omega arith,
      );
  remaining = omega arith;
  some_block = omega arith;
  inside = omega (arith, fits);
  recorded = omega arith;
}
