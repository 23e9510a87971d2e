-- ===== src/Virtual/Tests.antt =====
-- Runs of the address space lists, and their theorems at concrete lists.
use mayv.Prelude.{
  ℕ, leb, ◌<◌, ◌^◌, ◌≡◌, refl, Bool, true, false, if◌then◌else◌, arith, Option, none, some, [], ◌∷◌,
}
use mayv.Prelude.Words.{has_flag}
use mayv.Virtual.Space.{
  AddressSpaceNode, AddressSpace, best_fit, is_better, claim, defrag, remove_empty, merge_into,
  merge, check_loop, back, check_passes, behind, release, is_canonical,
}
use mayv.Virtual.Regions.{Tiled, available_at, available_pages}
use mayv.Virtual.Initial.{first_general_space, first_kernel_space, Usable, initialize-IsValid}
use mayv.Virtual.Defrag.{tidy, tidy_lem, Tidy}
use mayv.Virtual.Check.{IsValid, defrag_lem}
use mayv.Virtual.Freeing.{free_pages}
use mayv.Virtual.Requesting.{map_got, map_physical, map_requested, request_space}
use mayv.Paging.Tree.{walk}
use mayv.Paging.Mapping.{
  link_table, use_page, create_table, make_tables, set_leaf, map_page, map_loop, map_pages,
}
use mayv.Physical.Pages.{
  used, bit_at, bitmap_index, are_buddies_of_type, buddies_loop, is_of_type, put_bit, bitmap_start,
  bitmap_size,
}
use mayv.Physical.Request.{request_pages, request_contiguous, contiguous_loop, grant}
use mayv.Virtual.FreePages.{Freed, free_pages-Freed}
use mayv.Paging.Tables.{empty_entry, VirtualMemory, crawl_start, crawl_from, crawl}
use mayv.Paging.Unmapping.{
  clear_present, all_absent, unmap_leaf, free_table, unmap_page, unmap_loop, unmap_pages,
}
use mayv.Physical.Marking.{mark_pages, mark_loop, mark_page, sync_orders, sync_level, sync_buddy}
use mayv.Virtual.Request.{Answered, request_space-Answered}

program : Unit {0}
unfolding best_fit is_better claim defrag request_space map_requested remove_empty merge_into merge
    check_loop back check_passes behind release has_flag is_canonical free_pages clear_present
    all_absent unmap_leaf free_table unmap_page unmap_loop unmap_pages crawl_start crawl_from crawl
    mark_pages
program = tt

abbrev block : Bool → ℕ → ℕ → AddressSpaceNode
block available base page_count = record {
  available = available;
  base = base;
  page_count = page_count;
}

-- 4 used pages, 2 available ones, 2 used ones and 8 available ones
abbrev general : AddressSpace
general = record {
  list = block false 0 4 ∷ block true 0x4000 2 ∷ block false 0x6000 2 ∷ block true 0x8000 8 ∷ [];
  pages_available = 10;
}

-- Page tables in which nothing is mapped
abbrev unmapped_tables : VirtualMemory
unmapped_tables = record {
  physical = record { total = 512; available = 512; bits = λ k. false };
  frames = λ table index. empty_entry;
  root = 0x1000;
}

-- The address space after `freePages`, and its answer
abbrev space_after : Option (AddressSpace × VirtualMemory × Bool) → Option (AddressSpace × Bool)
space_after none = none
space_after (some (after, vm, answer)) = some (after, answer)

-- The best fit of two pages is the second block.
request_two :
    request_space false general unmapped_tables 2 16
    ≡ some (
      record { list = block false 0 8 ∷ block true 0x8000 8 ∷ []; pages_available = 8 },
      unmapped_tables,
      record { address = 0x4000; allocated_count = 2 },
    )
unfolding program
request_two = refl

-- A request for the last bytes of the space panics.
request_all : request_space false general unmapped_tables 8 16 ≡ none
unfolding program
request_all = refl

-- Nine pages are available, but not in one block.
request_nine : request_space false general unmapped_tables 9 16 ≡ none
unfolding program
request_nine = refl

free_two :
    space_after (free_pages false general unmapped_tables 0x6000 2 0)
    ≡ some
        (record { list = block false 0 4 ∷ block true 0x4000 12 ∷ []; pages_available = 12 }, true)
unfolding program
free_two = refl

free_middle :
    space_after (free_pages false general unmapped_tables 0x1000 1 0)
    ≡ some (
      record {
        list =
            block false 0 1
            ∷ block true 0x1000 1
            ∷ block false 0x2000 2
            ∷ block true 0x4000 2
            ∷ block false 0x6000 2
            ∷ block true 0x8000 8
            ∷ [];
        pages_available = 11;
      },
      true,
    )
unfolding program
free_middle = refl

-- A request without RequestType::VirtualContiguous panics.
request_scattered : request_space false general unmapped_tables 2 8 ≡ none
unfolding program
request_scattered = refl

-- A range that no block holds is taken for freed.
free_none : space_after (free_pages false general unmapped_tables 0x3000 2 0) ≡ some (general, true)
unfolding program
free_none = refl

free_again : space_after (free_pages false general unmapped_tables 0x4000 1 0) ≡ none
unfolding program
free_again = refl

general-Tiled : Tiled 0 0x10000 general.list
general-Tiled = (refl, (refl, (refl, (refl, refl))))

general-IsValid : IsValid false 0x10000 general
general-IsValid = (
  general-Tiled,
  refl,
  (omega arith, (omega arith, refl, (omega arith, refl, (omega arith, refl, tt)))),
)

tidy_lem_example :
    Tiled 0 0x10000 (tidy general.list)
    × ((a : ℕ) → available_at (tidy general.list) a ≡ available_at general.list a)
    × (available_pages (tidy general.list) ≡ available_pages general.list)
    × Tidy (tidy general.list)
tidy_lem_example = tidy_lem 0 0x10000 general.list (omega arith) general-Tiled

defrag_lem_example : defrag false general ≡ (
    if available_at general.list 0xffff
    then some (record general { list = tidy general.list })
    else none)
defrag_lem_example = defrag_lem false general 0x10000 (omega arith) (omega arith) general-Tiled refl

request_space-Answered_example :
    Answered false 0x10000 general unmapped_tables 2 16
      (request_space false general unmapped_tables 2 16)
request_space-Answered_example =
    request_space-Answered false 0x10000 general unmapped_tables 2 16 (omega arith) (omega arith)
      general-IsValid (omega arith) (omega arith)

low_is_canonical : is_canonical 0x1000 ≡ true
unfolding program
low_is_canonical = refl

free_pages-Freed_example :
    Freed false 0x10000 general unmapped_tables 0x1000 1
      (has_flag 2 2)
      (free_pages false general unmapped_tables 0x1000 1 2)
free_pages-Freed_example =
    free_pages-Freed false 0x10000 general unmapped_tables 0x1000 1 2 (omega arith) (omega arith)
      general-IsValid (omega arith) (omega arith) refl low_is_canonical

initialize-IsValid_example :
    IsValid false 0xffffffff80000000 first_general_space
    × IsValid true (2 ^ 64) (first_kernel_space 0xffffffff80400000)
    × ((a : ℕ) → available_at first_general_space.list a ≡ true → Usable a)
    × ((a : ℕ)
        → a < 2 ^ 64
        → available_at (first_kernel_space 0xffffffff80400000).list a ≡ leb 0xffffffff80400000 a)
initialize-IsValid_example = initialize-IsValid 0xffffffff80400000 refl (omega arith) (omega arith)

-- 4 MiB of which the first page above 1 MiB is the root.
abbrev small_tables : VirtualMemory
small_tables = record {
  physical =
      mark_pages (record { total = 1024; available = 1024; bits = λ k. false }) 0x1000 1 used;
  frames = λ table index. empty_entry;
  root = 0x1000;
}

abbrev first_page : Option VirtualMemory → Option ℕ
first_page none = none
first_page (some vm) = walk vm.frames 4 4 vm.root

-- Two pages at 0x4000 are mapped to the first two free pages from 1 MiB on.
mapped_run : first_page (map_requested small_tables 0x4000 2 26) ≡ some 0x100000
unfolding program walk map_physical map_got request_pages request_contiguous contiguous_loop grant
    map_pages map_loop map_page make_tables create_table use_page link_table set_leaf mark_loop
    mark_page bit_at bitmap_index sync_orders sync_level sync_buddy are_buddies_of_type buddies_loop
    is_of_type put_bit bitmap_start bitmap_size
mapped_run = refl
