-- ===== src/Paging/Mapping.antt =====
-- src/boot/virtualmemmgmt.cpp: `mapPages`. `none` is a panic.
use mayv.Prelude.{
  ℕ, zero, suc, ◌/◌, ◌%◌, ◌^◌, Bool, true, false, not, ◌||◌, ◌==◌, if◌then◌else◌, Option, none,
  some,
}
use mayv.Prelude.Words.{add64, has_flag}
use mayv.Physical.Pages.{PhysicalMemory}
use mayv.Physical.Request.{PageRequestResult, invalid_address, physical_contiguous, request_pages}
use mayv.Paging.Tables.{set_entry, clear_table, VirtualMemory, index_at, CrawlResult, crawl}

-- The table at `address` linked into its parent, and cleared.
unfoldable pub link_table : VirtualMemory → ℕ → ℕ → ℕ → VirtualMemory
link_table vm parent index address =
    let entry = record (vm.frames parent index) {
      present = true;
      writable = true;
      physical_address = address / 4096 % 2 ^ 40;
    } in
    record vm { frames = clear_table (set_entry vm.frames parent index entry) address }

-- The table made of the page that was requested for it: the memory and the table's physical address.
unfoldable pub use_page :
    VirtualMemory → ℕ → ℕ → PhysicalMemory × PageRequestResult → Option (VirtualMemory × ℕ)
use_page vm parent index (physical, result) =
    if result.address == invalid_address || not (result.allocated_count == 1)
    then none
    else some
        (link_table (record vm { physical = physical }) parent index result.address, result.address)

unfoldable pub create_table : VirtualMemory → ℕ → ℕ → Option (VirtualMemory × ℕ)
create_table vm parent index =
    use_page vm parent index (request_pages vm.physical 1 physical_contiguous)

-- `for (j = 3; j >= 1; --j)`, from level `j` on, with the table of the level above. The result is the
-- table of level 1.
unfoldable pub make_tables : CrawlResult → ℕ → ℕ → ℕ → VirtualMemory → Option (VirtualMemory × ℕ)
make_tables r page zero parent vm = some (vm, parent)
make_tables r page (suc i) parent vm =
    let kept = make_tables r page i (r.physical_tables (suc i)) vm in
    let made : Option (VirtualMemory × ℕ) = elim (create_table vm parent (index_at (suc i) page)) [
      | none ↦ none
      | some (linked, table) ↦ make_tables r page i table linked
    ] in
    if r.physical_tables (suc i) == invalid_address then made else kept

-- The entry of the page itself.
unfoldable pub set_leaf : VirtualMemory → ℕ → ℕ → ℕ → ℕ → VirtualMemory
set_leaf vm table index physical_page flags =
    let entry = record (vm.frames table index) {
      present = true;
      physical_address = physical_page % 2 ^ 40;
      cache_disable = has_flag flags 4;
      writable = has_flag flags 64;
      execute_disable = not (has_flag flags 32);
    } in
    record vm { frames = set_entry vm.frames table index entry }

-- One round of the loop, for a canonical address.
unfoldable pub map_page : VirtualMemory → CrawlResult → ℕ → ℕ → ℕ → Option VirtualMemory
map_page vm r page physical_page flags = elim (make_tables r page 3 vm.root vm) [
  | none ↦ none
  | some (grown, table) ↦
      if r.physical_tables 0 == invalid_address
      then some (set_leaf grown table (index_at 0 page) physical_page flags)
      else some grown
]

unfoldable pub map_loop : ℕ → VirtualMemory → ℕ → ℕ → ℕ → Option (VirtualMemory × Bool)
map_loop zero vm vir phy flags = some (vm, true)
map_loop (suc left) vm vir phy flags =
    let r = crawl vm vir in
    let mapped : Option (VirtualMemory × Bool) =
      elim (map_page vm r (vir / 4096) (phy / 4096) flags) [
        | none ↦ none
        | some next ↦ map_loop left next (add64 vir 4096) (add64 phy 4096) flags
      ] in
    if r.canonical then mapped else some (vm, false)

-- `mapPages`
unfoldable pub map_pages : VirtualMemory → ℕ → ℕ → ℕ → ℕ → Option (VirtualMemory × Bool)
map_pages vm vir phy count flags =
    if count == 0 || not (phy % 4096 == 0) || not (vir % 4096 == 0)
    then some (vm, false)
    else map_loop count vm vir phy flags
