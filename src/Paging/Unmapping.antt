-- ===== src/Paging/Unmapping.antt =====
-- src/boot/virtualmemmgmt.cpp: `unmapPages`.
use mayv.Prelude.{ℕ, zero, suc, ◌+◌, ◌/◌, ◌%◌, Bool, true, false, not, ◌||◌, ◌==◌, if◌then◌else◌}
use mayv.Prelude.Words.{add64}
use mayv.Physical.Pages.{free}
use mayv.Physical.Marking.{mark_pages}
use mayv.Physical.Request.{invalid_address}
use mayv.Paging.Tables.{Frames, set_entry, VirtualMemory, index_at, CrawlResult, crawl}

-- `tables[i][index].present = 0`
unfoldable pub clear_present : VirtualMemory → ℕ → ℕ → VirtualMemory
clear_present vm table index = record vm {
  frames = set_entry vm.frames table index (record (vm.frames table index) { present = false });
}

-- The loop over the entries, from `k` on: are all absent?
unfoldable pub all_absent : Frames → ℕ → ℕ → ℕ → Bool
all_absent frames table zero k = true
all_absent frames table (suc left) k =
    let others = all_absent frames table left (k + 1) in
    if (frames table k).present then false else others

-- The page itself, if the address is fully resolved.
unfoldable pub unmap_leaf : VirtualMemory → CrawlResult → ℕ → Bool → VirtualMemory
unmap_leaf vm r page free_physical =
    if r.physical_tables 0 == invalid_address
    then vm
    else let cleared = clear_present vm (r.physical_tables 1) (index_at 0 page) in
      if free_physical
      then record cleared { physical = mark_pages vm.physical (r.physical_tables 0) 1 free }
      else cleared

-- One round for the table of level `j + 1`.
unfoldable pub free_table : VirtualMemory → CrawlResult → ℕ → ℕ → VirtualMemory
free_table vm r page j =
    let table = r.physical_tables (suc j) in
    if table == invalid_address
    then vm
    else let cleared = clear_present vm (r.physical_tables (suc (suc j))) (index_at (suc j) page) in
      if all_absent vm.frames table 512 0
      then record cleared { physical = mark_pages vm.physical table 1 free }
      else vm

-- One round of the loop, for a canonical address.
unfoldable pub unmap_page : VirtualMemory → CrawlResult → ℕ → Bool → VirtualMemory
unmap_page vm r page free_physical =
    free_table (free_table (free_table (unmap_leaf vm r page free_physical) r page 0) r page 1) r
      page 2

unfoldable pub unmap_loop : ℕ → VirtualMemory → ℕ → Bool → VirtualMemory × Bool
unmap_loop zero vm addr free_physical = (vm, true)
unmap_loop (suc left) vm addr free_physical =
    let r = crawl vm addr in
    let rest =
      unmap_loop left (unmap_page vm r (addr / 4096) free_physical) (add64 addr 4096)
        free_physical in
    if r.canonical then rest else (vm, false)

-- `unmapPages`
unfoldable pub unmap_pages : VirtualMemory → ℕ → ℕ → Bool → VirtualMemory × Bool
unmap_pages vm addr count free_physical =
    if count == 0 || not (addr % 4096 == 0)
    then (vm, false)
    else unmap_loop count vm addr free_physical
