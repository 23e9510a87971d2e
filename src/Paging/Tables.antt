-- ===== src/Paging/Tables.antt =====
-- src/boot/virtualmemmgmt.cpp: the page tables and `CrawlResult`. A table is a page of physical memory;
-- `frames` gives its entries by its physical address. The code reaches a table at the virtual
-- address `tables[i]` through the recursive entry of the root; Recursive shows that this is the table
-- that the crawl finds at that level, so the model reads and writes that table.
use mayv.Prelude.{ℕ, zero, suc, ◌*◌, ◌/◌, ◌%◌, Bool, true, false, not, if◌then◌else◌}
use mayv.Prelude.Memory.{update}
use mayv.Physical.Pages.{PhysicalMemory}
use mayv.Physical.Request.{invalid_address}
use mayv.Virtual.Space.{is_canonical}

-- `PML4E`, without the bits that the code does not use.
pub record PageTableEntry : Type 0 where
  pub present : Bool
  pub writable : Bool
  pub cache_disable : Bool
  pub execute_disable : Bool
  pub physical_address : ℕ

abbrev pub empty_entry : PageTableEntry
empty_entry = record {
  present = false;
  writable = false;
  cache_disable = false;
  execute_disable = false;
  physical_address = 0;
}

abbrev pub Frames : Type 0
Frames = ℕ → ℕ → PageTableEntry

-- `tables[i][index] = entry`, for the table at the physical address
abbrev pub set_entry : Frames → ℕ → ℕ → PageTableEntry → Frames
set_entry frames table index entry = update frames table (update (frames table) index entry)

-- `memset(tables[i], 0, pageSize)`
abbrev pub clear_table : Frames → ℕ → Frames
clear_table frames table = update frames table (λ index. empty_entry)

-- The physical allocator, the tables, and `infoTable.pml4tPhysicalAddress`.
pub record VirtualMemory : Type 0 where
  pub physical : PhysicalMemory
  pub frames : Frames
  pub root : ℕ

-- `addr >>= virtualPageIndexShift`, `i` times
abbrev pub shifted : ℕ → ℕ → ℕ
shifted zero page = page
shifted (suc i) page = shifted i page / 512

-- `indexes[i + 1]`
abbrev pub index_at : ℕ → ℕ → ℕ
index_at i page = shifted i page % 512

pub record CrawlResult : Type 0 where
  pub canonical : Bool
  pub physical_tables : ℕ → ℕ
  pub cached : ℕ → Bool
  pub writable : ℕ → Bool
  pub executable : ℕ → Bool

-- What the crawl has found before its loop.
unfoldable pub crawl_start : VirtualMemory → CrawlResult
crawl_start vm = record {
  canonical = false;
  physical_tables = λ i. invalid_address;
  cached = update (λ i. false) 4 (not (vm.frames vm.root 0).cache_disable);
  writable = update (λ i. false) 4 (vm.frames vm.root 0).writable;
  executable = update (λ i. false) 4 (not (vm.frames vm.root 0).execute_disable);
}

-- The fields of level `i` from the entry that is present.
abbrev pub found : ℕ → PageTableEntry → CrawlResult → CrawlResult
found i entry r = record r {
  physical_tables = update r.physical_tables i (entry.physical_address * 4096);
  cached = update r.cached i (not entry.cache_disable);
  writable = update r.writable i entry.writable;
  executable = update r.executable i (not entry.execute_disable);
}

-- `for (i = 4; i >= 1; --i)`, from the table at level `i` on
unfoldable pub crawl_from : Frames → ℕ → ℕ → ℕ → CrawlResult → CrawlResult
crawl_from frames page zero table r = r
crawl_from frames page (suc i) table r =
    let entry = frames table (index_at i page) in
    let lower = crawl_from frames page i (entry.physical_address * 4096) (found i entry r) in
    if entry.present then lower else r

-- `CrawlResult(void*)`
unfoldable pub crawl : VirtualMemory → ℕ → CrawlResult
crawl vm addr =
    let start = crawl_start vm in
    if is_canonical addr
    then crawl_from vm.frames (addr / 4096) 4 vm.root (record start {
      canonical = true;
      physical_tables = update start.physical_tables 4 vm.root;
    })
    else start
