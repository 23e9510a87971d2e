-- ===== src/Paging/Recursive.antt =====
-- src/boot/virtualmemmgmt.cpp: `tables`, the virtual addresses of the tables of a page.
use mayv.Paging.CrawlLaws.{Agrees, crawl_from_above}
use mayv.Prelude.{
  ℕ, zero, suc, ◌+◌, ◌-◌, ◌*◌, ◌/◌, ◌^◌, ◌≤◌, ◌≡◌, refl, ap, sym, ◌∙◌, true, arith, inl, inr, ◌≢◌,
  some,
}
use mayv.Prelude.Memory.{update}
use mayv.Physical.Request.{invalid_address}
use mayv.Virtual.Space.{is_canonical}
use mayv.Paging.Tables.{Frames, VirtualMemory, index_at, CrawlResult, crawl_start, crawl}
use mayv.Paging.Tree.{walk}
use mayv.Paging.Sound.{translate}
use mayv.Paging.MapPage.{crawl-Agrees}

abbrev pub pt_mask : ℕ
pt_mask = 2 ^ 64 - 1 - 1024 * 2 ^ 30 + 1

abbrev pub pd_mask : ℕ
pd_mask = pt_mask + 510 * 2 ^ 30

abbrev pub pdpt_mask : ℕ
pdpt_mask = pd_mask + 510 * 2 ^ 21

abbrev pub pml4t : ℕ
pml4t = pdpt_mask + 510 * 2 ^ 12

-- `tables[i]`
abbrev pub tables : ℕ → ℕ → ℕ
tables zero page = invalid_address
tables (suc zero) page =
    pt_mask + index_at 3 page * 2 ^ 30 + index_at 2 page * 2 ^ 21 + index_at 1 page * 2 ^ 12
tables (suc (suc zero)) page = pd_mask + index_at 3 page * 2 ^ 21 + index_at 2 page * 2 ^ 12
tables (suc (suc (suc zero))) page = pdpt_mask + index_at 3 page * 2 ^ 12
tables (suc (suc (suc (suc i)))) page = pml4t

-- The entry `pml4tRecursiveEntry` of the root leads back to the root.
abbrev pub IsRecursive : VirtualMemory → Type 0
IsRecursive vm =
    ((vm.frames vm.root 510).present ≡ true)
    × ((vm.frames vm.root 510).physical_address * 4096 ≡ vm.root)

-- One step of the walk, at a known index.
walk_via :
    (frames : Frames) (page i table k next : ℕ)
    → index_at i page ≡ k
    → (frames table k).present ≡ true
    → (frames table k).physical_address * 4096 ≡ next
    → walk frames page (suc i) table ≡ walk frames page i next
unfolding walk
walk_via frames page i table k next at there to = rw (at, there, to) refl

-- Where a level at or below `i` was found, the entry of level `i` is there.
pub reached :
    (r : CrawlResult) (frames : Frames) (page i t m : ℕ)
    → Agrees r frames page (suc i) t
    → m ≤ i
    → r.physical_tables m ≢ invalid_address
    → ((frames t (index_at i page)).present ≡ true)
      × ((frames t (index_at i page)).physical_address * 4096 ≡ r.physical_tables i)
      × Agrees r frames page i (r.physical_tables i)
reached r frames page i t m (inl (there, table, agrees)) le h = (there, sym table, rw table agrees)
reached r frames page i t m (inr (gone, nothing)) le h =
    elim (h (nothing m (omega (arith, le)))) [ ]

pub crawl_root :
    (vm : VirtualMemory) (addr : ℕ)
    → is_canonical addr ≡ true
    → (crawl vm addr).physical_tables 4 ≡ vm.root
unfolding crawl crawl_start
crawl_root vm addr h =
    let start = crawl_start vm in
    rw h (
      crawl_from_above vm.frames (addr / 4096) 4 vm.root 4
        (record start {
          canonical = true;
          physical_tables = update start.physical_tables 4 vm.root;
        })
        (omega arith))

module _ (vm : VirtualMemory) (r : CrawlResult) (page : ℕ) (recursive : IsRecursive vm)
    (agrees : Agrees r vm.frames page 4 vm.root) (root : r.physical_tables 4 ≡ vm.root) where
  self :
      (p i : ℕ) → index_at i p ≡ 510 → walk vm.frames p (suc i) vm.root ≡ walk vm.frames p i vm.root
  self p i at = walk_via vm.frames p i vm.root 510 vm.root at recursive.0 recursive.1

  table_at :
      (level : ℕ)
      → 1 ≤ level
      → level ≤ 4
      → r.physical_tables level ≢ invalid_address
      → walk vm.frames (tables level page / 4096) 4 vm.root ≡ some (r.physical_tables level)
  unfolding walk
  table_at zero from to valid = ground (arith, from)
  table_at (suc zero) from to valid =
      let (there3, to3, agrees3) =
        reached r vm.frames page 3 vm.root 1 agrees (omega arith) valid in
      let (there2, to2, agrees2) =
        reached r vm.frames page 2 (r.physical_tables 3) 1 agrees3 (omega arith) valid in
      let (there1, to1, agrees1) =
        reached r vm.frames page 1 (r.physical_tables 2) 1 agrees2 (omega arith) valid in
      let p = tables 1 page / 4096 in
      self p 3 (omega arith)
      ∙ walk_via vm.frames p 2 vm.root (index_at 3 page) (r.physical_tables 3) (omega arith) there3
          to3
      ∙ walk_via vm.frames p 1 (r.physical_tables 3) (index_at 2 page) (r.physical_tables 2)
          (omega arith) there2 to2
      ∙ walk_via vm.frames p 0 (r.physical_tables 2) (index_at 1 page) (r.physical_tables 1)
          (omega arith) there1 to1
  table_at (suc (suc zero)) from to valid =
      let (there3, to3, agrees3) =
        reached r vm.frames page 3 vm.root 2 agrees (omega arith) valid in
      let (there2, to2, agrees2) =
        reached r vm.frames page 2 (r.physical_tables 3) 2 agrees3 (omega arith) valid in
      let p = tables 2 page / 4096 in
      self p 3 (omega arith)
      ∙ self p 2 (omega arith)
      ∙ walk_via vm.frames p 1 vm.root (index_at 3 page) (r.physical_tables 3) (omega arith) there3
          to3
      ∙ walk_via vm.frames p 0 (r.physical_tables 3) (index_at 2 page) (r.physical_tables 2)
          (omega arith) there2 to2
  table_at (suc (suc (suc zero))) from to valid =
      let (there3, to3, agrees3) =
        reached r vm.frames page 3 vm.root 3 agrees (omega arith) valid in
      let p = tables 3 page / 4096 in
      self p 3 (omega arith)
      ∙ self p 2 (omega arith)
      ∙ self p 1 (omega arith)
      ∙ walk_via vm.frames p 0 vm.root (index_at 3 page) (r.physical_tables 3) (omega arith) there3
          to3
  table_at (suc (suc (suc (suc zero)))) from to valid =
      let p = tables 4 page / 4096 in
      self p 3 (omega arith)
      ∙ self p 2 (omega arith)
      ∙ self p 1 (omega arith)
      ∙ self p 0 (omega arith)
      ∙ ap some (sym root)
  table_at (suc (suc (suc (suc (suc level))))) from to valid = ground (arith, to)

-- Where the entry 510 of the root leads back to the root, the virtual address `tables[i]` of each level
-- that the crawl of a canonical address finds translates to the physical address of the table that it
-- finds at that level.
pub crawl-tables :
    (vm : VirtualMemory) (addr level : ℕ)
    → IsRecursive vm
    → is_canonical addr ≡ true
    → 1 ≤ level
    → level ≤ 4
    → (crawl vm addr).physical_tables level ≢ invalid_address
    → translate vm (tables level (addr / 4096) / 4096)
      ≡ some ((crawl vm addr).physical_tables level)
crawl-tables vm addr level recursive canonical from to valid =
    table_at vm (crawl vm addr) (addr / 4096) recursive (crawl-Agrees vm addr canonical)
      (crawl_root vm addr canonical) level from to valid
