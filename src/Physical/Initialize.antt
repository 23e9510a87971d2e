-- ===== src/Physical/Initialize.antt =====
-- src/boot/phymemmgmt.cpp: `initialize`, from the memory map of the firmware to the allocator. The
-- progress messages are left out.
use mayv.Prelude.{ℕ, ◌+◌, ◌-◌, ◌*◌, ◌/◌, ◌%◌, Bool, false, ltb, ◌==◌, if◌then◌else◌, List, [], ◌∷◌}
use mayv.Prelude.Words.{word}
use mayv.Physical.Pages.{Bitmaps, PhysicalMemory, used, page_size, max_order, bitmap_start}
use mayv.Physical.Marking.{mark_pages}

-- `ACPI::Entryv3`. `usable` is `regionType == ACPI::MemoryType::Usable`.
pub record MapEntry : Type 0 where
  pub base : ℕ
  pub len : ℕ
  pub usable : Bool

-- `x / pageSize`, and one more if that is not exact
abbrev pub pages_for : ℕ → ℕ
pages_for x = if x == x / page_size * page_size then x / page_size else x / page_size + 1

-- `phyMemTotalSize`
unfoldable pub total_size : List MapEntry → ℕ → ℕ
total_size [] sum = sum
total_size (e ∷ es) sum = total_size es ((sum + e.len) % word)

-- `phyMemBuddyPagesCount`: the pages that the bitmaps take up
unfoldable pub buddy_pages_count : ℕ → ℕ
buddy_pages_count total = pages_for (bitmap_start total max_order)

-- The last loop: what the firmware does not call usable is marked used.
unfoldable pub mark_unusable : List MapEntry → PhysicalMemory → PhysicalMemory
mark_unusable [] s = s
mark_unusable (e ∷ es) s =
    mark_unusable es (if e.usable then s else mark_pages s e.base (pages_for e.len) used)

-- The allocator with cleared bitmaps. `memory` is what stood where the bitmaps are put.
unfoldable pub cleared : ℕ → Bitmaps → PhysicalMemory
cleared total memory = record {
  total = total;
  available = total;
  bits = λ k. if ltb k (buddy_pages_count total * page_size * 8) then false else memory k;
}

-- `bitmaps` is `buddyBitmaps[0]`: `usablePhyMemStart` and what the code reads in
-- `buddyBitmapSizes[-1]`. The result is the allocator and `phyMemBuddyPagesCount`.
unfoldable pub initialize : List MapEntry → Bitmaps → ℕ → ℕ → ℕ → PhysicalMemory × ℕ
initialize map memory bitmaps kernel_base kernel_size =
    let total = total_size map 0 / page_size in
    let pages = buddy_pages_count total in
    let low = mark_pages (cleared total memory) 0 (0x80000 / page_size) used in
    let bios = mark_pages low 0x90000 ((0x100000 - 0x90000) / page_size) used in
    let kernel = mark_pages bios kernel_base (kernel_size / page_size) used in
    let own = mark_pages kernel bitmaps pages used in (mark_unusable map own, pages)
