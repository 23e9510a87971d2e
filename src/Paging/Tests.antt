-- ===== src/Paging/Tests.antt =====
-- Runs of the page tables, and their theorems at a concrete state.
use mayv.Prelude.{
  ℕ, ◌+◌, ◌/◌, ◌<◌, ◌≡◌, refl, true, false, ◌&&◌, ◌==◌, if◌then◌else◌, arith, none, some,
}
use mayv.Physical.Pages.{PhysicalMemory, used}
use mayv.Physical.Marking.{mark_pages}
use mayv.Physical.Invariant.{page_used, count_used}
use mayv.Physical.Invariant
use mayv.Physical.MarkPages.{mark_pages-page_used, mark_pages-IsValid}
use mayv.Virtual.Space.{is_canonical}
use mayv.Paging.Tables.{
  PageTableEntry, empty_entry, Frames, VirtualMemory, crawl_start, crawl_from, crawl,
}
use mayv.Paging.Mapping.{map_pages}
use mayv.Paging.Tree.{Owner, Ordinary, IsTree, walk}
use mayv.Paging.Sound.{IsSound, translate}
use mayv.Paging.MapRange.{Mapped, map_pages-Mapped}
use mayv.Paging.Unmapping.{
  clear_present, all_absent, unmap_leaf, free_table, unmap_page, unmap_loop, unmap_pages,
}
use mayv.Paging.UnmapRange.{Removed, unmap_pages-Removed}
use mayv.Paging.Recursive.{tables, crawl-tables}

-- 4 MiB of which the first page is used by the root.
abbrev all_free : PhysicalMemory
all_free = record { total = 1024; available = 1024; bits = λ k. false }

all_free-IsValid : Invariant.IsValid all_free
unfolding count_used
all_free-IsValid = record {
  whole = refl;
  small = omega arith;
  counted = refl;
  closed = λ o b ho hb u. cc;
}

abbrev booted : VirtualMemory
booted = record {
  physical = mark_pages all_free 0x1000 1 used;
  frames = λ table index. empty_entry;
  root = 0x1000;
}

abbrev root_only : Owner
root_only = λ f. if f == 0x1000 then some (4, 0) else none

root_page : (f : ℕ) (x : ℕ × ℕ) → root_only f ≡ some x → f ≡ 0x1000
root_page f x h = ground (arith, h)

booted-IsSound : IsSound booted root_only
unfolding mark_pages
booted-IsSound = record {
  tree = record {
    rooted = refl;
    child = λ f l p k h below proper there. cc;
    bounded = λ f k. omega arith;
  };
  allocator = mark_pages-IsValid all_free 0x1000 1 used all_free-IsValid (omega arith);
  small = omega arith;
  held = λ f x h.
      let at = root_page f x h in
      rw at (
        omega arith,
        mark_pages-page_used all_free 0x1000 1 used 1 all_free-IsValid (omega arith) (omega arith),
      );
}

map_pages-Mapped_example : Mapped booted 0x400 3 2 (map_pages booted 0x400000 0x3000 2 64)
map_pages-Mapped_example =
    map_pages-Mapped 2 booted root_only 0x400 3 64 booted-IsSound (omega arith) (omega arith)
      two_ordinary (omega arith) (omega arith)
  where
    two_ordinary : (k : ℕ) → k < 2 → Ordinary (0x400 + k)
    two_ordinary k lt = omega (arith, lt)

-- A root with its recursive entry, a table of level 3 at 0x2000, of level 2 at 0x3000 and of level 1 at
-- 0x4000, whose entry 5 leads to 0x9000.
abbrev entry_to : ℕ → PageTableEntry
entry_to address = record empty_entry { present = true; physical_address = address / 4096 }

abbrev mapped_frames : Frames
mapped_frames = λ table index.
    if table == 0x1000 && index == 510
    then entry_to 0x1000
    else if table == 0x1000 && index == 0
    then entry_to 0x2000
    else if table == 0x2000 && index == 0
    then entry_to 0x3000
    else if table == 0x3000 && index == 2
    then entry_to 0x4000
    else if table == 0x4000 && index == 5
    then entry_to 0x9000
    else empty_entry

abbrev one_page : VirtualMemory
one_page = record { physical = all_free; frames = mapped_frames; root = 0x1000 }

abbrev path_owner : Owner
path_owner = λ f.
    if f == 0x1000
    then some (4, 0)
    else if f == 0x2000
    then some (3, 0)
    else if f == 0x3000
    then some (2, 0)
    else if f == 0x4000
    then some (1, 2)
    else none

one_page-IsTree : IsTree one_page.frames one_page.root path_owner
one_page-IsTree = record {
  rooted = refl;
  child = λ f l p k h below proper there. ground (arith, h, below, proper, there);
  bounded = λ f k. ground arith;
}

pages_405 : (k : ℕ) → k < 2 → Ordinary (0x405 + k)
pages_405 k lt = omega (arith, lt)

unmap_pages-Removed_example :
    Removed one_page path_owner 0x405 2 (unmap_pages one_page 0x405000 2 true)
unmap_pages-Removed_example =
    unmap_pages-Removed 2 one_page path_owner 0x405 true one_page-IsTree (omega arith) (omega arith)
      pages_405 (omega arith)

unmapped_run :
    (translate one_page 0x405 ≡ some 0x9000)
    × (translate (unmap_pages one_page 0x405000 2 true).0 0x405 ≡ none)
unfolding walk is_canonical crawl_start crawl_from crawl clear_present all_absent unmap_leaf
    free_table unmap_page unmap_loop unmap_pages
unmapped_run = (refl, refl)

crawl-tables_example :
    translate one_page (tables 1 0x405 / 4096) ≡ some ((crawl one_page 0x405000).physical_tables 1)
unfolding is_canonical crawl crawl_from
crawl-tables_example =
    crawl-tables one_page 0x405000 1 (refl, refl) refl (omega arith) (omega arith) (omega arith)
