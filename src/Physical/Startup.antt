-- ===== src/Physical/Startup.antt =====
-- What `initialize` leaves: a valid allocator in which exactly the reserved pages are used.
use mayv.Prelude.{
  ℕ, zero, suc, ◌+◌, ◌*◌, ◌/◌, ◌%◌, ◌^◌, ◌≤◌, ◌<◌, ◌≡◌, refl, ◌∙◌, Bool, false, not, ◌&&◌, ◌||◌,
  if◌then◌else◌, arith, inl, inr, Bool-cases, List, [], ◌∷◌, ◌⊎◌,
}
use mayv.Physical.Pages.{Bitmaps, PhysicalMemory, used}
use mayv.Physical.Marking.{mark_pages}
use mayv.Physical.Layout.{used_at, below_next}
use mayv.Physical.Invariant.{page_used, count_used, IsValid}
use mayv.Physical.Counting.{in_range}
use mayv.Physical.MarkPages.{mark_pages-IsValid, mark_pages-page_used}
use mayv.Physical.Initialize.{
  MapEntry, pages_for, total_size, buddy_pages_count, mark_unusable, cleared, initialize,
}
use mayv.Physical.Limits.{mark_pages-beyond}

-- The region lies inside the memory, or behind its end.
abbrev pub Placed : ℕ → ℕ → ℕ → Type 0
Placed total address count = (address / 4096 + count ≤ total) ⊎ (total * 4096 ≤ address)

abbrev pub AllPlaced : ℕ → List MapEntry → Type 0
AllPlaced total [] = Unit {0}
AllPlaced total (e ∷ es) = Placed total e.base (pages_for e.len) × AllPlaced total es

-- Is the page one of those that are counted from the base of a region that is not usable?
abbrev pub in_unusable : List MapEntry → ℕ → Bool
in_unusable [] c = false
in_unusable (e ∷ es) c =
    in_unusable es c
    || (not e.usable && in_range (e.base / 4096) (e.base / 4096 + pages_for e.len) c)

mark_pages-total :
    (s : PhysicalMemory) (address count : ℕ) → (mark_pages s address count used).total ≡ s.total
unfolding mark_pages
mark_pages-total s address count = ground arith

-- The state after a marking of used pages: valid, of the same size, with those pages used as well.
record Reserved (s t : PhysicalMemory) (region : ℕ → Bool) : Type 0 where
  valid : IsValid t
  same_total : t.total ≡ s.total
  pages : (c : ℕ) → c < s.total → page_used t c ≡ (region c || page_used s c)

mark_used-Reserved :
    (s : PhysicalMemory) (address count : ℕ)
    → IsValid s
    → Placed s.total address count
    → Reserved s
        (mark_pages s address count used)
        (in_range (address / 4096) (address / 4096 + count))
mark_used-Reserved s address count v (inl fits) = record {
  valid = mark_pages-IsValid s address count used v fits;
  same_total = mark_pages-total s address count;
  pages = λ c h. ground (arith, mark_pages-page_used s address count used c v fits h);
}
mark_used-Reserved s address count v (inr beyond) = record {
  valid = rw (mark_pages-beyond s address count used beyond) v;
  same_total = mark_pages-total s address count;
  pages = λ c h. rw (mark_pages-beyond s address count used beyond) (ground arith);
}

Reserved-trans :
    {s t u : PhysicalMemory} {first second : ℕ → Bool}
    → Reserved s t first
    → Reserved t u second
    → Reserved s u (λ c. second c || first c)
Reserved-trans a b = record {
  valid = b.valid;
  same_total = b.same_total ∙ a.same_total;
  pages = λ c h. ground (arith, a.pages c h, b.pages c (rw a.same_total h));
}

-- what one entry of the memory map reserves
mark_entry-Reserved :
    (e : MapEntry) (s : PhysicalMemory)
    → IsValid s
    → Placed s.total e.base (pages_for e.len)
    → Reserved s
        (if e.usable then s else mark_pages s e.base (pages_for e.len) used)
        (λ c. not e.usable && in_range (e.base / 4096) (e.base / 4096 + pages_for e.len) c)
mark_entry-Reserved e s v placed = elim (Bool-cases e.usable) [
  | inl u ↦ rw u (record { valid = v; same_total = refl; pages = λ c h. refl })
  | inr r ↦ rw r (mark_used-Reserved s e.base (pages_for e.len) v placed)
]

mark_unusable-Reserved :
    (es : List MapEntry) (s : PhysicalMemory)
    → IsValid s
    → AllPlaced s.total es
    → Reserved s (mark_unusable es s) (in_unusable es)
unfolding mark_unusable
mark_unusable-Reserved [] s v placed = record { valid = v; same_total = refl; pages = λ c h. refl }
mark_unusable-Reserved (e ∷ es) s v placed =
    let first : Reserved s (if e.usable then s else mark_pages s e.base (pages_for e.len) used)
        (λ c. not e.usable && in_range (e.base / 4096) (e.base / 4096 + pages_for e.len) c) =
      mark_entry-Reserved e s v placed.0 in
    Reserved-trans first (mark_unusable-Reserved es _ first.valid (rw first.same_total placed.1))

cleared_bit :
    (total : ℕ) (memory : Bitmaps) (o b : ℕ)
    → o < 10
    → b < total / 2 ^ o
    → used_at total (cleared total memory).bits o b ≡ false
unfolding cleared buddy_pages_count
cleared_bit total memory o b ho hb = ground (arith, below_next total o b 10 hb ho)

none_used :
    (total : ℕ) (memory : Bitmaps) (n : ℕ)
    → n ≤ total
    → count_used total (cleared total memory).bits n ≡ 0
unfolding count_used
none_used total memory zero h = refl
none_used total memory (suc n) h =
    ground (arith, none_used total memory n, cleared_bit total memory 0 n)

pub cleared-IsValid :
    (total : ℕ) (memory : Bitmaps)
    → total % 512 ≡ 0
    → total < 2 ^ 51
    → IsValid (cleared total memory)
unfolding cleared
cleared-IsValid total memory whole small = record {
  whole = whole;
  small = small;
  counted = omega (arith, none_used total memory total (omega arith));
  closed = λ o b ho hb u. cc (u, cleared_bit total memory o b (omega arith) hb);
}

-- one more region marked used
then_mark :
    {s t : PhysicalMemory} {region : ℕ → Bool} (address count : ℕ)
    → Reserved s t region
    → Placed s.total address count
    → Reserved s
        (mark_pages t address count used)
        (λ c. in_range (address / 4096) (address / 4096 + count) c || region c)
then_mark {t = t} address count before placed =
    Reserved-trans before
      (mark_used-Reserved t address count before.valid (rw before.same_total placed))

then_mark_unusable :
    {s t : PhysicalMemory} {region : ℕ → Bool} (map : List MapEntry)
    → Reserved s t region
    → AllPlaced s.total map
    → Reserved s (mark_unusable map t) (λ c. in_unusable map c || region c)
then_mark_unusable {t = t} map before placed =
    Reserved-trans before (mark_unusable-Reserved map t before.valid (rw before.same_total placed))

-- the regions that `initialize` marks, in its order
abbrev pub in_reserved : List MapEntry → ℕ → ℕ → ℕ → ℕ → ℕ → Bool
in_reserved map bitmaps pages kernel_base kernel_size c =
    in_unusable map c
    || (in_range (bitmaps / 4096) (bitmaps / 4096 + pages) c
        || (in_range (kernel_base / 4096) (kernel_base / 4096 + kernel_size / 4096) c
            || (in_range 0x90 0x100 c || in_range 0 0x80 c)))

-- For a memory map whose sizes make up at least one and whole groups of 2 MiB, below 2^63 bytes, and
-- ranges of marked pages that lie inside the memory or behind its end, `initialize` leaves a valid
-- allocator in which a page is used exactly if it lies below 0x80000 or between 0x90000 and 1 MiB, is
-- one of the kernel's size / 4096 pages from the page of its base on, one of the pages of the bitmaps,
-- or, for a region that the map does not call usable, one of its length / 4096 pages, rounded up, from
-- the page of its base on. If such a region begins inside a page, the last page that it reaches can stay free.
pub initialize-pages :
    (map : List MapEntry) (memory : Bitmaps) (bitmaps kernel_base kernel_size total : ℕ)
    → total ≡ total_size map 0 / 4096
    → total % 512 ≡ 0
    → 0x100 ≤ total
    → total < 2 ^ 51
    → Placed total kernel_base (kernel_size / 4096)
    → Placed total bitmaps (buddy_pages_count total)
    → AllPlaced total map
    → let s = (initialize map memory bitmaps kernel_base kernel_size).0 in
      IsValid s
      × (s.total ≡ total)
      × ((c : ℕ)
          → c < total
          → page_used s c
            ≡ in_reserved map bitmaps (buddy_pages_count total) kernel_base kernel_size c)
unfolding initialize cleared
initialize-pages map memory bitmaps kernel_base kernel_size total size whole mib small k b u =
    rw (← size) (all.valid, all.same_total, λ c h. pages c h)
  where
    start : PhysicalMemory
    start = cleared total memory

    low : Reserved start (mark_pages start 0 128 used) (in_range 0 128)
    low =
        mark_used-Reserved start 0 128 (cleared-IsValid total memory whole small)
          (inl (omega arith))

    marked : PhysicalMemory
    marked =
        mark_pages
          (mark_pages (mark_pages (mark_pages start 0 128 used) 0x90000 112 used) kernel_base
            (kernel_size / 4096) used)
          bitmaps (buddy_pages_count total) used

    own : Reserved start marked (λ c.
        in_range (bitmaps / 4096) (bitmaps / 4096 + buddy_pages_count total) c
        || (in_range (kernel_base / 4096) (kernel_base / 4096 + kernel_size / 4096) c
            || (in_range 0x90 0x100 c || in_range 0 0x80 c)))
    own =
        then_mark bitmaps (buddy_pages_count total)
          (then_mark kernel_base (kernel_size / 4096)
            (then_mark 0x90000 112 low (inl (omega arith))) k)
          b

    all :
        Reserved start
          (mark_unusable map marked)
          (in_reserved map bitmaps (buddy_pages_count total) kernel_base kernel_size)
    all = then_mark_unusable map own u

    pages :
        (c : ℕ)
        → c < total
        → page_used (mark_unusable map marked) c
          ≡ in_reserved map bitmaps (buddy_pages_count total) kernel_base kernel_size c
    pages c h = ground (arith, all.pages c h, cleared_bit total memory 0 c)
