-- ===== src/Physical/MarkPages.antt =====
-- `markPages` as a whole, on a range of pages inside the memory.
use mayv.Prelude.{
  ℕ, zero, suc, ◌+◌, ◌-◌, ◌*◌, ◌/◌, ◌%◌, ◌^◌, ◌≤◌, ◌<◌, ◌≡◌, refl, ◌∙◌, ◌&&◌, ◌==◌, if◌then◌else◌,
  arith, inl, inr,
}
use mayv.Prelude.Words.{add64}
use mayv.Physical.Pages.{Bitmaps, MarkPageType, PhysicalMemory}
use mayv.Physical.Marking.{mark_loop, mark_pages, sync_orders}
use mayv.Physical.Layout.{used_at}
use mayv.Physical.Sync.{buddies_halve}
use mayv.Physical.Invariant.{page_used, count_used, Counted, IsValid}
use mayv.Physical.Counting.{mark_bit, in_range, mark_loop-Counted, mark_loop-used_at}
use mayv.Physical.Closing.{sync_orders-Closed, sync_orders-page, ClosedTo}

-- `markPages` at the level of page numbers: on the pages from `p` on
pub mark_pages-run :
    (s : PhysicalMemory) (address count : ℕ) (ty : MarkPageType)
    → 0 < count
    → s.total < 2 ^ 51
    → address / 4096 + count ≤ s.total
    → mark_pages s address count ty ≡ (
        let p = address / 4096 in
        let (bits, available) = mark_loop s.total ty (p * 4096) 0 count (s.bits, s.available) in
        record s {
          available = available;
          bits = sync_orders s.total 9 count 0 (p * 4096) ((p + count) * 4096) bits;
        })
unfolding mark_pages
mark_pages-run s address count ty pos small fits = rw (start, end) (ground arith)
  where
    start : address - address % 4096 ≡ address / 4096 * 4096
    start = omega arith

    end : add64 (address / 4096 * 4096) (count * 4096) ≡ (address / 4096 + count) * 4096
    end = omega arith

-- Marking nothing changes nothing.
pub mark_pages-zero :
    (s : PhysicalMemory) (address : ℕ) (ty : MarkPageType) → mark_pages s address 0 ty ≡ s
unfolding mark_pages
mark_pages-zero s address ty = refl

-- In a valid state, on a range inside the memory, `markPages` gives exactly the pages of the range the mark, used or
-- free, and every other page keeps its own.
pub mark_pages-page_used :
    (s : PhysicalMemory) (address count : ℕ) (ty : MarkPageType) (c : ℕ)
    → IsValid s
    → address / 4096 + count ≤ s.total
    → c < s.total
    → page_used (mark_pages s address count ty) c ≡ (
        if in_range (address / 4096) (address / 4096 + count) c then mark_bit ty else page_used s c)
mark_pages-page_used s address zero ty c v fits hc =
    rw (mark_pages-zero s address ty) (ground arith)
mark_pages-page_used s address (suc n) ty c v fits hc =
    rw (mark_pages-run s address (suc n) ty (omega arith) v.small fits) (
      sync_orders-page s.total v.whole v.small (address / 4096) (address / 4096 + suc n) fits 9 0
        (suc n) _ c (omega arith) (omega arith) (omega arith) hc
      ∙ ground (
        arith,
        mark_loop-used_at s.total v.whole v.small ty (address / 4096) 0 (suc n)
            (s.bits, s.available) 0 c (omega arith) (omega arith),
      ))

-- a page mark leaves every buddy outside the range closed
mark_loop-ClosedTo :
    (s : PhysicalMemory) (p count : ℕ) (ty : MarkPageType) (v : IsValid s)
    (fits : p + count ≤ s.total)
    → ClosedTo s.total v.whole v.small p
        (p + count)
        fits
        0
        (mark_loop s.total ty (p * 4096) 0 count (s.bits, s.available)).0
mark_loop-ClosedTo s p count ty v fits o b ho hb u (inl h) = absurd (omega arith)
mark_loop-ClosedTo s p count ty v fits o b ho hb u (inr out) = ground (
  arith,
  page o b hb,
  page (suc o) (b / 2) (omega (arith, buddies_halve s.total v.whole v.small o ho)),
  v.closed o b ho hb,
  one_page,
)
  where
    page :
        (m c : ℕ)
        → c < s.total / 2 ^ m
        → used_at s.total (mark_loop s.total ty (p * 4096) 0 count (s.bits, s.available)).0 m c ≡ (
            if m == 0 && in_range (p + 0) (p + 0 + count) c
            then mark_bit ty
            else used_at s.total s.bits m c)
    page m c =
        mark_loop-used_at s.total v.whole v.small ty p 0 count (s.bits, s.available) m c
          (omega arith)

    one_page : o ≡ 0 → 2 ^ o ≡ 1
    one_page e = rw e

-- The count of used pages depends on the bits of order 0 alone.
pub count_used-congruent :
    (total : ℕ) (bits other : Bitmaps) (n : ℕ)
    → ((c : ℕ) → c < n → used_at total bits 0 c ≡ used_at total other 0 c)
    → count_used total bits n ≡ count_used total other n
unfolding count_used
count_used-congruent total bits other zero same = refl
count_used-congruent total bits other (suc n) same =
    ground (arith, same n, count_used-congruent total bits other n (λ c h. same c (omega arith)))

-- In a valid state, and of a range that lies inside the memory, `markPages` keeps the invariant,
-- whether it marks pages used or free.
pub mark_pages-IsValid :
    (s : PhysicalMemory) (address count : ℕ) (ty : MarkPageType)
    → IsValid s
    → address / 4096 + count ≤ s.total
    → IsValid (mark_pages s address count ty)
mark_pages-IsValid s address zero ty v fits = rw (mark_pages-zero s address ty) v
mark_pages-IsValid s address (suc n) ty v fits =
    rw (mark_pages-run s address (suc n) ty (omega arith) v.small fits) record {
      whole = v.whole;
      small = v.small;
      counted = rw same_count counted;
      closed = λ o b ho hb u. closed o b ho hb u (inl (omega arith));
    }
  where
    p : ℕ
    p = address / 4096

    loop : Bitmaps × ℕ
    loop = mark_loop s.total ty (p * 4096) 0 (suc n) (s.bits, s.available)

    counted : Counted s.total loop
    counted =
        mark_loop-Counted s.total v.whole v.small ty p 0 (suc n) (s.bits, s.available) (omega arith)
          v.counted

    closed :
        ClosedTo s.total v.whole v.small p
          (p + suc n)
          fits
          9
          (sync_orders s.total 9 (suc n) 0 (p * 4096) ((p + suc n) * 4096) loop.0)
    closed =
        sync_orders-Closed s.total v.whole v.small p (p + suc n) fits 9 0 (suc n) loop.0
          (omega arith) (omega arith) (omega arith) (mark_loop-ClosedTo s p (suc n) ty v fits)

    same_count :
        count_used s.total
          (sync_orders s.total 9 (suc n) 0 (p * 4096) ((p + suc n) * 4096) loop.0)
          s.total
        ≡ count_used s.total loop.0 s.total
    same_count = count_used-congruent s.total _ loop.0 s.total (λ c h.
        sync_orders-page s.total v.whole v.small p (p + suc n) fits 9 0 (suc n) loop.0 c
          (omega arith) (omega arith) (omega arith) h)
