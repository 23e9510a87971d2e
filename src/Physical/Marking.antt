-- ===== src/Physical/Marking.antt =====
-- src/boot/phymemmgmt.cpp: `markPages`, which marks pages at order 0 and then brings the bitmaps of
-- the higher orders up to date.
use mayv.Prelude.{ℕ, zero, suc, ◌+◌, ◌-◌, ◌*◌, true, false, ltb, leb, ◌==◌, if◌then◌else◌}
use mayv.Prelude.Words.{add64, sub64}
use mayv.Physical.Pages.{
  page_size, max_order, Bitmaps, MarkPageType, free, used, PhysicalMemory, buddy_size, align_down,
  bitmap_index, bit_at, put_bit, are_buddies_of_type,
}

module _ (total : ℕ) where
  -- One round of the loop over the pages: the bitmaps and the count of available pages.
  unfoldable pub mark_page : MarkPageType → ℕ → Bitmaps × ℕ → Bitmaps × ℕ
  mark_page used addr (bits, available) =
      let index = bitmap_index total addr 0 in
      let current_used = bit_at total bits 0 index in
      (put_bit total bits 0 index true, (if current_used then available else sub64 available 1))
  mark_page free addr (bits, available) =
      let index = bitmap_index total addr 0 in
      let current_used = bit_at total bits 0 index in
      (put_bit total bits 0 index false, (if current_used then add64 available 1 else available))

  -- `for (i = 0; i < count; ++i)`, from `i` on with `left` rounds to go
  unfoldable pub mark_loop : MarkPageType → ℕ → ℕ → ℕ → Bitmaps × ℕ → Bitmaps × ℕ
  mark_loop ty addr i zero s = s
  mark_loop ty addr i (suc left) s =
      mark_loop ty addr (i + 1) left (mark_page ty (add64 addr (i * page_size)) s)

  -- The body of the `while` at order `suc below`: the buddy is used if one of its halves is.
  unfoldable pub sync_buddy : ℕ → ℕ → Bitmaps → Bitmaps
  sync_buddy below addr bits =
      if are_buddies_of_type total bits addr below 2 free
      then bits
      else put_bit total bits (suc below) (bitmap_index total addr (suc below)) true

  -- `while (currentLevelAddr < endAddr)`
  unfoldable pub sync_level : ℕ → ℕ → ℕ → ℕ → Bitmaps → Bitmaps
  sync_level zero below addr end bits = bits
  sync_level (suc fuel) below addr end bits =
      let next = add64 addr (buddy_size (suc below) * page_size) in
      let rest = sync_level fuel below next end (sync_buddy below addr bits) in
      if ltb addr end then rest else bits

  -- `for (i = 1; i < PHY_MEM_BUDDY_MAX_ORDER; ++i)`, from `suc below` on
  unfoldable pub sync_orders : ℕ → ℕ → ℕ → ℕ → ℕ → Bitmaps → Bitmaps
  sync_orders zero fuel below addr end bits = bits
  sync_orders (suc left) fuel below addr end bits =
      sync_orders left fuel (suc below) addr end
        (sync_level fuel below (align_down addr (suc below)) end bits)

-- `markPages`. The fuel `count` is enough for each `while`.
unfoldable pub mark_pages : PhysicalMemory → ℕ → ℕ → MarkPageType → PhysicalMemory
mark_pages s address count ty =
    if count == 0
    then s
    else if leb (s.total * page_size) address
    then s
    else let addr = align_down address 0 in
      let (bits, available) = mark_loop s.total ty addr 0 count (s.bits, s.available) in
      let end = add64 addr (count * page_size) in
      let synced = sync_orders s.total (max_order - 1) count 0 addr end bits in
      record s { available = available; bits = synced }
