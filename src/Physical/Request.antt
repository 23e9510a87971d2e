-- ===== src/Physical/Request.antt =====
-- src/boot/phymemmgmt.cpp: `requestPages`, which finds free pages and marks them used.
use mayv.Prelude.{
  ℕ, zero, suc, ◌+◌, ◌-◌, ◌*◌, ◌/◌, ◌^◌, Bool, ◌&&◌, ◌||◌, ltb, leb, ◌==◌, if◌then◌else◌, Option,
  none, some,
}
use mayv.Prelude.Words.{has_flag}
use mayv.Physical.Pages.{
  page_size, max_order, Bitmaps, used, PhysicalMemory, buddy_size, bitmap_size, bitmap_start,
}
use mayv.Physical.Marking.{mark_pages}

-- `INVALID_ADDRESS`
abbrev pub invalid_address : ℕ
invalid_address = 2 ^ 63

-- `RequestType::PhysicalContiguous`
abbrev pub physical_contiguous : ℕ
physical_contiguous = 8

-- MIB_2 / 2 / pageSize
abbrev pub first_page : ℕ
first_page = 256

pub record PageRequestResult : Type 0 where
  pub address : ℕ
  pub allocated_count : ℕ

abbrev pub no_pages : PageRequestResult
no_pages = record { address = invalid_address; allocated_count = 0 }

module _ (total : ℕ) (bits : Bitmaps) where
  -- The loop over `pageIndex` in the contiguous case, with `left` pages to go. The result is
  -- `allocateStartIndex` where `allocated` is set.
  unfoldable pub contiguous_loop : ℕ → ℕ → ℕ → ℕ → ℕ → Option ℕ
  contiguous_loop count zero page start counted = none
  contiguous_loop count (suc left) page start counted =
      let byte = page / 8 in
      let bit = page - byte * 8 in
      let after_used = contiguous_loop count left (page + 1) (page + 1) 0 in
      let after_free = contiguous_loop count left (page + 1) start (counted + 1) in
      if bits ((bitmap_start total 0 + byte) * 8 + bit)
      then after_used
      else (if counted + 1 == count then some start else after_free)

  -- buddyBitmaps[order][byte] == 0xff
  unfoldable pub is_full_byte : ℕ → ℕ → Bool
  is_full_byte order byte =
      let base = (bitmap_start total order + byte) * 8 in
      bits base
      && bits (base + 1)
      && bits (base + 2)
      && bits (base + 3)
      && bits (base + 4)
      && bits (base + 5)
      && bits (base + 6)
      && bits (base + 7)

  -- The search for a byte that is not full, with `left` bytes to go.
  unfoldable pub find_byte : ℕ → ℕ → ℕ → Option ℕ
  find_byte order zero byte = none
  find_byte order (suc left) byte =
      let rest = find_byte order left (byte + 1) in
      if is_full_byte order byte then rest else some byte

  -- The search for a clear bit of the byte; 8 if there is none.
  unfoldable pub find_bit : ℕ → ℕ → ℕ → ℕ → ℕ
  find_bit order byte zero bit = bit
  find_bit order byte (suc left) bit =
      let rest = find_bit order byte left (bit + 1) in
      if bits ((bitmap_start total order + byte) * 8 + bit) then rest else bit

  -- The index of a buddy that the bitmap of the order shows as free.
  unfoldable pub find_buddy : ℕ → Option ℕ
  find_buddy order = elim (find_byte order (bitmap_size total order) 0) [
    | none ↦ none
    | some byte ↦ some (find_bit order byte 8 0 + byte * 8)
  ]

  -- `for (int i = closestLevel - 1; i >= 0; --i)`, after the search at `order` itself: the order at
  -- which a buddy is found, and the buddy.
  unfoldable pub find_at_or_below : ℕ → Option (ℕ × ℕ)
  find_at_or_below zero = elim (find_buddy 0) [ none ↦ none | some b ↦ some (0, b) ]
  find_at_or_below (suc order) =
      let lower = find_at_or_below order in
      elim (find_buddy (suc order)) [ none ↦ lower | some b ↦ some (suc order, b) ]

-- `for (closestLevel = 0; ...; ++closestLevel)`, with `left` levels to go
unfoldable pub fitting_level : ℕ → ℕ → ℕ → ℕ
fitting_level count zero level = level
fitting_level count (suc left) level =
    let rest = fitting_level count left (level + 1) in
    if leb count (buddy_size level) then level else rest

-- The level at which the search starts: one lower if more than a quarter would be wasted.
unfoldable pub closest_level : ℕ → ℕ
closest_level count =
    let level = fitting_level count max_order 0 in
    if count == buddy_size level
    then level
    else if ltb (count - buddy_size (level - 1)) (buddy_size (level - 2))
    then level - 1
    else level

-- Marks the pages and builds the result.
unfoldable pub grant : PhysicalMemory → ℕ → ℕ → PhysicalMemory × PageRequestResult
grant s address count =
    (mark_pages s address count used, record { address = address; allocated_count = count })

unfoldable pub request_contiguous : PhysicalMemory → ℕ → PhysicalMemory × PageRequestResult
request_contiguous s count =
    elim (contiguous_loop s.total s.bits count (s.total - first_page) first_page first_page 0) [
      | none ↦ (s, no_pages)
      | some start ↦ grant s (start * page_size) count
    ]

unfoldable pub request_buddy : PhysicalMemory → ℕ → PhysicalMemory × PageRequestResult
request_buddy s count = elim (find_at_or_below s.total s.bits (closest_level count)) [
  | none ↦ (s, no_pages)
  | some (order, buddy) ↦ grant s (buddy * 2 ^ (12 + order)) (buddy_size order)
]

-- `requestPages`
unfoldable pub request_pages : PhysicalMemory → ℕ → ℕ → PhysicalMemory × PageRequestResult
request_pages s count flags =
    if count == 0 || ltb s.available count
    then (s, no_pages)
    else if has_flag flags physical_contiguous
    then request_contiguous s count
    else if leb count (buddy_size (max_order - 1))
    then request_buddy s count
    else (s, no_pages)
