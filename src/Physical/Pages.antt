-- ===== src/Physical/Pages.antt =====
-- src/boot/phymemmgmt.cpp: the sizes of the bitmaps, `BuddyBitmapIndex` and `areBuddiesOfType`.
-- The bitmaps lie one behind another from `buddyBitmaps[0]` on, so they are one sequence of bits:
-- bit k of the byte j stands at 8 * j + k.
use mayv.Prelude.{
  ℕ, zero, suc, ◌+◌, ◌-◌, ◌*◌, ◌/◌, ◌%◌, ◌^◌, Bool, true, false, not, ◌&&◌, ltb, leb, ◌==◌,
  if◌then◌else◌,
}
use mayv.Prelude.Memory.{update}
use mayv.Prelude.Words.{size_max, add64}

abbrev pub page_size : ℕ
page_size = 4096

-- `PHY_MEM_BUDDY_MAX_ORDER`
abbrev pub max_order : ℕ
max_order = 10

abbrev pub Bitmaps : Type 0
Bitmaps = ℕ → Bool

pub data MarkPageType : Type 0 where
  free used : MarkPageType

-- The file's static variables. `total` is `phyMemPagesTotalCount` and `available`
-- `phyMemPagesAvailableCount`; the sizes and the starts of the bitmaps follow from `total`.
pub record PhysicalMemory : Type 0 where
  pub total : ℕ
  pub available : ℕ
  pub bits : Bitmaps

-- `buddySizes[order]`
abbrev pub buddy_size : ℕ → ℕ
buddy_size order = 2 ^ order

-- `buddyBitmapSizes[order]`, in bytes
unfoldable pub bitmap_size : ℕ → ℕ → ℕ
bitmap_size total order =
    let bits_required = total / buddy_size order in
    let size = bits_required / 8 in if bits_required == size * 8 then size else size + 1

-- `buddyBitmaps[order] - buddyBitmaps[0]`
unfoldable pub bitmap_start : ℕ → ℕ → ℕ
bitmap_start total zero = 0
bitmap_start total (suc order) = bitmap_start total order + bitmap_size total order

-- `addr & buddyMasks[order]`
abbrev pub align_down : ℕ → ℕ → ℕ
align_down addr order = addr - addr % (buddy_size order * page_size)

-- `BuddyBitmapIndex`
pub record BitmapIndex : Type 0 where
  pub byte : ℕ
  pub bit : ℕ

module _ (total : ℕ) where
  unfoldable pub bitmap_index : ℕ → ℕ → BitmapIndex
  bitmap_index addr order =
      if ltb addr (total * page_size) && ltb order max_order
      then (let buddy = addr / 2 ^ (12 + order) in
          let byte = buddy / 8 in record { byte = byte; bit = buddy - byte * 8 })
      else record { byte = size_max; bit = size_max }

  -- `buddyBitmaps[order][index.byte] & (1 << index.bit)`. A shift by SIZE_MAX is undefined in C++;
  -- the x86-64 instruction shifts by 31, past the byte, so nothing is read and nothing is written.
  unfoldable pub bit_at : Bitmaps → ℕ → BitmapIndex → Bool
  bit_at bits order index =
      ltb index.bit 8 && bits ((bitmap_start total order + index.byte) * 8 + index.bit)

  -- `buddyBitmaps[order][index.byte] |= (1 << index.bit)`, or `&= ~(1 << index.bit)` for false
  unfoldable pub put_bit : Bitmaps → ℕ → BitmapIndex → Bool → Bitmaps
  put_bit bits order index v =
      if ltb index.bit 8
      then update bits ((bitmap_start total order + index.byte) * 8 + index.bit) v
      else bits

  unfoldable pub is_of_type : Bool → MarkPageType → Bool
  is_of_type b used = b
  is_of_type b free = not b

  -- The loop of `areBuddiesOfType`, from `i` on with `left` rounds to go.
  unfoldable pub buddies_loop : Bitmaps → ℕ → ℕ → ℕ → ℕ → MarkPageType → Bool
  buddies_loop bits addr order i zero ty = true
  buddies_loop bits addr order i (suc left) ty =
      let rest = buddies_loop bits addr order (i + 1) left ty in
      let index = bitmap_index (add64 addr (i * buddy_size order * page_size)) order in
      if is_of_type (bit_at bits order index) ty then rest else false

  unfoldable pub are_buddies_of_type : Bitmaps → ℕ → ℕ → ℕ → MarkPageType → Bool
  are_buddies_of_type bits addr order count ty =
      if count == 0
      then true
      else if leb (total * page_size) addr
      then false
      else buddies_loop bits (align_down addr order) order 0 count ty
