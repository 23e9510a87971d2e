-- ===== src/Virtual/Space.antt =====
-- src/boot/virtualmemmgmt.cpp: the address space lists, as `requestPages`, `freePages` and
-- `defragAddressSpaceList` keep them. One AddressSpace stands for a list and its count of available
-- pages; `kernel` tells which of the two it is. `none` is a panic, or the exception of `list.at` out
-- of range, which nothing catches.
use mayv.Prelude.{
  ℕ, zero, suc, ◌+◌, ◌-◌, ◌*◌, ◌/◌, ◌^◌, Bool, true, false, not, ◌&&◌, ◌||◌, ltb, leb, ◌==◌,
  if◌then◌else◌, Option, none, some, List, [], ◌∷◌,
}
use mayv.Prelude.Words.{add64, size_max}
use mayv.Physical.Pages.{page_size}

-- KERNEL_ORIGIN
abbrev pub kernel_origin : ℕ
kernel_origin = 0xffffffff80000000

pub record AddressSpaceNode : Type 0 where
  pub available : Bool
  pub base : ℕ
  pub page_count : ℕ

pub record AddressSpace : Type 0 where
  pub list : List AddressSpaceNode
  pub pages_available : ℕ

-- The address behind a block, on 64 bits.
abbrev pub block_end : AddressSpaceNode → ℕ
block_end b = add64 b.base (b.page_count * page_size)

abbrev pub same : Bool → Bool → Bool
same a b = if a then b else not b

unfoldable pub remove_empty : List AddressSpaceNode → List AddressSpaceNode
remove_empty [] = []
remove_empty (b ∷ rest) =
    let others = remove_empty rest in if b.page_count == 0 then others else b ∷ others

-- The loop that merges neighbours, with the block at `i` in hand.
unfoldable pub merge_into : AddressSpaceNode → List AddressSpaceNode → List AddressSpaceNode
merge_into b [] = b ∷ []
merge_into b (c ∷ rest) =
    let merged = merge_into (record b { page_count = add64 b.page_count c.page_count }) rest in
    let apart = merge_into c rest in if same b.available c.available then merged else b ∷ apart

unfoldable pub merge : List AddressSpaceNode → List AddressSpaceNode
merge [] = []
merge (b ∷ rest) = merge_into b rest

-- The integrity loop: `none` where it clears `listMono`, else the total without the last block.
unfoldable pub check_loop : ℕ → AddressSpaceNode → List AddressSpaceNode → Option ℕ
check_loop total b [] = some total
check_loop total b (c ∷ rest) =
    let counted = if b.available then add64 total b.page_count else total in
    let others = check_loop counted c rest in
    if b.page_count == 0 || same b.available c.available || not (c.base == block_end b)
    then none
    else others

-- `list.back()`
unfoldable pub back : AddressSpaceNode → List AddressSpaceNode → AddressSpaceNode
back b [] = b
back b (c ∷ rest) = back c rest

unfoldable pub check_passes : Bool → ℕ → AddressSpaceNode → List AddressSpaceNode → Bool
check_passes kernel pages b rest =
    let last = back b rest in
    elim (check_loop 0 b rest) [
      | none ↦ false
      | some total ↦
          b.base == (if kernel then kernel_origin else 0)
          && not (last.page_count == 0)
          && add64 total last.page_count == pages
    ]

-- `defragAddressSpaceList`
unfoldable pub defrag : Bool → AddressSpace → Option AddressSpace
defrag kernel s = elim (merge (remove_empty s.list)) [
  | [] ↦ none
  | b ∷ rest ↦
      if check_passes kernel s.pages_available b rest
      then some (record s { list = b ∷ rest })
      else none
]

-- `bestFitIndex == SIZE_MAX || list.at(bestFitIndex).pageCount > block.pageCount`
unfoldable pub is_better : Option (ℕ × AddressSpaceNode) → AddressSpaceNode → Bool
is_better none b = true
is_better (some (j, c)) b = ltb b.page_count c.page_count

-- The search for the best fit from the block `i` on, with the best one so far.
unfoldable pub best_fit :
    ℕ → List AddressSpaceNode → ℕ → Option (ℕ × AddressSpaceNode) → Option (ℕ × AddressSpaceNode)
best_fit count [] i best = best
best_fit count (b ∷ rest) i best =
    let keep = best_fit count rest (i + 1) best in
    let take_it = best_fit count rest (i + 1) (some (i, b)) in
    if b.available && leb count b.page_count && is_better best b then take_it else keep

-- The block `i` made used, and split where it is larger than the request.
unfoldable pub claim : ℕ → ℕ → List AddressSpaceNode → List AddressSpaceNode
claim count i [] = []
claim count zero (b ∷ rest) =
    if b.page_count == count
    then record b { available = false } ∷ rest
    else record { available = false; base = b.base; page_count = count }
      ∷ record {
        available = true;
        base = add64 b.base (count * page_size);
        page_count = b.page_count - count;
      }
      ∷ rest
claim count (suc i) (b ∷ rest) = b ∷ claim count i rest

-- What the loop of `freePages` comes to.
pub data Release : Type 0 where
  not_found : Release
  already_free : Release
  released : List AddressSpaceNode → Release

-- A block in front of those that the loop has still to see.
unfoldable pub behind : AddressSpaceNode → Release → Release
behind b (released blocks) = released (b ∷ blocks)
behind b not_found = not_found
behind b already_free = already_free

-- The loop over the blocks for the range from `first` to `last`. `block` is taken to stand for the
-- same block after the two calls of `insert`.
unfoldable pub release : ℕ → ℕ → ℕ → List AddressSpaceNode → Release
release first last count [] = not_found
release first last count (b ∷ rest) =
    let others = release first last count rest in
    if leb b.base first && leb last (block_end b)
    then if b.available
      then already_free
      else if b.base == first && block_end b == last
      then released (record b { available = true } ∷ rest)
      else released (
          record b { page_count = (first - b.base) / page_size }
          ∷ record { available = true; base = first; page_count = count }
          ∷ record { available = false; base = last; page_count = (block_end b - last) / page_size }
          ∷ rest)
    else behind b others

-- Returns true only if virtual address is canonical
unfoldable pub is_canonical : ℕ → Bool
is_canonical addr = ltb addr (2 ^ 47) || (leb (2 ^ 64 - 2 ^ 47) addr && leb addr size_max)
