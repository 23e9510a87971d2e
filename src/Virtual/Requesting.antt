-- ===== src/Virtual/Requesting.antt =====
-- src/boot/virtualmemmgmt.cpp: `requestPages`, on the address space and on the page tables. `none` is a
-- panic, or the exception of `list.at` out of range, which nothing catches.
use mayv.Prelude.{
  ℕ, zero, suc, ◌+◌, ◌*◌, Bool, not, ◌||◌, ltb, ◌==◌, if◌then◌else◌, Option, none, some,
}
use mayv.Prelude.Words.{add64, sub64, has_flag}
use mayv.Physical.Pages.{PhysicalMemory, page_size}
use mayv.Physical.Request.{PageRequestResult, no_pages, invalid_address, request_pages}
use mayv.Paging.Tables.{VirtualMemory}
use mayv.Paging.Mapping.{map_pages}
use mayv.Virtual.Space.{AddressSpace, best_fit, claim, defrag}
use mayv.Virtual.Freeing.{allocate_physical}

-- RequestType::VirtualContiguous
abbrev pub virtual_contiguous : ℕ
virtual_contiguous = 16

-- The physical pages that a round got, mapped behind those that are mapped already.
unfoldable pub map_got :
    VirtualMemory → ℕ → ℕ → ℕ → PhysicalMemory × PageRequestResult → Option VirtualMemory
map_got vm address total flags (physical, result) =
    if result.address == invalid_address || result.allocated_count == 0
    then none
    else elim (map_pages (record vm { physical = physical }) (add64 address (total * page_size))
        result.address result.allocated_count flags) [
          | none ↦ none
          | some (next, mapped) ↦ if mapped then some next else none
        ]

-- `while (total != count)`. Each round maps a page at least, and the round after one that maps too
-- many panics, so `count + 2` is enough fuel.
unfoldable pub map_physical : ℕ → VirtualMemory → ℕ → ℕ → ℕ → ℕ → Option VirtualMemory
map_physical zero vm address count total flags = none
map_physical (suc fuel) vm address count total flags =
    let got = request_pages vm.physical (sub64 count total) flags in
    let later : Option VirtualMemory = elim (map_got vm address total flags got) [
      | none ↦ none
      | some next ↦ map_physical fuel next address count (add64 total got.1.allocated_count) flags
    ] in
    if total == count then some vm else later

-- The mapping that RequestType::AllocatePhysical asks for.
unfoldable pub map_requested : VirtualMemory → ℕ → ℕ → ℕ → Option VirtualMemory
map_requested vm address count flags =
    if has_flag flags allocate_physical
    then map_physical (count + 2) vm address count 0 flags
    else some vm

-- The end of `requestPages`: the pages with the tables that map them, or the panic.
abbrev pub backed :
    AddressSpace
    → PageRequestResult
    → Option VirtualMemory
    → Option (AddressSpace × VirtualMemory × PageRequestResult)
backed s result none = none
backed s result (some vm) = some (s, vm, result)

-- `requestPages`
unfoldable pub request_space :
    Bool
    → AddressSpace
    → VirtualMemory
    → ℕ
    → ℕ
    → Option (AddressSpace × VirtualMemory × PageRequestResult)
request_space kernel s vm count flags =
    if count == 0 || ltb s.pages_available count
    then some (s, vm, no_pages)
    else if not (has_flag flags virtual_contiguous)
    then none
    else elim (best_fit count s.list 0 none) [
      | none ↦ none
      | some (i, b) ↦
          let claimed : AddressSpace = record {
            list = claim count i s.list;
            pages_available = sub64 s.pages_available count;
          } in
          elim (defrag kernel claimed) [
            | none ↦ none
            | some tidy ↦
                backed tidy (record { address = b.base; allocated_count = count })
                  (map_requested vm b.base count flags)
          ]
    ]
