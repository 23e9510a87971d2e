-- ===== src/Virtual/Freeing.antt =====
-- src/boot/virtualmemmgmt.cpp: `freePages`, on the address space and on the page tables. `none` is a
-- panic.
use mayv.Prelude.{
  ℕ, ◌*◌, ◌%◌, Bool, true, false, not, ◌||◌, ◌==◌, if◌then◌else◌, Option, none, some,
}
use mayv.Prelude.Words.{add64, has_flag}
use mayv.Physical.Pages.{page_size}
use mayv.Virtual.Space.{
  AddressSpace, not_found, already_free, released, release, is_canonical, defrag,
}
use mayv.Paging.Tables.{VirtualMemory}
use mayv.Paging.Unmapping.{unmap_pages}

-- RequestType::AllocatePhysical
abbrev pub allocate_physical : ℕ
allocate_physical = 2

-- The end of `freePages`: what `unmapPages` comes to, or the panic.
abbrev pub unmapped :
    AddressSpace → VirtualMemory × Bool → Option (AddressSpace × VirtualMemory × Bool)
unmapped s (vm, ok) = if ok then some (s, vm, true) else none

-- `freePages`
unfoldable pub free_pages :
    Bool → AddressSpace → VirtualMemory → ℕ → ℕ → ℕ → Option (AddressSpace × VirtualMemory × Bool)
free_pages kernel s vm first count flags =
    if count == 0 || not (first % page_size == 0) || not (is_canonical first)
    then some (s, vm, false)
    else elim (release first (add64 first (count * page_size)) count s.list) [
      | not_found ↦ some (s, vm, true)
      | already_free ↦ none
      | released blocks ↦
          elim (defrag kernel
            (record { list = blocks; pages_available = add64 s.pages_available count })) [
              | none ↦ none
              | some tidy ↦
                  unmapped tidy (unmap_pages vm first count (has_flag flags allocate_physical))
            ]
    ]
