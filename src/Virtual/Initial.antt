-- ===== src/Virtual/Initial.antt =====
-- src/boot/virtualmemmgmt.cpp: the address space lists that `initialize` creates, for the first usable
-- address of the kernel's space.
use mayv.Prelude.{
  ℕ, ◌+◌, ◌-◌, ◌*◌, ◌/◌, ◌%◌, ◌^◌, ◌≤◌, ◌<◌, ◌≡◌, refl, Bool, true, false, leb, arith, [], ◌∷◌, ◌⊎◌,
}
use mayv.Prelude.Words.{add64, sub64, size_max}
use mayv.Physical.Pages.{page_size}
use mayv.Virtual.Space.{AddressSpaceNode, AddressSpace, kernel_origin, is_canonical}
use mayv.Virtual.Regions.{available_at}
use mayv.Virtual.Check.{IsValid}

-- L32K64_SCRATCH_BASE and L32K64_SCRATCH_LENGTH
abbrev pub scratch_base : ℕ
scratch_base = 0x80000

abbrev pub scratch_length : ℕ
scratch_length = 0x10000

abbrev pub mib1 : ℕ
mib1 = 0x100000

abbrev pub non_canonical_start : ℕ
non_canonical_start = 2 ^ 47

-- `~(nonCanonicalStart - 1)`
abbrev pub non_canonical_end : ℕ
non_canonical_end = size_max - (non_canonical_start - 1)

-- `ptMask`, the recursive mapping of the page tables
abbrev pub recursive_start : ℕ
recursive_start = size_max - 1024 * 2 ^ 30 + 1

abbrev pub recursive_end : ℕ
recursive_end = recursive_start + 512 * 2 ^ 30

abbrev pub node : Bool → ℕ → ℕ → AddressSpaceNode
node available base page_count = record {
  available = available;
  base = base;
  page_count = page_count;
}

-- `kernelAddressSpaceList` and `kernelPagesAvailableCount`
unfoldable pub first_kernel_space : ℕ → AddressSpace
first_kernel_space usable =
    let pages = add64 (size_max - usable) 1 / page_size in
    record {
      list =
          node false kernel_origin (sub64 usable kernel_origin / page_size)
          ∷ node true usable pages
          ∷ [];
      pages_available = pages;
    }

-- `generalAddressSpaceList` and `generalPagesAvailableCount`
unfoldable pub first_general_space : AddressSpace
first_general_space =
    let scratch = scratch_length / page_size in
    let lower = (non_canonical_start - mib1) / page_size in
    let upper = (recursive_start - non_canonical_end) / page_size in
    let last = (kernel_origin - recursive_start - 512 * 2 ^ 30) / page_size in
    record {
      list =
          node false 0 (scratch_base / page_size)
          ∷ node true scratch_base scratch
          ∷ node false (scratch_base + scratch_length)
              ((mib1 - scratch_base - scratch_length) / page_size)
          ∷ node true mib1 lower
          ∷ node false non_canonical_start ((non_canonical_end - non_canonical_start) / page_size)
          ∷ node true non_canonical_end upper
          ∷ node false recursive_start (512 * 2 ^ 30 / page_size)
          ∷ node true recursive_end last
          ∷ [];
      pages_available = scratch + lower + upper + last;
    }

first_general_space-IsValid : IsValid false kernel_origin first_general_space
unfolding first_general_space
first_general_space-IsValid = (
  (refl, (refl, (refl, (refl, (refl, (refl, (refl, (refl, refl)))))))),
  refl,
  (
    omega arith,
    (
      omega arith,
      refl,
      (
        omega arith,
        refl,
        (
          omega arith,
          refl,
          (omega arith, refl, (omega arith, refl, (omega arith, refl, (omega arith, refl, tt)))),
        ),
      ),
    ),
  ),
)

first_kernel_space-IsValid :
    (usable : ℕ)
    → usable % 4096 ≡ 0
    → kernel_origin < usable
    → usable < 2 ^ 64
    → IsValid true (2 ^ 64) (first_kernel_space usable)
unfolding first_kernel_space
first_kernel_space-IsValid usable whole above below = (
  (refl, (omega (arith, whole, above, below), omega (arith, whole, above, below))),
  omega arith,
  (omega (arith, whole, above, below), (omega (arith, whole, above, below), refl, tt)),
)

-- An address that pages may be handed out at, outside of the kernel's space
abbrev pub Usable : ℕ → Type 0
Usable a =
    (is_canonical a ≡ true)
    × (4096 ≤ a)
    × (a < kernel_origin)
    × ((a < recursive_start) ⊎ (recursive_end ≤ a))

general-Usable : (a : ℕ) → available_at first_general_space.list a ≡ true → Usable a
unfolding first_general_space is_canonical
general-Usable a h = ground (arith, h)

-- The lists that `initialize` creates are valid spaces, the general one from 0 to the kernel's origin
-- and the kernel's one from there to 2^64, if the kernel's first usable address is a multiple of the
-- page size above its origin. Every available address of the general list is canonical, not in the
-- first page, below the kernel's origin and outside of the recursive mapping of the page tables; the
-- available addresses of the kernel's list are those from its first usable address on.
pub initialize-IsValid :
    (usable : ℕ)
    → usable % 4096 ≡ 0
    → kernel_origin < usable
    → usable < 2 ^ 64
    → IsValid false kernel_origin first_general_space
      × IsValid true (2 ^ 64) (first_kernel_space usable)
      × ((a : ℕ) → available_at first_general_space.list a ≡ true → Usable a)
      × ((a : ℕ) → a < 2 ^ 64 → available_at (first_kernel_space usable).list a ≡ leb usable a)
unfolding first_kernel_space
initialize-IsValid usable whole above below = (
  first_general_space-IsValid,
  first_kernel_space-IsValid usable whole above below,
  general-Usable,
  λ a small. ground (arith, small, whole, above, below),
)
