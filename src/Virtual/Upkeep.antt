-- ===== src/Virtual/Upkeep.antt =====
-- The allocator while pages are requested and mapped: it stays valid, and the memory keeps its size.
use mayv.Prelude.{
  ℕ, zero, suc, ◌-◌, ◌/◌, ◌%◌, ◌≡◌, refl, Bool, not, ◌||◌, ◌==◌, if_elim, arith, inl, inr,
  Option-cases, subst, Option, none, some,
}
use mayv.Prelude.Words.{add64}
use mayv.Physical.Pages.{PhysicalMemory}
use mayv.Physical.Marking.{mark_pages}
use mayv.Physical.Request.{
  PageRequestResult, invalid_address, request_pages, contiguous_loop, request_contiguous,
  find_at_or_below, closest_level, request_buddy, grant,
}
use mayv.Physical.Invariant.{IsValid}
use mayv.Physical.Handover.{request_pages-HandedOut}
use mayv.Paging.Tables.{VirtualMemory, index_at, CrawlResult, crawl}
use mayv.Paging.Mapping.{
  link_table, use_page, create_table, make_tables, set_leaf, map_page, map_loop, map_pages,
}

-- A valid allocator of a memory of whole groups of 16 MiB.
abbrev pub IsSane : PhysicalMemory → Type 0
IsSane s = IsValid s × (s.total % 4096 ≡ 0)

contiguous-total : (s : PhysicalMemory) (count : ℕ) → (request_contiguous s count).0.total ≡ s.total
unfolding request_contiguous grant mark_pages
contiguous-total s count =
    elim (Option-cases (contiguous_loop s.total s.bits count (s.total - 256) 256 256 0)) [
      | inl e ↦ rw (e, request_contiguous) refl
      | inr (start, e) ↦ rw (e, request_contiguous) (ground arith)
    ]

buddy-total : (s : PhysicalMemory) (count : ℕ) → (request_buddy s count).0.total ≡ s.total
unfolding request_buddy grant mark_pages
buddy-total s count = elim (Option-cases (find_at_or_below s.total s.bits (closest_level count))) [
  | inl e ↦ rw (e, request_buddy) refl
  | inr (found, e) ↦ rw (e, request_buddy) (ground arith)
]

request_pages-total :
    (s : PhysicalMemory) (count flags : ℕ) → (request_pages s count flags).0.total ≡ s.total
unfolding request_pages
request_pages-total s count flags = ground (arith, contiguous-total s count, buddy-total s count)

pub request_pages-IsSane :
    (s : PhysicalMemory) (count flags : ℕ) → IsSane s → IsSane (request_pages s count flags).0
request_pages-IsSane s count flags (valid, groups) = (
  (request_pages-HandedOut s count flags valid groups).valid,
  rw (request_pages-total s count flags) groups,
)

-- The allocator after a step that may panic.
abbrev pub Left {ℓ} : {A : Type ℓ} → Option (VirtualMemory × A) → Type 0
Left none = Unit {0}
Left (some (vm, rest)) = IsSane vm.physical

use_page-Left :
    (vm : VirtualMemory) (parent index : ℕ) (out : PhysicalMemory × PageRequestResult)
    → IsSane out.0
    → Left (use_page vm parent index out)
unfolding use_page link_table
use_page-Left vm parent index (physical, result) sane =
    if_elim {A = Option (VirtualMemory × ℕ)} Left
      (result.address == invalid_address || not (result.allocated_count == 1)) (λ e. tt) (λ e. sane)

create_table-Left :
    (vm : VirtualMemory) (parent index : ℕ)
    → IsSane vm.physical
    → Left (create_table vm parent index)
unfolding create_table
create_table-Left vm parent index sane =
    use_page-Left vm parent index (request_pages vm.physical 1 8)
      (request_pages-IsSane vm.physical 1 8 sane)

-- A step that goes on where the one before did not panic.
then_Left {ℓ κ} :
    {A : Type ℓ} {B : Type κ} (out : Option (VirtualMemory × A))
    (next : VirtualMemory × A → Option (VirtualMemory × B))
    → Left out
    → ((vm : VirtualMemory) (a : A) → IsSane vm.physical → Left (next (vm, a)))
    → Left (elim out as (λ x. Option (VirtualMemory × B)) [ none ↦ none | some x ↦ next x ])
then_Left none next h go = tt
then_Left (some (vm, a)) next h go = go vm a h

make_tables-Left :
    (r : CrawlResult) (page i parent : ℕ) (vm : VirtualMemory)
    → IsSane vm.physical
    → Left (make_tables r page i parent vm)
unfolding make_tables
make_tables-Left r page zero parent vm sane = sane
make_tables-Left r page (suc i) parent vm sane =
    if_elim {A = Option (VirtualMemory × ℕ)} Left (r.physical_tables (suc i) == invalid_address)
      (λ e.
        then_Left (create_table vm parent (index_at (suc i) page))
          (λ x. make_tables r page i x.1 x.0)
          (create_table-Left vm parent (index_at (suc i) page) sane)
          (λ next table h. make_tables-Left r page i table next h))
      (λ e. make_tables-Left r page i (r.physical_tables (suc i)) vm sane)

-- The allocator after one page
abbrev pub LeftPage : Option VirtualMemory → Type 0
LeftPage none = Unit {0}
LeftPage (some vm) = IsSane vm.physical

map_page-LeftPage :
    (vm : VirtualMemory) (r : CrawlResult) (page physical_page flags : ℕ)
    → IsSane vm.physical
    → LeftPage (map_page vm r page physical_page flags)
unfolding map_page set_leaf
map_page-LeftPage vm r page physical_page flags sane =
    elim (Option-cases (make_tables r page 3 vm.root vm)) [
      | inl e ↦ rw (e, map_page) tt
      | inr ((grown, table), e) ↦
          let left : IsSane grown.physical =
            subst {A = Option (VirtualMemory × ℕ)} Left e
              (make_tables-Left r page 3 vm.root vm sane) in
          rw (e, map_page)
            (if_elim {A = Option VirtualMemory} LeftPage (r.physical_tables 0 == invalid_address)
              (λ t. left) (λ t. left))
    ]

map_loop-Left :
    (n : ℕ) (vm : VirtualMemory) (vir phy flags : ℕ)
    → IsSane vm.physical
    → Left (map_loop n vm vir phy flags)
unfolding map_loop
map_loop-Left zero vm vir phy flags sane = sane
map_loop-Left (suc n) vm vir phy flags sane =
    if_elim {A = Option (VirtualMemory × Bool)} Left (crawl vm vir).canonical
      (λ t. elim (Option-cases (map_page vm (crawl vm vir) (vir / 4096) (phy / 4096) flags)) [
        | inl e ↦ rw e tt
        | inr (next, e) ↦ rw e (
            map_loop-Left n next (add64 vir 4096) (add64 phy 4096) flags (
              subst {A = Option VirtualMemory} LeftPage e
                (map_page-LeftPage vm (crawl vm vir) (vir / 4096) (phy / 4096) flags sane)))
      ])
      (λ t. sane)

pub map_pages-Left :
    (vm : VirtualMemory) (vir phy count flags : ℕ)
    → IsSane vm.physical
    → Left (map_pages vm vir phy count flags)
unfolding map_pages
map_pages-Left vm vir phy count flags sane =
    if_elim {A = Option (VirtualMemory × Bool)} Left
      (count == 0 || not (phy % 4096 == 0) || not (vir % 4096 == 0)) (λ e. sane)
      (λ e. map_loop-Left count vm vir phy flags sane)
