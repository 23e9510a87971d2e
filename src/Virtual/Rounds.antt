-- ===== src/Virtual/Rounds.antt =====
-- The loop of `requestPages` that maps physical pages: its fuel is enough. The allocator stays valid from
-- round to round, so it never has as many pages as a round asks for after too many were mapped.
use mayv.Prelude.{
  ℕ, zero, suc, ◌+◌, ◌-◌, ◌*◌, ◌^◌, ◌≤◌, ◌<◌, ◌≡◌, refl, sym, ◌∙◌, Bool, false, ◌||◌, ◌==◌, if_elim,
  arith, inl, inr, Option-cases, subst, dec_lt, ℕ_discrete, Option, none, some,
}
use mayv.Prelude.Words.{add64, sub64}
use mayv.Physical.Pages.{PhysicalMemory}
use mayv.Physical.Request.{PageRequestResult, no_pages, invalid_address, request_pages}
use mayv.Physical.Handover.{rejected, request_pages-HandedOut}
use mayv.Paging.Tables.{VirtualMemory}
use mayv.Paging.Mapping.{map_pages}
use mayv.Virtual.Requesting.{map_got, map_physical}
use mayv.Virtual.Upkeep.{IsSane, Left, LeftPage, request_pages-IsSane, map_pages-Left}

map_got-LeftPage :
    (vm : VirtualMemory) (address total flags : ℕ) (got : PhysicalMemory × PageRequestResult)
    → IsSane got.0
    → LeftPage (map_got vm address total flags got)
unfolding map_got
map_got-LeftPage vm address total flags (physical, result) sane =
    let requested = record vm { physical = physical } in
    let vir = add64 address (total * 4096) in
    if_elim {A = Option VirtualMemory} LeftPage
      (result.address == invalid_address || result.allocated_count == 0) (λ t. tt)
      (λ t.
        elim (Option-cases (map_pages requested vir result.address result.allocated_count flags)) [
          | inl e ↦ rw e tt
          | inr ((next, mapped), e) ↦
              let left : IsSane next.physical =
                subst {A = Option (VirtualMemory × Bool)} Left e
                  (map_pages-Left requested vir result.address result.allocated_count flags sane) in
              rw e (if_elim {A = Option VirtualMemory} LeftPage mapped (λ t. left) (λ t. tt))
        ])

-- A round that goes on has mapped a page.
map_got-some :
    (vm : VirtualMemory) (address total flags : ℕ) (got : PhysicalMemory × PageRequestResult)
    (next : VirtualMemory)
    → map_got vm address total flags got ≡ some next
    → 0 < got.1.allocated_count
unfolding map_got
map_got-some vm address total flags (physical, result) next h =
    elim (ℕ_discrete result.allocated_count 0) [
      | yes nothing ↦ ground (arith, h, nothing)
      | no some_page ↦ omega (arith, some_page)
    ]

map_got-no_pages :
    (vm : VirtualMemory) (address total flags : ℕ)
    → map_got vm address total flags (vm.physical, no_pages) ≡ none
unfolding map_got
map_got-no_pages vm address total flags = refl

-- After a round that mapped too many pages, the next one asks for more than there are.
overshot :
    (fuel : ℕ) (vm : VirtualMemory) (address count total flags : ℕ)
    → 0 < fuel
    → IsSane vm.physical
    → count < total
    → total < count + 2 ^ 51
    → count < 2 ^ 52
    → map_physical fuel vm address count total flags ≡ none
unfolding map_physical
overshot zero vm address count total flags some_fuel sane over near small = absurd (omega arith)
overshot (suc fuel) vm address count total flags some_fuel (valid, groups) over near small =
    let too_many : vm.physical.available < sub64 count total =
      omega (arith, valid.counted, valid.small, over, near, small) in
    let on : (total == count) ≡ false = ground (arith, over) in
    rw
      (
        on,
        rejected vm.physical (sub64 count total) flags (inr (inl too_many)),
        map_got-no_pages vm address total flags,
      )
      refl

-- The rounds after one agree, if those that have not mapped too many pages do.
next_agrees :
    (f g : ℕ) (vm next : VirtualMemory) (address count total flags : ℕ)
    → IsSane vm.physical
    → count < 2 ^ 52
    → total < count
    → count - total + 1 ≤ f
    → count - total + 1 ≤ g
    → map_got vm address total flags (request_pages vm.physical (sub64 count total) flags)
      ≡ some next
    → ((later : VirtualMemory) (done : ℕ)
        → IsSane later.physical
        → done ≤ count
        → count - done + 2 ≤ f
        → count - done + 2 ≤ g
        → map_physical f later address count done flags
          ≡ map_physical g later address count done flags)
    → let done =
        add64 total (request_pages vm.physical (sub64 count total) flags).1.allocated_count in
      map_physical f next address count done flags ≡ map_physical g next address count done flags
next_agrees f g vm next address count total flags (valid, groups) small before enough also e ih =
    let got = request_pages vm.physical (sub64 count total) flags in
    let handed = request_pages-HandedOut vm.physical (sub64 count total) flags valid groups in
    let some_page : 0 < got.1.allocated_count = map_got-some vm address total flags got next e in
    let few : got.1.allocated_count < 2 ^ 51 =
      omega (arith, handed.inside some_page, valid.small) in
    let done : add64 total got.1.allocated_count ≡ total + got.1.allocated_count =
      omega (arith, few, small, before) in
    let sane : IsSane next.physical = subst {A = Option VirtualMemory} LeftPage e (
      map_got-LeftPage vm address total flags got
        (request_pages-IsSane vm.physical (sub64 count total) flags (valid, groups))) in
    rw done (elim (dec_lt count (total + got.1.allocated_count)) [
      | yes over ↦
          overshot f next address count (total + got.1.allocated_count) flags
            (omega (arith, enough)) sane over (omega (arith, few, before)) small
          ∙ sym (
              overshot g next address count (total + got.1.allocated_count) flags
                (omega (arith, also)) sane over (omega (arith, few, before)) small)
      | no within ↦
          ih next (total + got.1.allocated_count) sane (omega (arith, within))
            (omega (arith, enough, some_page, within)) (omega (arith, also, some_page, within))
    ])

-- From a valid allocator of whole groups of 16 MiB, the loop of `requestPages` that maps physical pages
-- comes to the same whatever the fuel, if it is at least two more than the pages that are left to map:
-- the loop ends, and its `none` is a panic.
map_physical-enough :
    (f g : ℕ) (vm : VirtualMemory) (address count total flags : ℕ)
    → IsSane vm.physical
    → count < 2 ^ 52
    → total ≤ count
    → count - total + 2 ≤ f
    → count - total + 2 ≤ g
    → map_physical f vm address count total flags ≡ map_physical g vm address count total flags
unfolding map_physical
map_physical-enough zero g vm address count total flags sane small le enough also =
    absurd (omega arith)
map_physical-enough (suc f) zero vm address count total flags sane small le enough also =
    absurd (omega arith)
map_physical-enough (suc f) (suc g) vm address count total flags sane small le enough also =
    elim (ℕ_discrete total count) [
      | yes at ↦ ground (arith, at)
      | no before ↦
          let on : (total == count) ≡ false = ground (arith, before) in
          let got = request_pages vm.physical (sub64 count total) flags in
          elim (Option-cases (map_got vm address total flags got)) [
            | inl e ↦ rw (on, e) refl
            | inr (next, e) ↦
                rw (on, e)
                  (next_agrees f g vm next address count total flags sane small
                    (omega (arith, le, before)) (omega (arith, enough)) (omega (arith, also)) e
                    (λ later done h done_le f_enough g_enough.
                      map_physical-enough f g later address count done flags h small done_le
                        f_enough g_enough))
          ]
    ]
