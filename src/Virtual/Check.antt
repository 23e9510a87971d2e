-- ===== src/Virtual/Check.antt =====
-- The integrity check of `defragAddressSpaceList`, and when the function panics.
use mayv.Prelude.{
  ℕ, ◌+◌, ◌-◌, ◌*◌, ◌≤◌, ◌<◌, ◌≡◌, refl, sym, ◌∙◌, Bool, if◌then◌else◌, arith, none, some, List, [],
  ◌∷◌,
}
use mayv.Prelude.Words.{word, add64}
use mayv.Virtual.Space.{
  AddressSpaceNode, AddressSpace, check_loop, back, check_passes, defrag, kernel_origin, merge,
  remove_empty,
}
use mayv.Virtual.Regions.{Tiled, available_at, available_pages, Tiled-le}
use mayv.Virtual.Defrag.{Alternating, Tidy, tidy, tidy_lem}

-- The available pages of all blocks but the last.
abbrev front_pages : AddressSpaceNode → List AddressSpaceNode → ℕ
front_pages b [] = 0
front_pages b (c ∷ rest) = (if b.available then b.page_count else 0) + front_pages c rest

counted_lem :
    (start end total : ℕ) (b : AddressSpaceNode)
    → start + b.page_count * 4096 ≤ end
    → total * 4096 ≤ start
    → end ≤ word
    → (if b.available then add64 total b.page_count else total)
      ≡ total + (if b.available then b.page_count else 0)
counted_lem start end total b fits before small = ground arith

check_loop_lem :
    (start end total : ℕ) (b : AddressSpaceNode) (rest : List AddressSpaceNode)
    → end ≤ word
    → Tiled start end (b ∷ rest)
    → 0 < b.page_count
    → Alternating b.available rest
    → total * 4096 ≤ start
    → check_loop total b rest ≡ some (total + front_pages b rest)
unfolding check_loop
check_loop_lem start end total b [] small tiled some_pages alternates before = ground arith
check_loop_lem start end total b (c ∷ rest) small (at, (next, h)) some_pages
      (next_pages, differs, alternates) before =
    let counted = if b.available then add64 total b.page_count else total in
    let behind_both = Tiled-le (start + b.page_count * 4096 + c.page_count * 4096) end rest h in
    let counted_eq = counted_lem start end total b (omega arith) before (omega (arith, small)) in
    let others =
      check_loop_lem (start + b.page_count * 4096) end counted c rest small (next, h) next_pages
        alternates (ground (arith, counted_eq)) in
    ground (arith, counted_eq, behind_both, others)

front_bound :
    (start end : ℕ) (b : AddressSpaceNode) (rest : List AddressSpaceNode)
    → Tiled start end (b ∷ rest)
    → start + (front_pages b rest + (back b rest).page_count) * 4096 ≤ end
unfolding back
front_bound start end b [] (at, h) = omega arith
front_bound start end b (c ∷ rest) (at, h) =
    ground (arith, front_bound (start + b.page_count * 4096) end c rest h)

front_back :
    (b : AddressSpaceNode) (rest : List AddressSpaceNode)
    → available_pages (b ∷ rest)
      ≡ front_pages b rest + (if (back b rest).available then (back b rest).page_count else 0)
unfolding back
front_back b [] = omega arith
front_back b (c ∷ rest) = omega (arith, front_back c rest)

back_full :
    (b : AddressSpaceNode) (rest : List AddressSpaceNode)
    → 0 < b.page_count
    → Alternating b.available rest
    → 0 < (back b rest).page_count
unfolding back
back_full b [] some_pages alternates = some_pages
back_full b (c ∷ rest) some_pages (next_pages, differs, alternates) =
    back_full c rest next_pages alternates

back_available :
    (start end : ℕ) (b : AddressSpaceNode) (rest : List AddressSpaceNode)
    → Tiled start end (b ∷ rest)
    → 0 < b.page_count
    → Alternating b.available rest
    → available_at (b ∷ rest) (end - 1) ≡ (back b rest).available
unfolding back
back_available start end b [] (at, h) some_pages alternates = ground arith
back_available start end b (c ∷ rest) (at, (next, h)) some_pages (next_pages, differs, alternates) =
    ground (
      arith,
      back_available (start + b.page_count * 4096) end c rest (next, h) next_pages alternates,
      Tiled-le (start + b.page_count * 4096 + c.page_count * 4096) end rest h,
    )

-- Where the list of the kernel (true) or the general list (false) begins.
abbrev pub origin : Bool → ℕ
origin kernel = if kernel then kernel_origin else 0

check_passes_lem :
    (kernel : Bool) (end pages : ℕ) (b : AddressSpaceNode) (rest : List AddressSpaceNode)
    → end ≤ word
    → Tiled (origin kernel) end (b ∷ rest)
    → 0 < b.page_count
    → Alternating b.available rest
    → available_pages (b ∷ rest) ≡ pages
    → check_passes kernel pages b rest ≡ available_at (b ∷ rest) (end - 1)
unfolding check_passes
check_passes_lem kernel end pages b rest small (at, h) some_pages alternates counted =
    rw
      (
        check_loop_lem (origin kernel) end 0 b rest small (at, h) some_pages alternates
            (omega arith),
        check_passes,
      )
      (ground (
        arith,
        front_bound (origin kernel) end b rest (at, h),
        front_back b rest,
        back_full b rest some_pages alternates,
        back_available (origin kernel) end b rest (at, h) some_pages alternates,
        small,
      ))

-- The two lists of blocks are valid: end to end from the origin to `end`, the count of available
-- pages right, no empty block and no neighbours of the same availability.
abbrev pub IsValid : Bool → ℕ → AddressSpace → Type 0
IsValid kernel end s =
    Tiled (origin kernel) end s.list × (available_pages s.list ≡ s.pages_available) × Tidy s.list

defrag_cases :
    (kernel : Bool) (s : AddressSpace) (end : ℕ) (blocks : List AddressSpaceNode)
    → end ≤ word
    → origin kernel < end
    → merge (remove_empty s.list) ≡ blocks
    → Tiled (origin kernel) end blocks
    → Tidy blocks
    → available_pages blocks ≡ s.pages_available
    → defrag kernel s
      ≡ (if available_at blocks (end - 1) then some (record s { list = blocks }) else none)
unfolding defrag
defrag_cases kernel s end [] small proper e tiled is_tidy counted = ground (arith, tiled)
defrag_cases kernel s end (b ∷ rest) small proper e tiled (some_pages, alternates) counted =
    rw
      (
        e,
        defrag,
        check_passes_lem kernel end s.pages_available b rest small tiled some_pages alternates
            counted,
      )
      refl

-- On blocks end to end from the origin of the list to an end of at most 2^64, with the right count of
-- available pages, `defragAddressSpaceList` makes the list tidy if the last byte of the space is
-- available, and panics if it is used.
pub defrag_lem :
    (kernel : Bool) (s : AddressSpace) (end : ℕ)
    → end ≤ word
    → origin kernel < end
    → Tiled (origin kernel) end s.list
    → available_pages s.list ≡ s.pages_available
    → defrag kernel s
      ≡ (if available_at s.list (end - 1) then some (record s { list = tidy s.list }) else none)
defrag_lem kernel s end small proper tiled counted =
    let (tidied, addresses, pages, is_tidy) = tidy_lem (origin kernel) end s.list small tiled in
    rw (sym (addresses (end - 1)))
      (defrag_cases kernel s end (tidy s.list) small proper refl tidied is_tidy (pages ∙ counted))
