-- ===== src/Virtual/Defrag.antt =====
-- `defragAddressSpaceList`: what it does to the list, and that its integrity check passes.
use mayv.Prelude.{
  ℕ, ◌+◌, ◌*◌, ◌≤◌, ◌<◌, ◌≡◌, refl, ◌∙◌, Bool, true, false, not, ◌==◌, if_elim, arith, List, [],
  ◌∷◌,
}
use mayv.Prelude.Words.{word, add64}
use mayv.Virtual.Space.{AddressSpaceNode, same, remove_empty, merge_into, merge}
use mayv.Virtual.Regions.{Tiled-at, Tiled, available_at, available_pages, Tiled-le}

-- The page count of two neighbours does not wrap around.
sum_fits :
    (start end : ℕ) (b c : AddressSpaceNode) (rest : List AddressSpaceNode)
    → end ≤ word
    → Tiled (start + b.page_count * 4096 + c.page_count * 4096) end rest
    → add64 b.page_count c.page_count ≡ b.page_count + c.page_count
sum_fits start end b c rest small h =
    omega (arith, Tiled-le (start + b.page_count * 4096 + c.page_count * 4096) end rest h)

remove_empty-Tiled :
    (start end : ℕ) (blocks : List AddressSpaceNode)
    → Tiled start end blocks
    → Tiled start end (remove_empty blocks)
unfolding remove_empty
remove_empty-Tiled start end [] h = h
remove_empty-Tiled start end (b ∷ rest) (at, h) =
    if_elim (Tiled start end) (b.page_count == 0)
      (λ e.
        remove_empty-Tiled start end rest
          (Tiled-at start (start + b.page_count * 4096) end rest (ground arith) h))
      (λ e. (at, remove_empty-Tiled (start + b.page_count * 4096) end rest h))

remove_empty-available_at :
    (blocks : List AddressSpaceNode) (a : ℕ)
    → available_at (remove_empty blocks) a ≡ available_at blocks a
unfolding remove_empty
remove_empty-available_at [] a = refl
remove_empty-available_at (b ∷ rest) a = ground (arith, remove_empty-available_at rest a)

remove_empty-available_pages :
    (blocks : List AddressSpaceNode)
    → available_pages (remove_empty blocks) ≡ available_pages blocks
unfolding remove_empty
remove_empty-available_pages [] = refl
remove_empty-available_pages (b ∷ rest) = ground (arith, remove_empty-available_pages rest)

-- What `merge_into` makes of two neighbours of the same availability.
abbrev joined : AddressSpaceNode → AddressSpaceNode → AddressSpaceNode
joined b c = record b { page_count = add64 b.page_count c.page_count }

joined-Tiled :
    (start end : ℕ) (b c : AddressSpaceNode) (rest : List AddressSpaceNode)
    → end ≤ word
    → Tiled start end (b ∷ c ∷ rest)
    → Tiled start end (joined b c ∷ rest)
joined-Tiled start end b c rest small (at, (next, h)) = (
  at,
  Tiled-at (start + add64 b.page_count c.page_count * 4096)
      (start + b.page_count * 4096 + c.page_count * 4096) end rest
      (omega (arith, sum_fits start end b c rest small h)) h,
)

joined-available_at :
    (start end : ℕ) (b c : AddressSpaceNode) (rest : List AddressSpaceNode) (a : ℕ)
    → end ≤ word
    → Tiled start end (b ∷ c ∷ rest)
    → same b.available c.available ≡ true
    → available_at (joined b c ∷ rest) a ≡ available_at (b ∷ c ∷ rest) a
joined-available_at start end b c rest a small (at, (next, h)) e =
    ground (arith, sum_fits start end b c rest small h)

joined-available_pages :
    (start end : ℕ) (b c : AddressSpaceNode) (rest : List AddressSpaceNode)
    → end ≤ word
    → Tiled start end (b ∷ c ∷ rest)
    → same b.available c.available ≡ true
    → available_pages (joined b c ∷ rest) ≡ available_pages (b ∷ c ∷ rest)
joined-available_pages start end b c rest small (at, (next, h)) e =
    ground (arith, sum_fits start end b c rest small h)

merge_into-Tiled :
    (start end : ℕ) (b : AddressSpaceNode) (rest : List AddressSpaceNode)
    → end ≤ word
    → Tiled start end (b ∷ rest)
    → Tiled start end (merge_into b rest)
unfolding merge_into
merge_into-Tiled start end b [] small h = h
merge_into-Tiled start end b (c ∷ rest) small (at, (next, h)) =
    if_elim (Tiled start end) (same b.available c.available)
      (λ e.
        merge_into-Tiled start end (joined b c) rest small
          (joined-Tiled start end b c rest small (at, (next, h))))
      (λ e. (at, merge_into-Tiled (start + b.page_count * 4096) end c rest small (next, h)))

merge_into-available_at :
    (start end : ℕ) (b : AddressSpaceNode) (rest : List AddressSpaceNode) (a : ℕ)
    → end ≤ word
    → Tiled start end (b ∷ rest)
    → available_at (merge_into b rest) a ≡ available_at (b ∷ rest) a
unfolding merge_into
merge_into-available_at start end b [] a small h = refl
merge_into-available_at start end b (c ∷ rest) a small (at, (next, h)) =
    if_elim (λ blocks. available_at blocks a ≡ available_at (b ∷ c ∷ rest) a)
      (same b.available c.available)
      (λ e.
        merge_into-available_at start end (joined b c) rest a small
          (joined-Tiled start end b c rest small (at, (next, h)))
        ∙ joined-available_at start end b c rest a small (at, (next, h)) e)
      (λ e.
        ground (
          arith,
          merge_into-available_at (start + b.page_count * 4096) end c rest a small (next, h),
        ))

merge_into-available_pages :
    (start end : ℕ) (b : AddressSpaceNode) (rest : List AddressSpaceNode)
    → end ≤ word
    → Tiled start end (b ∷ rest)
    → available_pages (merge_into b rest) ≡ available_pages (b ∷ rest)
unfolding merge_into
merge_into-available_pages start end b [] small h = refl
merge_into-available_pages start end b (c ∷ rest) small (at, (next, h)) =
    if_elim (λ blocks. available_pages blocks ≡ available_pages (b ∷ c ∷ rest))
      (same b.available c.available)
      (λ e.
        merge_into-available_pages start end (joined b c) rest small
          (joined-Tiled start end b c rest small (at, (next, h)))
        ∙ joined-available_pages start end b c rest small (at, (next, h)) e)
      (λ e. ground (
        arith,
        merge_into-available_pages (start + b.page_count * 4096) end c rest small (next, h),
      ))

-- No block is empty.
abbrev pub NonEmpty : List AddressSpaceNode → Type 0
NonEmpty [] = Unit {0}
NonEmpty (b ∷ rest) = (0 < b.page_count) × NonEmpty rest

-- No block is empty, and availability alternates, beginning with the other one than `before`.
abbrev pub Alternating : Bool → List AddressSpaceNode → Type 0
Alternating before [] = Unit {0}
Alternating before (b ∷ rest) =
    (0 < b.page_count) × (same before b.available ≡ false) × Alternating b.available rest

remove_empty-NonEmpty : (blocks : List AddressSpaceNode) → NonEmpty (remove_empty blocks)
unfolding remove_empty
remove_empty-NonEmpty [] = tt
remove_empty-NonEmpty (b ∷ rest) =
    if_elim NonEmpty (b.page_count == 0) (λ e. remove_empty-NonEmpty rest)
      (λ e. (ground arith, remove_empty-NonEmpty rest))

Alternating-from :
    (x y : Bool) (blocks : List AddressSpaceNode)
    → x ≡ y
    → Alternating y blocks
    → Alternating x blocks
Alternating-from x y blocks e h = rw e h

merge_into-Alternating :
    (start end : ℕ) (b : AddressSpaceNode) (rest : List AddressSpaceNode)
    → end ≤ word
    → Tiled start end (b ∷ rest)
    → NonEmpty (b ∷ rest)
    → Alternating (not b.available) (merge_into b rest)
unfolding merge_into
merge_into-Alternating start end b [] small h (some_pages, full) = (some_pages, ground arith, tt)
merge_into-Alternating start end b (c ∷ rest) small (at, (next, h))
      (some_pages, (next_pages, full)) =
    if_elim (Alternating (not b.available)) (same b.available c.available)
      (λ e.
        merge_into-Alternating start end (joined b c) rest small
          (joined-Tiled start end b c rest small (at, (next, h)))
          (omega (arith, sum_fits start end b c rest small h), full))
      (λ e. (
        some_pages,
        ground arith,
        Alternating-from b.available (not c.available) (merge_into c rest) (ground arith) (
            merge_into-Alternating (start + b.page_count * 4096) end c rest small (next, h)
              (next_pages, full)),
      ))

-- The list without empty blocks and with neighbours merged.
abbrev pub tidy : List AddressSpaceNode → List AddressSpaceNode
tidy blocks = merge (remove_empty blocks)

abbrev opposite : List AddressSpaceNode → Bool
opposite [] = true
opposite (b ∷ rest) = not b.available

merge_lem :
    (start end : ℕ) (blocks : List AddressSpaceNode)
    → end ≤ word
    → Tiled start end blocks
    → NonEmpty blocks
    → Tiled start end (merge blocks)
      × ((a : ℕ) → available_at (merge blocks) a ≡ available_at blocks a)
      × (available_pages (merge blocks) ≡ available_pages blocks)
      × Alternating (opposite blocks) (merge blocks)
unfolding merge
merge_lem start end [] small h full = (h, λ a. refl, refl, tt)
merge_lem start end (b ∷ rest) small h full = (
  merge_into-Tiled start end b rest small h,
  λ a. merge_into-available_at start end b rest a small h,
  merge_into-available_pages start end b rest small h,
  merge_into-Alternating start end b rest small h full,
)

-- No block is empty and availability alternates.
abbrev pub Tidy : List AddressSpaceNode → Type 0
Tidy [] = Unit {0}
Tidy (b ∷ rest) = (0 < b.page_count) × Alternating b.available rest

Alternating-Tidy :
    (before : Bool) (blocks : List AddressSpaceNode) → Alternating before blocks → Tidy blocks
Alternating-Tidy before [] h = tt
Alternating-Tidy before (b ∷ rest) (some_pages, differs, h) = (some_pages, h)

-- On blocks end to end that end by 2^64, removing the empty blocks and merging the neighbours leaves
-- blocks end to end of the same space, with the same available addresses and as many available
-- pages; no block is empty, and available and used blocks alternate.
pub tidy_lem :
    (start end : ℕ) (blocks : List AddressSpaceNode)
    → end ≤ word
    → Tiled start end blocks
    → Tiled start end (tidy blocks)
      × ((a : ℕ) → available_at (tidy blocks) a ≡ available_at blocks a)
      × (available_pages (tidy blocks) ≡ available_pages blocks)
      × Tidy (tidy blocks)
tidy_lem start end blocks small h =
    let full = remove_empty blocks in
    let (tiled, addresses, pages, alternates) =
      merge_lem start end full small (remove_empty-Tiled start end blocks h)
        (remove_empty-NonEmpty blocks) in
    (
      tiled,
      λ a. addresses a ∙ remove_empty-available_at blocks a,
      pages ∙ remove_empty-available_pages blocks,
      Alternating-Tidy (opposite full) (merge full) alternates,
    )
