-- ===== src/Virtual/FreePages.antt =====
-- `freePages`: the address space and the page tables after it.
use mayv.Prelude.{
  ℕ, ◌+◌, ◌-◌, ◌*◌, ◌%◌, ◌≤◌, ◌<◌, ◌≡◌, refl, ap, sym, ◌∙◌, Bool, true, false, not, ◌||◌, ◌==◌,
  if_elim, arith, inl, inr, Option, none, some, List, ◌⊎◌,
}
use mayv.Prelude.Words.{word, add64, has_flag}
use mayv.Virtual.Space.{
  AddressSpaceNode, AddressSpace, Release, released, not_found, already_free, release, is_canonical,
}
use mayv.Virtual.Freeing.{allocate_physical, unmapped, free_pages}
use mayv.Paging.Tables.{VirtualMemory}
use mayv.Paging.Unmapping.{unmap_pages}
use mayv.Virtual.Regions.{available_at, available_pages, available_pages_le}
use mayv.Virtual.Defrag.{tidy, tidy_lem}
use mayv.Virtual.Check.{IsValid, origin, defrag_lem}
use mayv.Virtual.Request.{in_pages}
use mayv.Virtual.Release.{NoneHolds, GivenBack, LoopResult, release_lem}

-- A panic comes only where the range begins with an available page, where the last byte of the space
-- is used after all, or where `unmapPages` of the range fails. Otherwise `freePages` answers true, and
-- either no block holds the range and nothing changes, or the range was used, is available now and
-- unmapped, and no other address changes.
abbrev pub Freed :
    Bool
    → ℕ
    → AddressSpace
    → VirtualMemory
    → ℕ
    → ℕ
    → Bool
    → Option (AddressSpace × VirtualMemory × Bool)
    → Type 0
Freed kernel end s vm first count freed none =
    (available_at s.list first ≡ true)
    ⊎ ((available_at s.list (end - 1) || in_pages first count (end - 1)) ≡ false)
    ⊎ ((unmap_pages vm first count freed).1 ≡ false)
Freed kernel end s vm first count freed (some (after, left, answer)) =
    (answer ≡ true)
    × (((after ≡ s) × (left ≡ vm) × NoneHolds first (first + count * 4096) s.list)
        ⊎ (IsValid kernel end after
            × (unmap_pages vm first count freed ≡ (left, true))
            × ((a : ℕ) → in_pages first count a ≡ true → available_at s.list a ≡ false)
            × ((a : ℕ)
                → available_at after.list a ≡ (available_at s.list a || in_pages first count a))))

origin-aligned : (kernel : Bool) → origin kernel % 4096 ≡ 0
origin-aligned true = refl
origin-aligned false = refl

module _ (kernel : Bool) (end : ℕ) (s : AddressSpace) (vm : VirtualMemory) (first count flags : ℕ)
    (small : end ≤ word) (proper : origin kernel < end) (valid : IsValid kernel end s)
    (some_pages : 0 < count) (fits : first + count * 4096 < word) (aligned : first % 4096 ≡ 0)
    (canonical : is_canonical first ≡ true) where
  abbrev given_back : List AddressSpaceNode → AddressSpace
  given_back blocks = record { list = blocks; pages_available = add64 s.pages_available count }

  goes_on : (count == 0 || not (first % 4096 == 0) || not (is_canonical first)) ≡ false
  goes_on = ground (arith, canonical)

  last_fits : add64 first (count * 4096) ≡ first + count * 4096
  last_fits = omega (arith, fits)

  abbrev freed : Bool
  freed = has_flag flags allocate_physical

  Freed-unmapped :
      (after : AddressSpace)
      → IsValid kernel end after
      → ((a : ℕ) → in_pages first count a ≡ true → available_at s.list a ≡ false)
      → ((a : ℕ) → available_at after.list a ≡ (available_at s.list a || in_pages first count a))
      → (out : VirtualMemory × Bool) → unmap_pages vm first count freed ≡ out
      → Freed kernel end s vm first count freed (unmapped after out)
  Freed-unmapped after valid_now were_used kept (left, true) e =
      (refl, inr (valid_now, e, were_used, kept))
  Freed-unmapped after valid_now were_used kept (left, false) e =
      inr (inr (ap (λ (x : VirtualMemory × Bool). x.1) e))

  Freed-released :
      (after : List AddressSpaceNode)
      → release first (first + count * 4096) count s.list ≡ released after
      → GivenBack (origin kernel) end first count s.list after
      → Freed kernel end s vm first count freed (free_pages kernel s vm first count flags)
  unfolding free_pages
  Freed-released after e (tiled, later, were_used, kept, counted) =
      let (was_tiled, pages, was_tidy) = valid in
      let more : available_pages after ≡ add64 s.pages_available count =
        omega (arith, counted, pages, available_pages_le (origin kernel) end after tiled, small) in
      let (tidied, addresses, tidy_pages, tidy_now) =
        tidy_lem (origin kernel) end after small tiled in
      rw (goes_on, last_fits, e, defrag_lem kernel (given_back after) end small proper tiled more)
        (if_elim {A = Option AddressSpace}
          (λ d.
            Freed kernel end s vm first count freed
              (elim d as (λ x. Option (AddressSpace × VirtualMemory × Bool)) [
                | none ↦ none
                | some done ↦ unmapped done (unmap_pages vm first count freed)
              ]))
          (available_at after (end - 1))
          (λ t.
            Freed-unmapped
              (record { list = tidy after; pages_available = add64 s.pages_available count })
              (tidied, tidy_pages ∙ more, tidy_now) were_used (λ a. addresses a ∙ kept a)
              (unmap_pages vm first count freed) refl)
          (λ t. inr (inl (sym (kept (end - 1)) ∙ t))))

  Freed-cases :
      (r : Release)
      → release first (first + count * 4096) count s.list ≡ r
      → LoopResult (origin kernel) end first count s.list r
      → Freed kernel end s vm first count freed (free_pages kernel s vm first count flags)
  unfolding free_pages
  Freed-cases not_found e h = rw (goes_on, last_fits, e) (refl, inl (refl, refl, h))
  Freed-cases already_free e h = rw (goes_on, last_fits, e) (inl h)
  Freed-cases (released after) e h = Freed-released after e h

  -- On a valid space that ends by 2^64, and a range of at least one page that begins at a canonical
  -- page address and ends below 2^64, `freePages` answers true or panics. If it answers, either no
  -- block holds the range and neither the space nor the page tables change, or the pages of the range
  -- were used and are available now, no other address changes, the space is valid again, and
  -- `unmapPages` of the range returned true and left the page tables that it left. It panics only if
  -- the first page is available already, if the last byte of the space stays used, or if `unmapPages`
  -- of the range returns false.
  pub free_pages-Freed :
      Freed kernel end s vm first count freed (free_pages kernel s vm first count flags)
  free_pages-Freed = Freed-cases (release first (first + count * 4096) count s.list) refl (
      release_lem end first count small some_pages fits aligned (origin kernel) s.list valid.0
        (origin-aligned kernel))
