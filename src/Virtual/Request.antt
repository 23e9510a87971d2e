-- ===== src/Virtual/Request.antt =====
-- `requestPages` on the address space as a whole.
use mayv.Prelude.{
  ℕ, ◌+◌, ◌-◌, ◌*◌, ◌≤◌, ◌<◌, ◌≡◌, refl, ap, sym, ◌∙◌, Bool, true, false, not, ◌&&◌, ◌||◌, ltb, leb,
  ◌==◌, if◌then◌else◌, if_elim, arith, inl, inr, Bool-cases, Option-cases, Option, none, some,
  get_elem?, ◌⊎◌,
}
use mayv.Prelude.Words.{word, sub64, has_flag}
use mayv.Physical.Request.{PageRequestResult}
use mayv.Virtual.Space.{AddressSpaceNode, AddressSpace, best_fit, claim}
use mayv.Virtual.Requesting.{virtual_contiguous, map_requested, backed, request_space}
use mayv.Paging.Tables.{VirtualMemory}
use mayv.Virtual.Regions.{
  Tiled, available_at_inside, available_at, available_pages, available_pages_le,
}
use mayv.Virtual.Defrag.{tidy, tidy_lem}
use mayv.Virtual.Check.{IsValid, origin, defrag_lem}
use mayv.Virtual.Claim.{
  Fits, NoneFits, Smallest, best_fit-Found, best_fit-NoneFits, best_fit-Smallest, claim_lem,
}

-- Does the address lie in the first `count` pages from `first` on?
abbrev pub in_pages : ℕ → ℕ → ℕ → Bool
in_pages first count a = leb first a && ltb a (first + count * 4096)

-- The space after a request: valid, the pages of the answer used, every other address as it was.
abbrev pub HandedOut : Bool → ℕ → AddressSpace → ℕ → AddressSpace → ℕ → Type 0
HandedOut kernel end s count after first =
    IsValid kernel end after
    × ((a : ℕ) → in_pages first count a ≡ true → available_at s.list a ≡ true)
    × ((a : ℕ)
        → available_at after.list a ≡ (available_at s.list a && not (in_pages first count a)))

-- The block `b` is in the list, and one of its smallest that fit.
abbrev pub BestFit : AddressSpace → ℕ → AddressSpaceNode → Type 0
BestFit s count b = (i : ℕ) × (get_elem? s.list i ≡ some b) × Fits count b × Smallest count b s.list

-- An answer is the start of a best fit, whose first pages are handed out, and mapped where
-- RequestType::AllocatePhysical asks for it. A panic comes only without RequestType::VirtualContiguous,
-- where no block fits, where the last byte of the space is used once the start of a best fit is, or
-- from the mapping.
abbrev pub Answered :
    Bool
    → ℕ
    → AddressSpace
    → VirtualMemory
    → ℕ
    → ℕ
    → Option (AddressSpace × VirtualMemory × PageRequestResult)
    → Type 0
Answered kernel end s vm count flags none =
    (has_flag flags virtual_contiguous ≡ false)
    ⊎ NoneFits count s.list
    ⊎ ((b : AddressSpaceNode) × BestFit s count b
        × (((available_at s.list (end - 1) && not (in_pages b.base count (end - 1))) ≡ false)
            ⊎ (map_requested vm b.base count flags ≡ none)))
Answered kernel end s vm count flags (some (after, left, result)) =
    (b : AddressSpaceNode) × BestFit s count b
    × (result.address ≡ b.base)
    × (result.allocated_count ≡ count)
    × HandedOut kernel end s count after b.base
    × (map_requested vm b.base count flags ≡ some left)

module _ (kernel : Bool) (end : ℕ) (s : AddressSpace) (vm : VirtualMemory) (count flags : ℕ)
    (small : end ≤ word) (proper : origin kernel < end) (valid : IsValid kernel end s)
    (some_pages : 0 < count) (enough : count ≤ s.pages_available) where
  abbrev claimed : ℕ → AddressSpace
  claimed i = record {
    list = claim count i s.list;
    pages_available = sub64 s.pages_available count;
  }

  proceeds : (count == 0 || ltb s.pages_available count) ≡ false
  proceeds = ground arith

  unanswered :
      has_flag flags virtual_contiguous ≡ true
      → best_fit count s.list 0 none ≡ none
      → request_space kernel s vm count flags ≡ none
  unfolding request_space
  unanswered set e = rw (proceeds, set, e, request_space) refl

  -- The space after a request, before its pages are mapped.
  abbrev taken : ℕ → AddressSpace
  taken i = record {
    list = tidy (claim count i s.list);
    pages_available = sub64 s.pages_available count;
  }

  abbrev finished :
      AddressSpaceNode
      → Option AddressSpace
      → Option (AddressSpace × VirtualMemory × PageRequestResult)
  finished b checked = elim checked [
    | none ↦ none
    | some done ↦
        backed done (record { address = b.base; allocated_count = count })
          (map_requested vm b.base count flags)
  ]

  answered :
      (i : ℕ) (b : AddressSpaceNode)
      → has_flag flags virtual_contiguous ≡ true
      → best_fit count s.list 0 none ≡ some (i, b)
      → available_pages (claim count i s.list) ≡ sub64 s.pages_available count
      → Tiled (origin kernel) end (claim count i s.list)
      → request_space kernel s vm count flags
        ≡ finished b
            (if available_at (claim count i s.list) (end - 1) then some (taken i) else none)
  unfolding request_space
  answered i b set e counted tiled =
      rw
        (
          proceeds,
          set,
          e,
          defrag_lem kernel (claimed i) end small proper tiled counted,
          request_space,
        )
        refl

  fitting :
      (i : ℕ) (b : AddressSpaceNode)
      → best_fit count s.list 0 none ≡ some (i, b)
      → (get_elem? s.list i ≡ some b) × Fits count b × Smallest count b s.list
  fitting i b e =
      let smallest = best_fit-Smallest count s.list 0 none i b e in
      elim (best_fit-Found count s.list 0 none i b e) [
        | inl h ↦ ground arith
        | inr (later, at, fits) ↦
            (ap (get_elem? s.list) {y = i - 0} (omega arith) ∙ at, fits, smallest.1)
      ]

  Answered-mapped :
      (b : AddressSpaceNode) (after : AddressSpace)
      → BestFit s count b
      → HandedOut kernel end s count after b.base
      → (out : Option VirtualMemory) → map_requested vm b.base count flags ≡ out
      → Answered kernel end s vm count flags
          (backed after (record { address = b.base; allocated_count = count }) out)
  Answered-mapped b after best handed none e = inr (inr (b, best, inr e))
  Answered-mapped b after best handed (some left) e = (b, best, refl, refl, handed, e)

  Answered-found :
      (i : ℕ) (b : AddressSpaceNode)
      → has_flag flags virtual_contiguous ≡ true
      → best_fit count s.list 0 none ≡ some (i, b)
      → Answered kernel end s vm count flags (request_space kernel s vm count flags)
  Answered-found i b set e =
      let (at, fits, smallest) = fitting i b e in
      let (tiled, pages, is_tidy) = valid in
      let (left, addresses, counted) =
        claim_lem (origin kernel) end count s.list i b small tiled at fits in
      let fewer : available_pages (claim count i s.list) ≡ sub64 s.pages_available count =
        omega (arith, counted, pages, available_pages_le (origin kernel) end s.list tiled, small) in
      let (tidied, kept, tidy_pages, tidy_now) =
        tidy_lem (origin kernel) end (claim count i s.list) small left in
      rw (answered i b set e fewer left) (
        if_elim {A = Option AddressSpace}
          (λ checked. Answered kernel end s vm count flags (finished b checked))
          (available_at (claim count i s.list) (end - 1))
          (λ t.
            Answered-mapped b (taken i) (i, at, fits, smallest)
              (
                (tidied, tidy_pages ∙ fewer, tidy_now),
                (λ a h.
                    available_at_inside s.list i b a at fits.0 (ground arith)
                      (ground (arith, fits.1))),
                λ a. kept a ∙ addresses a,
              )
              (map_requested vm b.base count flags) refl)
          (λ t. inr (inr (b, (i, at, fits, smallest), inl (sym (addresses (end - 1)) ∙ t)))))

  no_contiguous :
      has_flag flags virtual_contiguous ≡ false → request_space kernel s vm count flags ≡ none
  unfolding request_space
  no_contiguous h = rw (proceeds, h, request_space) refl

  -- On a valid space that ends by 2^64, `requestPages` of at least one page and at most as many as are
  -- available: the answer is the start of a block of the list that fits and than which no block that
  -- fits is smaller. Its first pages were available and are used afterwards, no other address changes,
  -- and the space is valid again; with RequestType::AllocatePhysical the page tables are those that
  -- the loop which maps the pages leaves, and otherwise they stay. It panics only without
  -- RequestType::VirtualContiguous, if no block holds that many pages, if the last byte of the space
  -- is used once the pages are, or if that loop panics.
  pub request_space-Answered :
      Answered kernel end s vm count flags (request_space kernel s vm count flags)
  request_space-Answered = elim (Bool-cases (has_flag flags virtual_contiguous)) [
    | inl set ↦ elim (Option-cases (best_fit count s.list 0 none)) [
      | inl e ↦ rw (unanswered set e) (inr (inl (best_fit-NoneFits count s.list 0 none e).1))
      | inr ((i, b), e) ↦ Answered-found i b set e
    ]
    | inr clear ↦ rw (no_contiguous clear) (inl clear)
  ]
