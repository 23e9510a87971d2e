-- ===== src/Virtual/Claim.antt =====
-- `requestPages` on the address space: the best fit, and what taking it does to the list.
use mayv.Prelude.{
  ℕ, zero, suc, ◌+◌, ◌-◌, ◌*◌, ◌≤◌, ◌<◌, ◌≡◌, refl, ap, sym, ◌∙◌, true, false, not, ◌&&◌, ltb, leb,
  ◌==◌, if_elim, arith, inl, inr, Option, none, some, List, [], ◌∷◌, get_elem?, ◌⊎◌,
}
use mayv.Prelude.Words.{word}
use mayv.Virtual.Space.{AddressSpaceNode, best_fit, is_better, claim}
use mayv.Virtual.Regions.{
  Tiled-at, Tiled, available_at, available_pages, Tiled-le, available_at_before,
}

-- An available block that holds `count` pages.
abbrev pub Fits : ℕ → AddressSpaceNode → Type 0
Fits count b = (b.available ≡ true) × (count ≤ b.page_count)

-- The block `b` at `j` was the best so far, or fits and stands in the blocks, which begin at `i`.
abbrev pub Found :
    ℕ → List AddressSpaceNode → ℕ → Option (ℕ × AddressSpaceNode) → ℕ → AddressSpaceNode → Type 0
Found count blocks i best j b =
    (best ≡ some (j, b)) ⊎ ((i ≤ j) × (get_elem? blocks (j - i) ≡ some b) × Fits count b)

elem_next :
    (c : AddressSpaceNode) (rest : List AddressSpaceNode) (i j : ℕ)
    → i + 1 ≤ j
    → get_elem? (c ∷ rest) (j - i) ≡ get_elem? rest (j - (i + 1))
elem_next c rest i j h = ap (get_elem? (c ∷ rest)) {y = suc (j - (i + 1))} (omega arith)

elem_first :
    (c : AddressSpaceNode) (rest : List AddressSpaceNode) (i : ℕ)
    → get_elem? (c ∷ rest) (i - i) ≡ some c
elem_first c rest i = ap (get_elem? (c ∷ rest)) {y = 0} (omega arith)

keep_Found :
    (count i j : ℕ) (b c : AddressSpaceNode) (rest : List AddressSpaceNode)
    (best : Option (ℕ × AddressSpaceNode))
    → Found count rest (i + 1) best j b
    → Found count (c ∷ rest) i best j b
keep_Found count i j b c rest best (inl e) = inl e
keep_Found count i j b c rest best (inr (later, e, fits)) =
    inr (omega arith, elem_next c rest i j later ∙ e, fits)

take_Found :
    (count i j : ℕ) (b c : AddressSpaceNode) (rest : List AddressSpaceNode)
    (best : Option (ℕ × AddressSpaceNode))
    → Fits count c
    → Found count rest (i + 1) (some (i, c)) j b
    → Found count (c ∷ rest) i best j b
take_Found count i j b c rest best fits (inl e) = ground (arith, e, elem_first c rest i)
take_Found count i j b c rest best fits (inr (later, e, fits')) =
    inr (omega arith, elem_next c rest i j later ∙ e, fits')

pub best_fit-Found :
    (count : ℕ) (blocks : List AddressSpaceNode) (i : ℕ) (best : Option (ℕ × AddressSpaceNode))
    (j : ℕ) (b : AddressSpaceNode)
    → best_fit count blocks i best ≡ some (j, b)
    → Found count blocks i best j b
unfolding best_fit
best_fit-Found count [] i best j b e = inl e
best_fit-Found count (c ∷ rest) i best j b e =
    if_elim (λ r. r ≡ some (j, b) → Found count (c ∷ rest) i best j b)
      (c.available && leb count c.page_count && is_better best c)
      (λ t e'.
        take_Found count i j b c rest best (ground (arith, t))
          (best_fit-Found count rest (i + 1) (some (i, c)) j b e'))
      (λ t e'. keep_Found count i j b c rest best (best_fit-Found count rest (i + 1) best j b e')) e

-- No block of the list fits.
abbrev pub NoneFits : ℕ → List AddressSpaceNode → Type 0
NoneFits count [] = Unit {0}
NoneFits count (b ∷ rest) = (b.available ≡ true → b.page_count < count) × NoneFits count rest

better_none :
    (best : Option (ℕ × AddressSpaceNode)) (c : AddressSpaceNode)
    → best ≡ none
    → is_better best c ≡ true
unfolding is_better
better_none none c e = refl
better_none (some (j, b)) c e = ground arith

pub best_fit-NoneFits :
    (count : ℕ) (blocks : List AddressSpaceNode) (i : ℕ) (best : Option (ℕ × AddressSpaceNode))
    → best_fit count blocks i best ≡ none
    → (best ≡ none) × NoneFits count blocks
unfolding best_fit
best_fit-NoneFits count [] i best e = (e, tt)
best_fit-NoneFits count (c ∷ rest) i best e =
    if_elim (λ r. r ≡ none → (best ≡ none) × NoneFits count (c ∷ rest))
      (c.available && leb count c.page_count && is_better best c)
      (λ t e'. ground (arith, (best_fit-NoneFits count rest (i + 1) (some (i, c)) e').0))
      (λ t e'.
        let (empty, others) = best_fit-NoneFits count rest (i + 1) best e' in
        (empty, ((λ usable. ground (arith, t, usable, better_none best c empty)), others)))
      e

-- The block `b` is the smallest of those in the list that fit.
abbrev pub Smallest : ℕ → AddressSpaceNode → List AddressSpaceNode → Type 0
Smallest count b [] = Unit {0}
Smallest count b (c ∷ rest) = (Fits count c → b.page_count ≤ c.page_count) × Smallest count b rest

abbrev pub AtMost : AddressSpaceNode → Option (ℕ × AddressSpaceNode) → Type 0
AtMost b none = Unit {0}
AtMost b (some (j, c)) = b.page_count ≤ c.page_count

better-AtMost :
    (b c : AddressSpaceNode) (best : Option (ℕ × AddressSpaceNode))
    → is_better best c ≡ true
    → b.page_count ≤ c.page_count
    → AtMost b best
unfolding is_better
better-AtMost b c none t h = tt
better-AtMost b c (some (j, d)) t h = ground arith

not_better-AtMost :
    (b c : AddressSpaceNode) (best : Option (ℕ × AddressSpaceNode))
    → is_better best c ≡ false
    → AtMost b best
    → b.page_count ≤ c.page_count
unfolding is_better
not_better-AtMost b c none t h = ground arith
not_better-AtMost b c (some (j, d)) t h = ground arith

pub best_fit-Smallest :
    (count : ℕ) (blocks : List AddressSpaceNode) (i : ℕ) (best : Option (ℕ × AddressSpaceNode))
    (j : ℕ) (b : AddressSpaceNode)
    → best_fit count blocks i best ≡ some (j, b)
    → AtMost b best × Smallest count b blocks
unfolding best_fit
best_fit-Smallest count [] i best j b e = (rw e (omega arith), tt)
best_fit-Smallest count (c ∷ rest) i best j b e =
    if_elim (λ r. r ≡ some (j, b) → AtMost b best × Smallest count b (c ∷ rest))
      (c.available && leb count c.page_count && is_better best c)
      (λ t e'.
        let (small, others) = best_fit-Smallest count rest (i + 1) (some (i, c)) j b e' in
        (better-AtMost b c best (ground (arith, t)) small, ((λ fits. small), others)))
      (λ t e'.
        let (small, others) = best_fit-Smallest count rest (i + 1) best j b e' in
        (small, ((λ fits. not_better-AtMost b c best (ground (arith, t, fits)) small), others)))
      e

-- The list after the first `count` pages of the block `b` became used.
abbrev pub Taken :
    ℕ → ℕ → ℕ → AddressSpaceNode → List AddressSpaceNode → List AddressSpaceNode → Type 0
Taken start end count b before after =
    Tiled start end after
    × ((a : ℕ)
        → available_at after a
          ≡ (available_at before a && not (leb b.base a && ltb a (b.base + count * 4096))))
    × (available_pages after + count ≡ available_pages before)

Fits-more :
    (b : AddressSpaceNode) (count : ℕ)
    → count ≤ b.page_count
    → b.page_count == count ≡ false
    → count < b.page_count
Fits-more b count fits e = ground arith

claim_start :
    (start end count : ℕ) (b : AddressSpaceNode) (rest : List AddressSpaceNode)
    → end ≤ word
    → Tiled start end (b ∷ rest)
    → Fits count b
    → Taken start end count b (b ∷ rest) (claim count 0 (b ∷ rest))
unfolding claim
claim_start start end count b rest small (at, h) (is_available, fits) =
    if_elim (Taken start end count b (b ∷ rest)) (b.page_count == count)
      (λ e. (
        (at, h),
        (λ a. ground (arith, available_at_before (start + b.page_count * 4096) end rest a h)),
        ground arith,
      ))
      (λ e.
        let fit = Tiled-le (start + b.page_count * 4096) end rest h in
        let more = Fits-more b count fits e in
        (
          (
            at,
            (
              omega (arith, fit, more, small, at),
              Tiled-at (start + count * 4096 + (b.page_count - count) * 4096)
                  (start + b.page_count * 4096) end rest (omega (arith, more)) h,
            ),
          ),
          (λ a. ground (
            arith,
            fit,
            more,
            small,
            at,
            available_at_before (start + b.page_count * 4096) end rest a h,
          )),
          ground (arith, more),
        ))

some_injective : (c b : AddressSpaceNode) → some c ≡ some b → c ≡ b
some_injective c b e = ground arith

pub block_inside :
    (start end : ℕ) (blocks : List AddressSpaceNode) (i : ℕ) (b : AddressSpaceNode)
    → Tiled start end blocks
    → get_elem? blocks i ≡ some b
    → (start ≤ b.base) × (b.base + b.page_count * 4096 ≤ end)
block_inside start end [] i b h e = ground arith
block_inside start end (c ∷ rest) zero b (at, h) e =
    rw (sym (some_injective c b e))
      (omega (arith, at), omega (arith, at, Tiled-le (start + c.page_count * 4096) end rest h))
block_inside start end (c ∷ rest) (suc i) b (at, h) e =
    let (after, before) = block_inside (start + c.page_count * 4096) end rest i b h e in
    (omega (arith, after), before)

Fits-of : (count : ℕ) (c b : AddressSpaceNode) → c ≡ b → Fits count b → Fits count c
Fits-of count c b e fits = rw e fits

Taken-of :
    (start end count : ℕ) (c b : AddressSpaceNode) (before after : List AddressSpaceNode)
    → c ≡ b
    → Taken start end count c before after
    → Taken start end count b before after
Taken-of start end count c b before after e h = rw (sym e) h

pub claim_lem :
    (start end count : ℕ) (blocks : List AddressSpaceNode) (i : ℕ) (b : AddressSpaceNode)
    → end ≤ word
    → Tiled start end blocks
    → get_elem? blocks i ≡ some b
    → Fits count b
    → Taken start end count b blocks (claim count i blocks)
unfolding claim
claim_lem start end count [] i b small tiled e fits = ground arith
claim_lem start end count (c ∷ rest) zero b small tiled e fits =
    let at_head = some_injective c b e in
    Taken-of start end count c b (c ∷ rest) (claim count 0 (c ∷ rest)) at_head
      (claim_start start end count c rest small tiled (Fits-of count c b at_head fits))
claim_lem start end count (c ∷ rest) (suc i) b small (at, h) e fits =
    let (tiled, addresses, pages) =
      claim_lem (start + c.page_count * 4096) end count rest i b small h e fits in
    let inside = block_inside (start + c.page_count * 4096) end rest i b h e in
    ((at, tiled), (λ a. ground (arith, addresses a, inside.0, at)), ground (arith, pages))
