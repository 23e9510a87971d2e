-- ===== src/Heap/Searching.antt =====
-- The inner loop of `allocate` stops at the first free block that is large enough.
use mayv.Prelude.{
  ℕ, zero, suc, ◌+◌, ◌^◌, ◌≤◌, ◌<◌, ◌≡◌, refl, ap, ◌∙◌, Bool, true, false, leb, arith, inl, inr,
  subst, dec_lt, ◌≢◌, List, [], ◌∷◌, ◌++◌, ◌⊎◌,
}
use mayv.Heap.Regions.{
  HeapHeader, Outcome, panicked, returned, free_signature, next_heap_entry, valid_heap_entry,
  find_block,
}
use mayv.Heap.Tiling.{Block, Stands, Tiles, span, Tiles-span}

-- No free block of these is large enough.
abbrev pub NoFit : ℕ → List Block → Type 0
NoFit count [] = Unit {0}
NoFit count ((is_free, size) ∷ blocks) = (is_free ≡ true → size < count) × NoFit count blocks

-- One of the blocks is larger than all the free blocks together.
abbrev pub Oversized : ℕ → List Block → Type 0
Oversized remaining [] = ⊥
Oversized remaining ((is_free, size) ∷ blocks) = (remaining < size) ⊎ Oversized remaining blocks

-- Where the search ends among blocks that stand from `at` on.
pub data Search (remaining count at : ℕ) (blocks : List Block) : Outcome ℕ → Type 0 where
  hit :
      (before : List Block) (size : ℕ) (after : List Block)
      → blocks ≡ before ++ (true, size) ∷ after
      → count ≤ size
      → NoFit count before
      → Search remaining count at blocks (returned (at + span before))
  miss : NoFit count blocks → Search remaining count at blocks (returned 0)
  corrupt : Oversized remaining blocks → Search remaining count at blocks panicked

-- The pointer to the first of the blocks, or null.
abbrev pub cursor : ℕ → List Block → ℕ
cursor at [] = 0
cursor at (block ∷ blocks) = at

-- A block in front that is not taken
Search-skip :
    (remaining count at : ℕ) (block : Block) (blocks : List Block) (out : Outcome ℕ)
    → (block.0 ≡ true → block.1 < count)
    → Search remaining count (at + 8 + block.1) blocks out
    → Search remaining count at (block ∷ blocks) out
unfolding span
Search-skip remaining count at block blocks out small (hit before size after e fits none_before) =
    subst (λ (a : ℕ). Search remaining count at (block ∷ blocks) (returned a)) (omega arith)
      (hit (block ∷ before) size after (ap (λ (bs : List Block). block ∷ bs) e) fits
        (small, none_before))
Search-skip remaining count at block blocks out small (miss none_there) = miss (small, none_there)
Search-skip remaining count at block blocks out small (corrupt oversized) = corrupt (inr oversized)

module _ (heap : HeapHeader) (inside : heap.address + heap.size + 16 < 2 ^ 64) where
  pub next-cursor :
      (at : ℕ) (block : Block) (blocks : List Block)
      → Tiles heap.entries at (heap.address + heap.size) (block ∷ blocks)
      → next_heap_entry heap at ≡ cursor (at + 8 + block.1) blocks
  unfolding next_heap_entry
  next-cursor at block [] ((sign, size, least), at_end) = rw size (ground (arith, at_end, inside))
  next-cursor at block (b ∷ blocks) ((sign, size, least), ((sign', size', least'), rest)) =
      rw size (
        ground (
          arith,
          Tiles-span heap.entries (at + 8 + block.1 + 8 + b.1) (heap.address + heap.size) blocks
              rest,
          inside,
          least',
        ))

  pub valid_iff :
      (at : ℕ) (block : Block)
      → heap.address + 48 ≤ at
      → at + 8 + block.1 ≤ heap.address + heap.size
      → Stands heap.entries at block
      → valid_heap_entry heap (heap.entries at) ≡ leb block.1 heap.remaining
  unfolding valid_heap_entry
  valid_iff at (true, size) from to (sign, is_size, least) =
      rw (sign, is_size) (ground (arith, from, to, least, inside))
  valid_iff at (false, size) from to (sign, is_size, least) =
      rw (sign, is_size) (ground (arith, from, to, least, inside))

  find_stop :
      (fuel count at : ℕ)
      → 0 < at
      → valid_heap_entry heap (heap.entries at) ≡ true
      → (heap.entries at).signature ≡ free_signature
      → count ≤ (heap.entries at).size
      → find_block (suc fuel) heap count at ≡ returned at
  unfolding find_block
  find_stop fuel count at proper valid sign fits = ground (arith, proper, valid, sign, fits)

  find_pass :
      (fuel count at : ℕ)
      → 0 < at
      → valid_heap_entry heap (heap.entries at) ≡ true
      → ((heap.entries at).signature ≢ free_signature) ⊎ ((heap.entries at).size < count)
      → find_block (suc fuel) heap count at ≡ find_block fuel heap count (next_heap_entry heap at)
  unfolding find_block
  find_pass fuel count at proper valid other = ground (arith, proper, valid, other)

  find_corrupt :
      (fuel count at : ℕ)
      → 0 < at
      → valid_heap_entry heap (heap.entries at) ≡ false
      → find_block (suc fuel) heap count at ≡ panicked
  unfolding find_block
  find_corrupt fuel count at proper bad = ground (arith, proper, bad)

  find_null : (fuel count : ℕ) → find_block (suc fuel) heap count 0 ≡ returned 0
  unfolding find_block
  find_null fuel count = refl

  other_block :
      (count at size : ℕ) (is_free : Bool)
      → Stands heap.entries at (is_free, size)
      → (is_free ≡ true → size < count)
      → ((heap.entries at).signature ≢ free_signature) ⊎ ((heap.entries at).size < count)
  other_block count at size true (sign, is_size, least) small = inr (rw is_size (small refl))
  other_block count at size false (sign, is_size, least) small = inl (λ e. ground (arith, sign, e))

  -- The block at `at` is skipped, whatever the search comes to behind it.
  passing :
      (fuel count at : ℕ) (block : Block) (blocks : List Block)
      → 0 < at
      → Tiles heap.entries at (heap.address + heap.size) (block ∷ blocks)
      → valid_heap_entry heap (heap.entries at) ≡ true
      → (block.0 ≡ true → block.1 < count)
      → Search heap.remaining count
          (at + 8 + block.1)
          blocks
          (find_block fuel heap count (cursor (at + 8 + block.1) blocks))
      → Search heap.remaining count at (block ∷ blocks) (find_block (suc fuel) heap count at)
  passing fuel count at (is_free, size) blocks proper ((sign, is_size, least), rest) valid small
        later =
      rw
        (
          find_pass fuel count at proper valid
              (other_block count at size is_free (sign, is_size, least) small),
          next-cursor at (is_free, size) blocks ((sign, is_size, least), rest),
        )
        (Search-skip heap.remaining count at (is_free, size) blocks
          (find_block fuel heap count (cursor (at + 8 + size) blocks)) small later)

  -- The block at `at` is as large as it may be: it is taken or skipped.
  standing :
      (fuel count at size : ℕ) (is_free : Bool) (blocks : List Block)
      → 0 < at
      → Tiles heap.entries at (heap.address + heap.size) ((is_free, size) ∷ blocks)
      → valid_heap_entry heap (heap.entries at) ≡ true
      → Search heap.remaining count
          (at + 8 + size)
          blocks
          (find_block fuel heap count (cursor (at + 8 + size) blocks))
      → Search heap.remaining count at
          ((is_free, size) ∷ blocks)
          (find_block (suc fuel) heap count at)
  unfolding span
  standing fuel count at size false blocks proper tiles valid later =
      passing fuel count at (false, size) blocks proper tiles valid (λ e. ground (arith, e)) later
  standing fuel count at size true blocks proper ((sign, is_size, least), rest) valid later =
      elim (dec_lt size count) [
        | yes small ↦
            passing fuel count at (true, size) blocks proper ((sign, is_size, least), rest) valid
              (λ e. small) later
        | no fits ↦ rw (find_stop fuel count at proper valid sign (omega (arith, is_size, fits))) (
            subst (λ (a : ℕ). Search heap.remaining count at ((true, size) ∷ blocks) (returned a))
              (omega arith) (hit [] size blocks refl (omega (arith, fits)) tt))
      ]

  pub find_block-Search :
      (fuel count at : ℕ) (blocks : List Block)
      → heap.address + 48 ≤ at
      → Tiles heap.entries at (heap.address + heap.size) blocks
      → span blocks < fuel
      → Search heap.remaining count at blocks (find_block fuel heap count (cursor at blocks))
  unfolding span
  find_block-Search zero count at blocks from tiles enough = ground (arith, enough)
  find_block-Search (suc fuel) count at [] from tiles enough = rw (find_null fuel count) (miss tt)
  find_block-Search (suc fuel) count at ((is_free, size) ∷ blocks) from
        ((sign, is_size, least), rest) enough =
      let stands : Stands heap.entries at (is_free, size) = (sign, is_size, least) in
      let to : at + 8 + size ≤ heap.address + heap.size =
        omega
          (arith, Tiles-span heap.entries (at + 8 + size) (heap.address + heap.size) blocks rest) in
      let valid = valid_iff at (is_free, size) from to stands in
      let later =
        find_block-Search fuel count (at + 8 + size) blocks (omega (arith, from)) rest
          (omega (arith, enough)) in
      elim (dec_lt heap.remaining size) [
        | yes large ↦
            rw (find_corrupt fuel count at (omega (arith, from)) (valid ∙ ground (arith, large)))
              (corrupt (inl large))
        | no fine ↦
            standing fuel count at size is_free blocks (omega (arith, from)) (stands, rest)
              (valid ∙ ground (arith, fine)) later
      ]
