-- ===== src/Heap/Carving.antt =====
-- Handing out a free block: the blocks of the region afterwards.
use mayv.Prelude.{
  ℕ, ◌+◌, ◌-◌, ◌^◌, ◌≤◌, ◌<◌, ◌≡◌, refl, ap, ◌∙◌, true, false, leb, if◌then◌else◌, arith, inl, inr,
  Bool-cases, subst, List, ◌∷◌, ◌++◌,
}
use mayv.Prelude.Memory.{update}
use mayv.Prelude.Words.{sub64}
use mayv.Heap.Regions.{
  HeapEntry, HeapHeader, table_slots, free_signature, used_signature, first_entry, take_block,
}
use mayv.Heap.Tiling.{
  Block, Tiles, span, free_total, IsRegion, Tiles-span, Tiles-append, Tiles-split, Tiles-update,
  free_total-append, free_total_le,
}

-- The block of `size` bytes handed out for `count` bytes, before the other blocks: split if the rest
-- can be a block.
abbrev pub carve : ℕ → ℕ → List Block → List Block
carve count size after =
    if leb (count + 16) size
    then (false, count) ∷ (true, size - count - 8) ∷ after
    else (false, size) ∷ after

module _ (heap : HeapHeader) (before after : List Block) (size count : ℕ)
    (region : IsRegion heap (before ++ (true, size) ∷ after)) (fits : count ≤ size)
    (least : 8 ≤ count) (room : heap.entry_count < table_slots) where
  at : ℕ
  at = first_entry heap + span before

  parts :
      Tiles heap.entries (first_entry heap) at before
      × Tiles heap.entries at (heap.address + heap.size) ((true, size) ∷ after)
  unfolding at
  parts =
      Tiles-split heap.entries (first_entry heap) (heap.address + heap.size) before
        ((true, size) ∷ after) region.tiles

  free_of : heap.remaining ≡ free_total before + size + free_total after
  unfolding free_total
  free_of = region.remaining ∙ free_total-append before ((true, size) ∷ after) ∙ omega arith

  below_word : heap.remaining < 2 ^ 64
  below_word = omega (
    arith,
    region.remaining,
    free_total_le (before ++ (true, size) ∷ after),
    region.inside,
    Tiles-span heap.entries (first_entry heap) (heap.address + heap.size)
        (before ++ (true, size) ∷ after) region.tiles,
  )

  abbrev taken : HeapEntry
  taken = record { signature = used_signature; size = count }

  abbrev rest_of : HeapEntry
  rest_of = record { signature = free_signature; size = size - count - 8 }

  abbrev split_entries : ℕ → HeapEntry
  split_entries = update (update heap.entries at taken) (at + count + 8) rest_of

  abbrev split_heap : HeapHeader
  split_heap = record heap {
    entries = split_entries;
    remaining = sub64 heap.remaining (count + 8);
    entry_table = update heap.entry_table heap.entry_count (at + 8);
    entry_count = heap.entry_count + 1;
  }

  take_split : count + 16 ≤ size → take_block heap count at ≡ split_heap
  unfolding take_block
  take_split large =
      let ((sign, is_size, eight), rest) = parts.1 in
      let test : leb (count + 8 + 8) size ≡ true = ground (arith, large) in rw (is_size, test) refl

  abbrev whole_heap : HeapHeader
  whole_heap = record heap {
    entries = update heap.entries at (record { signature = used_signature; size = size });
    remaining = sub64 heap.remaining size;
    entry_table = update heap.entry_table heap.entry_count (at + 8);
    entry_count = heap.entry_count + 1;
  }

  take_whole : size < count + 16 → take_block heap count at ≡ whole_heap
  unfolding take_block
  take_whole small =
      let ((sign, is_size, eight), rest) = parts.1 in
      let test : leb (count + 8 + 8) size ≡ false = ground (arith, small) in rw (is_size, test) refl

  behind :
      count + 16 ≤ size
      → Tiles split_entries
          (at + 8 + count)
          (heap.address + heap.size)
          ((true, size - count - 8) ∷ after)
  behind large =
      let rest : Tiles heap.entries (at + 8 + size) (heap.address + heap.size) after = parts.1.1 in
      let e : split_entries (at + 8 + count) ≡ rest_of = ground arith in
      (
        (
          ap (λ (x : HeapEntry). x.signature) e,
          ap (λ (x : HeapEntry). x.size) e,
          omega (arith, large),
        ),
        subst (λ (a : ℕ). Tiles split_entries a (heap.address + heap.size) after)
            (omega (arith, large))
            (Tiles-update (update heap.entries at taken) (at + 8 + size) (heap.address + heap.size)
              (at + count + 8) rest_of after (inl (omega (arith, large)))
              (Tiles-update heap.entries (at + 8 + size) (heap.address + heap.size) at taken after
                (inl (omega arith)) rest)),
      )

  split-Tiles :
      count + 16 ≤ size
      → Tiles split_entries
          (first_entry heap)
          (heap.address + heap.size)
          (before ++ (false, count) ∷ (true, size - count - 8) ∷ after)
  unfolding at
  split-Tiles large =
      let e : split_entries at ≡ taken = ground arith in
      Tiles-append split_entries (first_entry heap) (heap.address + heap.size) before
        ((false, count) ∷ (true, size - count - 8) ∷ after)
        (Tiles-update (update heap.entries at taken) (first_entry heap) at (at + count + 8) rest_of
          before (inr (omega arith))
          (Tiles-update heap.entries (first_entry heap) at at taken before (inr (omega arith))
            parts.0))
        (
          (ap (λ (x : HeapEntry). x.signature) e, ap (λ (x : HeapEntry). x.size) e, least),
          behind large,
        )

  split-IsRegion :
      count + 16 ≤ size
      → IsRegion
          (take_block heap count at)
          (before ++ (false, count) ∷ (true, size - count - 8) ∷ after)
  unfolding free_total
  split-IsRegion large = rw (take_split large) (record {
    tiles = split-Tiles large;
    remaining =
        rw (free_total-append before ((false, count) ∷ (true, size - count - 8) ∷ after))
          (omega (arith, below_word, free_of, large));
    some_block = region.some_block;
    inside = region.inside;
    recorded = omega (arith, room);
  })

  whole-Tiles :
      Tiles whole_heap.entries
        (first_entry heap)
        (heap.address + heap.size)
        (before ++ (false, size) ∷ after)
  unfolding at
  whole-Tiles =
      let ((sign, is_size, eight), rest) = parts.1 in
      let entry : HeapEntry = record { signature = used_signature; size = size } in
      let e : whole_heap.entries at ≡ entry = ground arith in
      Tiles-append whole_heap.entries (first_entry heap) (heap.address + heap.size) before
        ((false, size) ∷ after)
        (Tiles-update heap.entries (first_entry heap) at at entry before (inr (omega arith))
          parts.0)
        (
          (ap (λ (x : HeapEntry). x.signature) e, ap (λ (x : HeapEntry). x.size) e, eight),
          Tiles-update heap.entries (at + 8 + size) (heap.address + heap.size) at entry after
              (inl (omega arith)) rest,
        )

  whole-IsRegion :
      size < count + 16 → IsRegion (take_block heap count at) (before ++ (false, size) ∷ after)
  unfolding free_total
  whole-IsRegion small = rw (take_whole small) (record {
    tiles = whole-Tiles;
    remaining =
        rw (free_total-append before ((false, size) ∷ after)) (omega (arith, below_word, free_of));
    some_block = region.some_block;
    inside = region.inside;
    recorded = omega (arith, room);
  })

  -- The region after the block was handed out.
  pub take_block-IsRegion :
      IsRegion
        (take_block heap count (first_entry heap + span before))
        (before ++ carve count size after)
  unfolding at
  take_block-IsRegion = elim (Bool-cases (leb (count + 16) size)) [
    | inl large ↦ rw large (split-IsRegion (ground (arith, large)))
    | inr small ↦ rw small (whole-IsRegion (ground (arith, small)))
  ]
