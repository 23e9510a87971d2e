-- ===== src/Heap/Tiling.antt =====
-- What a region stands for: a sequence of blocks, free or used, that fill it without a gap.
use mayv.Prelude.{
  ℕ, ◌+◌, ◌^◌, ◌≤◌, ◌<◌, ◌≡◌, sym, Bool, true, false, if◌then◌else◌, arith, subst, List, [], ◌∷◌,
  ◌++◌, ◌⊎◌,
}
use mayv.Prelude.Memory.{update}
use mayv.Heap.Regions.{
  HeapEntry, HeapHeader, free_signature, used_signature, header_size, table_slots, first_entry,
}

-- A block: is it free, and its size without the entry in front.
abbrev pub Block : Type 0
Block = Bool × ℕ

abbrev pub signature_of : Bool → ℕ
signature_of is_free = if is_free then free_signature else used_signature

abbrev pub Stands : (ℕ → HeapEntry) → ℕ → Block → Type 0
Stands entries at (is_free, size) =
    ((entries at).signature ≡ signature_of is_free) × ((entries at).size ≡ size) × (8 ≤ size)

-- The blocks stand one behind another from `at` to `end`.
abbrev pub Tiles : (ℕ → HeapEntry) → ℕ → ℕ → List Block → Type 0
Tiles entries at end [] = at ≡ end
Tiles entries at end (block ∷ blocks) =
    Stands entries at block × Tiles entries (at + 8 + block.1) end blocks

-- The bytes that blocks take with their entries.
unfoldable pub span : List Block → ℕ
span [] = 0
span (block ∷ blocks) = 8 + block.1 + span blocks

unfoldable pub free_total : List Block → ℕ
free_total [] = 0
free_total ((is_free, size) ∷ blocks) = (if is_free then size else 0) + free_total blocks

pub record IsRegion (heap : HeapHeader) (blocks : List Block) : Type 0 where
  pub tiles : Tiles heap.entries (first_entry heap) (heap.address + heap.size) blocks
  pub remaining : heap.remaining ≡ free_total blocks
  pub some_block : header_size < heap.size
  pub inside : heap.address + heap.size + 16 < 2 ^ 64
  pub recorded : heap.entry_count ≤ table_slots

module _ (entries : ℕ → HeapEntry) where
  pub Tiles-span :
      (at end : ℕ) (blocks : List Block) → Tiles entries at end blocks → at + span blocks ≡ end
  unfolding span
  Tiles-span at end [] h = omega (arith, h)
  Tiles-span at end (block ∷ blocks) (stands, rest) =
      omega (arith, Tiles-span (at + 8 + block.1) end blocks rest)

  pub Tiles-append :
      (at end : ℕ) (xs ys : List Block)
      → Tiles entries at (at + span xs) xs
      → Tiles entries (at + span xs) end ys
      → Tiles entries at end (xs ++ ys)
  unfolding span
  Tiles-append at end [] ys left right =
      subst (λ (a : ℕ). Tiles entries a end ys) (omega arith) right
  Tiles-append at end (x ∷ xs) ys (stands, left) right = (
    stands,
    Tiles-append (at + 8 + x.1) end xs ys
        (subst (λ (e : ℕ). Tiles entries (at + 8 + x.1) e xs) (omega arith) left)
        (subst (λ (a : ℕ). Tiles entries a end ys) (omega arith) right),
  )

  pub Tiles-split :
      (at end : ℕ) (xs ys : List Block)
      → Tiles entries at end (xs ++ ys)
      → Tiles entries at (at + span xs) xs × Tiles entries (at + span xs) end ys
  unfolding span
  Tiles-split at end [] ys h =
      (omega arith, subst (λ (a : ℕ). Tiles entries a end ys) (omega arith) h)
  Tiles-split at end (x ∷ xs) ys (stands, h) =
      let (left, right) = Tiles-split (at + 8 + x.1) end xs ys h in
      (
        (stands, subst (λ (e : ℕ). Tiles entries (at + 8 + x.1) e xs) (omega arith) left),
        subst (λ (a : ℕ). Tiles entries a end ys) (omega arith) right,
      )

  -- A write outside of the blocks
  pub Tiles-update :
      (at end where_to : ℕ) (entry : HeapEntry) (blocks : List Block)
      → (where_to < at) ⊎ (end ≤ where_to)
      → Tiles entries at end blocks
      → Tiles (update entries where_to entry) at end blocks
  Tiles-update at end where_to entry [] away h = h
  Tiles-update at end where_to entry (block ∷ blocks) away (stands, rest) =
      let behind = Tiles-span (at + 8 + block.1) end blocks rest in
      let same : update entries where_to entry at ≡ entries at = ground (arith, away, behind) in
      (
        subst
            (λ (e : HeapEntry).
              (e.signature ≡ signature_of block.0) × (e.size ≡ block.1) × (8 ≤ block.1))
            (sym same) stands,
        Tiles-update (at + 8 + block.1) end where_to entry blocks (ground (arith, away)) rest,
      )

pub free_total-append : (xs ys : List Block) → free_total (xs ++ ys) ≡ free_total xs + free_total ys
unfolding free_total
free_total-append [] ys = omega arith
free_total-append ((is_free, size) ∷ xs) ys = rw (free_total-append xs ys) (omega arith)

pub free_total_le : (blocks : List Block) → free_total blocks ≤ span blocks
unfolding free_total span
free_total_le [] = omega arith
free_total_le ((true, size) ∷ blocks) = omega (arith, free_total_le blocks)
free_total_le ((false, size) ∷ blocks) = omega (arith, free_total_le blocks)
