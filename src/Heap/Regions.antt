-- ===== src/Heap/Regions.antt =====
-- src/boot/heapmemmgmt.cpp: `allocate`, `free`, `validHeap`, `nextHeapEntry` and `validHeapEntry`. The
-- list of regions is a list of headers; a region's own memory is the function `entries`, which gives
-- the entry that stands at an address, and its entry table the function `entry_table`,
-- of which the slots below `table_slots` are memory of the table.
use mayv.Prelude.{
  ℕ, zero, suc, ◌+◌, ◌-◌, ◌/◌, ◌%◌, ◌^◌, Bool, true, false, not, ◌&&◌, ◌||◌, ltb, leb, ◌==◌,
  if◌then◌else◌, Option, none, some, List, [], ◌∷◌,
}
use mayv.Prelude.Memory.{update}
use mayv.Prelude.Words.{add64, sub64}

abbrev pub new_region_size : ℕ
new_region_size = 2 ^ 21

abbrev pub min_block_size : ℕ
min_block_size = 8

abbrev pub header_size : ℕ
header_size = 48

abbrev pub entry_size : ℕ
entry_size = 8

-- `entryTableSize`
abbrev pub entry_table_size : ℕ
entry_table_size = new_region_size / (entry_size + min_block_size)

-- The entries that the pages of an entry table hold, of eight bytes each
abbrev pub table_slots : ℕ
table_slots = entry_table_size / 8

-- `Signature::Free` and `Signature::Used`
abbrev pub free_signature : ℕ
free_signature = 0x45455246

abbrev pub used_signature : ℕ
used_signature = 0x44455355

pub record HeapEntry : Type 0 where
  pub signature : ℕ
  pub size : ℕ

pub record HeapHeader : Type 0 where
  pub address : ℕ
  pub entry_count : ℕ
  pub entry_table : ℕ → ℕ
  pub remaining : ℕ
  pub size : ℕ
  pub entries : ℕ → HeapEntry

-- How a call ends: in a panic, in a write through a null pointer, in a write behind the entry table, or
-- with a result.
pub data Outcome {ℓ} (A : Type ℓ) : Type ℓ where
  panicked : Outcome A
  faulted : Outcome A
  overran : Outcome A
  returned : A → Outcome A

-- `nextHeapEntry`, 0 for `nullptr`
unfoldable pub next_heap_entry : HeapHeader → ℕ → ℕ
next_heap_entry heap entry =
    let heap_end = add64 heap.address heap.size in
    let next = add64 (add64 entry entry_size) (heap.entries entry).size in
    if leb heap_end next || ltb heap_end (add64 (add64 next entry_size) min_block_size)
    then 0
    else next

-- `validHeapEntry`; where it is false the code panics.
unfoldable pub valid_heap_entry : HeapHeader → HeapEntry → Bool
valid_heap_entry heap entry =
    (entry.signature == free_signature || entry.signature == used_signature)
    && leb entry.size heap.remaining
    && leb entry.size (sub64 (sub64 heap.size header_size) entry_size)
    && leb min_block_size entry.size

-- The inner loop of `allocate`, from an entry on: the entry where it stops.
unfoldable pub find_block : ℕ → HeapHeader → ℕ → ℕ → Outcome ℕ
find_block zero heap count entry = panicked
find_block (suc fuel) heap count entry =
    let later = find_block fuel heap count (next_heap_entry heap entry) in
    if entry == 0
    then returned 0
    else if not (valid_heap_entry heap (heap.entries entry))
    then panicked
    else if not ((heap.entries entry).signature == free_signature)
        || ltb (heap.entries entry).size count
    then later
    else returned entry

-- The block at `entry` handed out, split if what is left can hold a block of its own.
unfoldable pub take_block : HeapHeader → ℕ → ℕ → HeapHeader
take_block heap count entry =
    let size = (heap.entries entry).size in
    let table = update heap.entry_table heap.entry_count (entry + entry_size) in
    if leb (count + entry_size + min_block_size) size
    then record heap {
      entries =
          update (update heap.entries entry (record { signature = used_signature; size = count }))
            (entry + count + entry_size)
            (record { signature = free_signature; size = size - count - entry_size });
      remaining = sub64 heap.remaining (count + entry_size);
      entry_table = table;
      entry_count = heap.entry_count + 1;
    }
    else record heap {
      entries =
          update heap.entries entry (record (heap.entries entry) { signature = used_signature });
      remaining = sub64 heap.remaining size;
      entry_table = table;
      entry_count = heap.entry_count + 1;
    }

abbrev pub first_entry : HeapHeader → ℕ
first_entry heap = heap.address + header_size

-- The entry that the search stopped at, which may be null. The table may be full.
unfoldable pub take_found : HeapHeader → ℕ → Outcome ℕ → Outcome (HeapHeader × ℕ)
take_found heap count panicked = panicked
take_found heap count faulted = faulted
take_found heap count overran = overran
take_found heap count (returned entry) =
    if entry == 0
    then faulted
    else if leb table_slots heap.entry_count
    then overran
    else returned (take_block heap count entry, entry + entry_size)

abbrev pub put_back : HeapHeader → Outcome (List HeapHeader × ℕ) → Outcome (List HeapHeader × ℕ)
put_back heap panicked = panicked
put_back heap faulted = faulted
put_back heap overran = overran
put_back heap (returned (heaps, value)) = returned (heap ∷ heaps, value)

abbrev pub put_front : List HeapHeader → Outcome (HeapHeader × ℕ) → Outcome (List HeapHeader × ℕ)
put_front heaps panicked = panicked
put_front heaps faulted = faulted
put_front heaps overran = overran
put_front heaps (returned (heap, value)) = returned (heap ∷ heaps, value)

-- The loop over the regions: the regions afterwards, and `allocatedValue`.
unfoldable pub serve : ℕ → List HeapHeader → Outcome (List HeapHeader × ℕ)
serve count [] = returned ([], 0)
serve count (heap ∷ heaps) =
    let later = serve count heaps in
    if leb count heap.remaining
    then put_front heaps
        (take_found heap count (find_block heap.size heap count (first_entry heap)))
    else put_back heap later

-- The loop of `validHeap`: `total`, or `none` for the panic
unfoldable pub total_size : ℕ → HeapHeader → ℕ → ℕ → Option ℕ
total_size zero heap entry total = none
total_size (suc fuel) heap entry total =
    let later =
      total_size fuel heap (next_heap_entry heap entry)
        (add64 total (entry_size + (heap.entries entry).size)) in
    if entry == 0
    then some total
    else if valid_heap_entry heap (heap.entries entry)
    then later
    else none

-- `validHeap`; where it is false the code panics.
unfoldable pub valid_heap : HeapHeader → Bool
valid_heap heap = elim (total_size heap.size heap (first_entry heap) header_size) [
  | none ↦ false
  | some total ↦ total == heap.size
]

unfoldable pub valid_heaps : List HeapHeader → Bool
valid_heaps [] = true
valid_heaps (heap ∷ heaps) = valid_heap heap && valid_heaps heaps

-- The check of all regions at the end of a call
abbrev pub check_heaps {ℓ} : {A : Type ℓ} → List HeapHeader → A → Outcome A
check_heaps heaps result = if valid_heaps heaps then returned result else panicked

abbrev pub after_serving : Outcome (List HeapHeader × ℕ) → Outcome (List HeapHeader × ℕ)
after_serving panicked = panicked
after_serving faulted = faulted
after_serving overran = overran
after_serving (returned (heaps, value)) = check_heaps heaps (heaps, value)

-- The next multiple of `minBlockSize`
abbrev pub aligned : ℕ → ℕ
aligned count =
    if ltb 0 (count % min_block_size)
    then count + (min_block_size - count % min_block_size)
    else count

abbrev pub is_null : List HeapHeader → Bool
is_null [] = true
is_null (heap ∷ heaps) = false

-- `allocate`
unfoldable pub allocate : List HeapHeader → ℕ → Outcome (List HeapHeader × ℕ)
allocate heaps count =
    if is_null heaps
    then panicked
    else if count == 0 || leb (new_region_size - header_size - entry_size) count
    then panicked
    else after_serving (serve (aligned count) heaps)

-- The loop over the entry table, from `i` on
unfoldable pub find_index : ℕ → ℕ → (ℕ → ℕ) → ℕ → Option ℕ
find_index zero i table address = none
find_index (suc left) i table address =
    let later = find_index left (i + 1) table address in
    if table i == address then some i else later

-- The block of the entry `i` of the table, given back.
unfoldable pub give_back : HeapHeader → ℕ → ℕ → HeapHeader
give_back heap i address =
    let entry = heap.entries (address - entry_size) in
    record heap {
      entry_count = heap.entry_count - 1;
      entry_table = update heap.entry_table i (heap.entry_table (heap.entry_count - 1));
      entries =
          update heap.entries (address - entry_size) (record entry { signature = free_signature });
      remaining = add64 heap.remaining entry.size;
    }

-- The loop of `free` over the regions: the regions afterwards, and `freed`.
unfoldable pub free_block : List HeapHeader → ℕ → List HeapHeader × Bool
free_block [] address = ([], false)
free_block (heap ∷ heaps) address =
    let later = free_block heaps address in
    let skipped : List HeapHeader × Bool = (heap ∷ later.0, later.1) in
    if leb (heap.address + header_size + entry_size) address
      && ltb address (heap.address + heap.size)
    then elim (find_index heap.entry_count 0 heap.entry_table address) [
      | none ↦ skipped
      | some i ↦ (give_back heap i address ∷ heaps, true)
    ]
    else skipped

-- `free`
unfoldable pub free : List HeapHeader → ℕ → Outcome (List HeapHeader)
free heaps address =
    let (after, freed) = free_block heaps address in
    if valid_heaps after then if freed then returned after else panicked else panicked
