-- ===== src/Paging/UnmapLaws.antt =====
-- `unmapPages`: the pages of the range do not translate any more, and no other translation changes.
use mayv.Paging.CrawlLaws.{Agrees, valid_table}
use mayv.Prelude.{
  ℕ, zero, suc, ◌*◌, ◌^◌, ◌≤◌, ◌<◌, ◌≡◌, refl, ap, sym, ◌∙◌, Bool, true, false, ◌==◌, if_elim,
  arith, inl, inr, ℕ_discrete, ◌≢◌, none, some,
}
use mayv.Physical.Pages.{free}
use mayv.Physical.Marking.{mark_pages}
use mayv.Physical.Request.{invalid_address}
use mayv.Paging.Tables.{Frames, VirtualMemory, index_at, CrawlResult}
use mayv.Paging.Unmapping.{clear_present, all_absent, unmap_leaf, free_table, unmap_page}
use mayv.Paging.Tree.{
  walk, walk_down, walk_stop, prefix, prefix_root, prefix_step, Owner, Ordinary, IsTree,
  child_owner,
}
use mayv.Paging.Leaf.{descend, descend_down, written-walk, written-walk_self}
use mayv.Paging.MapPage.{Apart}
use mayv.Paging.Recursive.{reached}
use mayv.Paging.Cleared.{
  absent_entry, cleared, all_absent-each, cleared-address, cleared-IsTree, cleared-walk,
}

-- The entry that leads to the table of level `m` that the crawl found.
abbrev Link : CrawlResult → Frames → Owner → ℕ → ℕ → Type 0
Link r frames owner page m =
    (owner (r.physical_tables (suc m)) ≡ some (suc m, prefix (suc m) page))
    × ((frames (r.physical_tables (suc m)) (index_at m page)).physical_address * 4096
        ≡ r.physical_tables m)

module _ (r : CrawlResult) (frames : Frames) (root : ℕ) (owner : Owner)
    (tree : IsTree frames root owner) (page : ℕ) (ordinary : Ordinary page) where
  link :
      (i t m : ℕ)
      → i < 4
      → Agrees r frames page (suc i) t
      → owner t ≡ some (suc i, prefix (suc i) page)
      → r.physical_tables (suc i) ≡ t
      → m ≤ i
      → r.physical_tables m ≢ invalid_address
      → Link r frames owner page m
  link zero t m low agrees owned at le valid =
      let (there, to, rest) = reached r frames page 0 t m agrees le valid in
      let is_zero : m ≡ 0 = omega (arith, le) in rw (is_zero, at) (owned, to)
  link (suc i) t m low agrees owned at le valid =
      let (there, to, rest) = reached r frames page (suc i) t m agrees le valid in
      elim (ℕ_discrete m (suc i)) [
        | yes is_last ↦ rw (is_last, at) (owned, to)
        | no lower ↦
            link i (r.physical_tables (suc i)) m (omega (arith, low)) rest
              (ap owner (sym to)
                ∙ child_owner frames root owner t i page tree (omega (arith, low)) ordinary owned
                    there)
              refl (omega (arith, le, lower)) valid
      ]

  down :
      (i t : ℕ)
      → Agrees r frames page (suc i) t
      → r.physical_tables (suc i) ≡ t
      → r.physical_tables 0 ≢ invalid_address
      → descend frames page i t ≡ some (r.physical_tables 1)
  unfolding descend
  down zero t agrees at valid = ap some (sym at)
  down (suc i) t agrees at valid =
      let (there, to, rest) = reached r frames page (suc i) t 0 agrees (omega arith) valid in
      descend_down frames page i t there
      ∙ ap (descend frames page i) to
      ∙ down i (r.physical_tables (suc i)) rest refl valid

  not_mapped :
      (i t : ℕ)
      → Agrees r frames page (suc i) t
      → r.physical_tables 0 ≡ invalid_address
      → walk frames page (suc i) t ≡ none
  not_mapped zero t (inl (there, to, rest)) h =
      elim (valid_table frames root owner tree t (index_at 0 page) (sym to ∙ h)) [ ]
  not_mapped (suc i) t (inl (there, to, rest)) h =
      walk_down frames page (suc i) t there
      ∙ not_mapped i ((frames t (index_at (suc i) page)).physical_address * 4096) rest h
  not_mapped i t (inr (gone, nothing)) h = walk_stop frames page i t gone

is_valid : (table : ℕ) → (table == invalid_address) ≡ false → table ≢ invalid_address
is_valid table h e = ground (arith, h, e)

-- What unmapping has come to, on the way through one page: the tables are a tree with the same
-- addresses, the page does not translate, and every other page translates as it did.
abbrev pub Unmapped : VirtualMemory → Owner → ℕ → VirtualMemory → Type 0
Unmapped vm owner page after =
    (after.root ≡ vm.root)
    × IsTree after.frames vm.root owner
    × ((t k : ℕ) → (after.frames t k).physical_address ≡ (vm.frames t k).physical_address)
    × (walk after.frames page 4 vm.root ≡ none)
    × ((p : ℕ)
        → Ordinary p
        → Apart p page
        → walk after.frames p 4 vm.root ≡ walk vm.frames p 4 vm.root)

module _ (vm : VirtualMemory) (owner : Owner) (tree : IsTree vm.frames vm.root owner)
    (r : CrawlResult) (page : ℕ) (ordinary : Ordinary page)
    (agrees : Agrees r vm.frames page 4 vm.root) (rooted : r.physical_tables 4 ≡ vm.root) where
  root_owned : (p : ℕ) → owner vm.root ≡ some (4, prefix 4 p)
  root_owned p = tree.rooted ∙ rw (prefix_root p) refl

  Link-at : (m : ℕ) → m < 4 → r.physical_tables m ≢ invalid_address → Link r vm.frames owner page m
  Link-at m low valid =
      link r vm.frames vm.root owner tree page ordinary 3 vm.root m (omega arith) agrees
        (root_owned page) rooted (omega (arith, low)) valid

  leaf_cleared :
      r.physical_tables 0 ≢ invalid_address
      → (walk (cleared vm.frames (r.physical_tables 1) (index_at 0 page)) page 4 vm.root ≡ none)
        × ((p : ℕ)
            → Ordinary p
            → Apart p page
            → walk (cleared vm.frames (r.physical_tables 1) (index_at 0 page)) p 4 vm.root
              ≡ walk vm.frames p 4 vm.root)
  leaf_cleared valid =
      let table = r.physical_tables 1 in
      let index = index_at 0 page in
      let (owned, to) = Link-at 0 (omega arith) valid in
      let below : (absent_entry (vm.frames table index)).physical_address < 2 ^ 40 =
        tree.bounded table index in
      (
        written-walk_self vm.frames vm.root owner tree (prefix 1 page) table index
            (absent_entry (vm.frames table index)) owned (omega arith) below 3 page vm.root
            (omega arith) ordinary refl (root_owned page)
            (down r vm.frames vm.root owner tree page ordinary 3 vm.root agrees rooted valid),
        λ p h away.
            written-walk vm.frames vm.root owner tree (prefix 1 page) table index
              (absent_entry (vm.frames table index)) owned (omega arith) below 4 p vm.root
              (omega arith) h (λ e. away (e ∙ sym (prefix_step 0 page (omega arith))))
              (root_owned p),
      )

  Unmapped-leaf :
      (after : VirtualMemory)
      → after.root ≡ vm.root
      → r.physical_tables 0 ≢ invalid_address
      → after.frames ≡ cleared vm.frames (r.physical_tables 1) (index_at 0 page)
      → Unmapped vm owner page after
  Unmapped-leaf after same_root valid e =
      let table = r.physical_tables 1 in
      let index = index_at 0 page in
      let (gone, others) = leaf_cleared valid in
      (
        same_root,
        rw e (cleared-IsTree vm.frames vm.root owner table index tree),
        (λ t k. rw e (cleared-address vm.frames table index t k)),
        rw e gone,
        λ p h away. rw e (others p h away),
      )

  pub leaf-Unmapped :
      (free_physical : Bool) → Unmapped vm owner page (unmap_leaf vm r page free_physical)
  unfolding unmap_leaf clear_present
  leaf-Unmapped free_physical =
      let after = clear_present vm (r.physical_tables 1) (index_at 0 page) in
      if_elim (Unmapped vm owner page) (r.physical_tables 0 == invalid_address)
        (λ none_there. (
          refl,
          tree,
          (λ t k. refl),
          not_mapped r vm.frames vm.root owner tree page ordinary 3 vm.root agrees
              (ground (arith, none_there)),
          λ p h away. refl,
        ))
        (λ there.
          let valid = is_valid (r.physical_tables 0) there in
          if_elim (Unmapped vm owner page) free_physical
            (λ freed.
              Unmapped-leaf
                (record after { physical = mark_pages vm.physical (r.physical_tables 0) 1 free })
                refl valid refl)
            (λ kept. Unmapped-leaf after refl valid refl))

  Unmapped-table :
      (before after : VirtualMemory) (j : ℕ)
      → j < 3
      → r.physical_tables (suc j) ≢ invalid_address
      → all_absent before.frames (r.physical_tables (suc j)) 512 0 ≡ true
      → after.root ≡ before.root
      → after.frames
        ≡ cleared before.frames (r.physical_tables (suc (suc j))) (index_at (suc j) page)
      → Unmapped vm owner page before
      → Unmapped vm owner page after
  Unmapped-table before after j low valid empty root_kept e
        (same_root, tree', addresses, gone, others) =
      let table = r.physical_tables (suc (suc j)) in
      let index = index_at (suc j) page in
      let below = r.physical_tables (suc j) in
      let (owned, to) = Link-at (suc j) (omega (arith, low)) valid in
      let to' : (before.frames table index).physical_address * 4096 ≡ below =
        ap (λ (x : ℕ). x * 4096) (addresses table index) ∙ to in
      let walks = λ (p : ℕ) (h : Ordinary p).
        cleared-walk before.frames vm.root owner tree' table index j (prefix (suc (suc j)) page)
          below owned to'
          (λ k lt.
            all_absent-each before.frames below 512 0 k empty (omega arith) (omega (arith, lt)))
          4 p vm.root (omega arith) h (root_owned p) in
      (
        root_kept ∙ same_root,
        rw e (cleared-IsTree before.frames vm.root owner table index tree'),
        (λ t k. rw e (cleared-address before.frames table index t k ∙ addresses t k)),
        rw e (walks page ordinary ∙ gone),
        λ p h away. rw e (walks p h ∙ others p h away),
      )

  pub table-Unmapped :
      (before : VirtualMemory) (j : ℕ)
      → j < 3
      → Unmapped vm owner page before
      → Unmapped vm owner page (free_table before r page j)
  unfolding free_table clear_present
  table-Unmapped before j low h =
      let table = r.physical_tables (suc j) in
      let after = clear_present before (r.physical_tables (suc (suc j))) (index_at (suc j) page) in
      if_elim (Unmapped vm owner page) (table == invalid_address) (λ none_there. h)
        (λ there.
          if_elim (Unmapped vm owner page) (all_absent before.frames table 512 0)
            (λ empty.
              Unmapped-table before
                (record after { physical = mark_pages before.physical table 1 free }) j low
                (is_valid table there) empty refl refl h)
            (λ full. h))

  pub page-Unmapped :
      (free_physical : Bool) → Unmapped vm owner page (unmap_page vm r page free_physical)
  unfolding unmap_page
  page-Unmapped free_physical =
      let leaf = unmap_leaf vm r page free_physical in
      let first = free_table leaf r page 0 in
      let second = free_table first r page 1 in
      table-Unmapped second 2 (omega arith) (
        table-Unmapped first 1 (omega arith)
          (table-Unmapped leaf 0 (omega arith) (leaf-Unmapped free_physical)))
