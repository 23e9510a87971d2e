-- ===== src/Paging/MapLaws.antt =====
-- `mapPages`: the pages of the range translate to their physical pages, and no other translation
-- changes.
use mayv.Prelude.{
  ℕ, zero, suc, ◌+◌, ◌*◌, ◌≤◌, ◌<◌, ◌≡◌, refl, ap, sym, ◌∙◌, true, false, arith, inl, inr, ◌≢◌,
  Option, none, some,
}
use mayv.Prelude.Memory.{update}
use mayv.Physical.Request.{invalid_address}
use mayv.Paging.Tables.{PageTableEntry, empty_entry, VirtualMemory, index_at, CrawlResult}
use mayv.Paging.Mapping.{link_table, create_table, make_tables}
use mayv.Paging.Tree.{prefix, Owner, Ordinary, child_owner, prefix_step}
use mayv.Paging.Leaf.{descend, descend_down}
use mayv.Paging.Sound.{
  IsSound, translate, Created, create_table-Created, linked, new_entry, linked-IsSound,
  linked-translate, linked_old, linked_cell, linked_other, linked_points, linked_cleared,
  linked_available,
}
use mayv.Physical.Invariant.{page_used}
use mayv.Paging.CrawlLaws.{Invalid, Agrees, valid_table}

-- What making the tables comes to: sound tables in which the way down to a table of level 1 is there,
-- with the translations as they were, for at most `i` pages; or a panic, for want of pages.
abbrev pub Made :
    VirtualMemory → Owner → CrawlResult → ℕ → ℕ → ℕ → Option (VirtualMemory × ℕ) → Type 0
Made vm owner r page i parent none = vm.physical.available < 256 + i
Made vm owner r page i parent (some (made, leaf)) =
    (made_owner : Owner) × IsSound made made_owner
    × (vm.physical.available ≤ made.physical.available + i)
    × (made.root ≡ vm.root)
    × (descend made.frames page i parent ≡ some leaf)
    × (made_owner leaf ≡ some (1, prefix 1 page))
    × Agrees r made.frames page 1 leaf
    × ((p : ℕ) → Ordinary p → translate made p ≡ translate vm p)
    × ((f l p k : ℕ) → owner f ≡ some (l, p) → suc i < l → made.frames f k ≡ vm.frames f k)

-- One level more, through a table that is there.
Made-kept :
    (vm : VirtualMemory) (owner : Owner) (r : CrawlResult) (page i parent : ℕ)
    (out : Option (VirtualMemory × ℕ))
    → owner parent ≡ some (suc (suc i), prefix (suc (suc i)) page)
    → (vm.frames parent (index_at (suc i) page)).present ≡ true
    → Made vm owner r page i
        ((vm.frames parent (index_at (suc i) page)).physical_address * 4096)
        out
    → Made vm owner r page (suc i) parent out
Made-kept vm owner r page i parent none owned there h = omega (arith, h)
Made-kept vm owner r page i parent (some (made, leaf)) owned there
      (made_owner, sound, cost, same_root, down, leaf_owned, agrees, same, above) =
    let e =
      above parent (suc (suc i)) (prefix (suc (suc i)) page) (index_at (suc i) page) owned
        (omega arith) in
    (
      made_owner,
      sound,
      omega (arith, cost),
      same_root,
      descend_down made.frames page i parent (ap (λ (x : PageTableEntry). x.present) e ∙ there)
          ∙ ap (λ (x : PageTableEntry). descend made.frames page i (x.physical_address * 4096)) e
          ∙ down,
      leaf_owned,
      agrees,
      same,
      λ f l p k h lt. above f l p k h (omega (arith, lt)),
    )

module _ (vm : VirtualMemory) (owner : Owner) (sound : IsSound vm owner) (r : CrawlResult)
    (page i parent start : ℕ) (ordinary : Ordinary page) (low : i < 3)
    (owned : owner parent ≡ some (suc (suc i), prefix (suc (suc i)) page))
    (absent : (vm.frames parent (index_at (suc i) page)).present ≡ false)
    (inside : start < vm.physical.total) (was_free : page_used vm.physical start ≡ false) where
  abbrev pub next : VirtualMemory
  next = linked vm parent (index_at (suc i) page) start

  abbrev pub next_owner : Owner
  next_owner =
      update owner (start * 4096)
        (some (suc i, prefix (suc (suc i)) page * 512 + index_at (suc i) page))

  abbrev NextFacts : Type 0
  NextFacts =
      ((f : ℕ) (x : ℕ × ℕ) → owner f ≡ some x → f ≢ start * 4096)
      × (next.frames parent (index_at (suc i) page)
          ≡ new_entry vm parent (index_at (suc i) page) start)
      × ((f k : ℕ) (x : ℕ × ℕ) → owner f ≡ some x → f ≢ parent → next.frames f k ≡ vm.frames f k)
      × ((new_entry vm parent (index_at (suc i) page) start).physical_address * 4096 ≡ start * 4096)
      × ((p : ℕ) → Ordinary p → translate next p ≡ translate vm p)
      × IsSound next next_owner
      × ((k : ℕ) → next.frames (start * 4096) k ≡ empty_entry)
      × (vm.physical.available ≤ next.physical.available + 1)

  facts : NextFacts
  facts =
      let q = prefix (suc (suc i)) page in
      let index = index_at (suc i) page in
      (
        linked_old vm owner sound i q parent index start owned (omega arith) absent inside was_free,
        linked_cell vm owner sound i q parent index start owned (omega arith) absent inside
            was_free,
        linked_other vm owner sound i q parent index start owned (omega arith) absent inside
            was_free,
        linked_points vm owner sound i q parent index start owned (omega arith) absent inside
            was_free,
        linked-translate vm owner sound i q parent index start owned (omega arith) absent inside
            was_free,
        linked-IsSound vm owner sound i q parent index start owned (omega arith) absent inside
            was_free,
        linked_cleared vm owner sound i q parent index start owned (omega arith) absent inside
            was_free,
        linked_available vm owner sound i q parent index start owned (omega arith) absent inside
            was_free,
      )

  pub next_owned : next_owner (start * 4096) ≡ some (suc i, prefix (suc i) page)
  next_owned = ground (arith, prefix_step (suc i) page (omega (arith, low)))

  pub next-Agrees : Invalid r (suc (suc i)) → Agrees r next.frames page (suc i) (start * 4096)
  next-Agrees nothing = inr (
    ap (λ (x : PageTableEntry). x.present) (facts.6 (index_at i page)),
    λ m lt. nothing m (omega (arith, lt)),
  )

  old_owner : (f : ℕ) (x : ℕ × ℕ) → owner f ≡ some x → next_owner f ≡ some x
  old_owner f x h = ground (arith, h, facts.0 f x h)

  level_apart : (f l p : ℕ) → owner f ≡ some (l, p) → suc (suc i) < l → f ≢ parent
  level_apart f l p h lt e = ground (arith, h, lt, owned, ap owner e)

  -- One level more, through a table that was made.
  pub Made-through :
      (out : Option (VirtualMemory × ℕ))
      → Made next next_owner r page i (start * 4096) out
      → Made vm owner r page (suc i) parent out
  unfolding link_table
  Made-through none h = omega (arith, h, facts.7)
  Made-through (some (made, leaf))
        (made_owner, made_sound, cost, same_root, down, leaf_owned, agrees, same, above) =
      let (old, cell, other, points, kept, next_sound, cleared, taken) = facts in
      let parent_owned : next_owner parent ≡ some (suc (suc i), prefix (suc (suc i)) page) =
        old_owner parent (suc (suc i), prefix (suc (suc i)) page) owned in
      let e =
        above parent (suc (suc i)) (prefix (suc (suc i)) page) (index_at (suc i) page) parent_owned
          (omega arith)
        ∙ cell in
      (
        made_owner,
        made_sound,
        omega (arith, cost, taken),
        same_root,
        descend_down made.frames page i parent (ap (λ (x : PageTableEntry). x.present) e)
            ∙ ap (λ (x : PageTableEntry). descend made.frames page i (x.physical_address * 4096)) e
            ∙ ap (descend made.frames page i) points
            ∙ down,
        leaf_owned,
        agrees,
        (λ p h. same p h ∙ kept p h),
        λ f l p k h lt.
            above f l p k (old_owner f (l, p) h) (omega (arith, lt))
            ∙ other f k (l, p) h (level_apart f l p h lt),
      )

module _ (r : CrawlResult) (page : ℕ) (ordinary : Ordinary page) where
  pub make_tables_there :
      (i parent : ℕ) (vm : VirtualMemory)
      → r.physical_tables (suc i) ≢ invalid_address
      → make_tables r page (suc i) parent vm ≡ make_tables r page i (r.physical_tables (suc i)) vm
  unfolding make_tables
  make_tables_there i parent vm h = ground (arith, h)

  make_tables-none :
      (i parent : ℕ) (vm : VirtualMemory)
      → r.physical_tables (suc i) ≡ invalid_address
      → create_table vm parent (index_at (suc i) page) ≡ none
      → make_tables r page (suc i) parent vm ≡ none
  unfolding make_tables
  make_tables-none i parent vm h e = rw (h, e) refl

  make_tables_made :
      (i parent table : ℕ) (vm next : VirtualMemory)
      → r.physical_tables (suc i) ≡ invalid_address
      → create_table vm parent (index_at (suc i) page) ≡ some (next, table)
      → make_tables r page (suc i) parent vm ≡ make_tables r page i table next
  unfolding make_tables
  make_tables_made i parent table vm next h e = rw (h, e) refl

  -- The level whose table is not there, when the lower levels are as they should be.
  make_tables_absent :
      (i parent : ℕ) (vm : VirtualMemory) (owner : Owner)
      → i < 3
      → IsSound vm owner
      → owner parent ≡ some (suc (suc i), prefix (suc (suc i)) page)
      → (vm.frames parent (index_at (suc i) page)).present ≡ false
      → Invalid r (suc (suc i))
      → ((table : ℕ) (next : VirtualMemory) (next_owner : Owner)
          → IsSound next next_owner
          → next_owner table ≡ some (suc i, prefix (suc i) page)
          → Agrees r next.frames page (suc i) table
          → Made next next_owner r page i table (make_tables r page i table next))
      → (out : Option (VirtualMemory × ℕ)) → create_table vm parent (index_at (suc i) page) ≡ out
      → Created vm parent (index_at (suc i) page) out
      → Made vm owner r page (suc i) parent (make_tables r page (suc i) parent vm)
  make_tables_absent i parent vm owner low sound owned gone nothing lower none e created =
      rw (make_tables-none i parent vm (nothing (suc i) (omega arith)) e) (omega (arith, created))
  make_tables_absent i parent vm owner low sound owned gone nothing lower (some (made, table)) e
        (start, at, inside, was_free, same) =
      let after =
        next vm owner sound r page i parent start ordinary low owned gone inside was_free in
      let after_owner =
        next_owner vm owner sound r page i parent start ordinary low owned gone inside was_free in
      rw (make_tables_made i parent table vm made (nothing (suc i) (omega arith)) e, same, at)
        (Made-through vm owner sound r page i parent start ordinary low owned gone inside was_free
          (make_tables r page i (start * 4096) after)
          (lower (start * 4096) after after_owner
            (linked-IsSound vm owner sound i (prefix (suc (suc i)) page) parent
              (index_at (suc i) page) start owned (omega arith) gone inside was_free)
            (next_owned vm owner sound r page i parent start ordinary low owned gone inside
              was_free)
            (next-Agrees vm owner sound r page i parent start ordinary low owned gone inside
              was_free nothing)))

  pub make_tables-Made :
      (i parent : ℕ) (vm : VirtualMemory) (owner : Owner)
      → i ≤ 3
      → IsSound vm owner
      → owner parent ≡ some (suc i, prefix (suc i) page)
      → Agrees r vm.frames page (suc i) parent
      → Made vm owner r page i parent (make_tables r page i parent vm)
  unfolding make_tables descend
  make_tables-Made zero parent vm owner le sound owned agrees =
      (owner, sound, omega arith, refl, refl, owned, agrees, (λ p h. refl), λ f l p k h lt. refl)
  make_tables-Made (suc i) parent vm owner le sound owned (inl (there, table, agrees)) =
      let below = (vm.frames parent (index_at (suc i) page)).physical_address * 4096 in
      let valid = λ (e : r.physical_tables (suc i) ≡ invalid_address).
        valid_table vm.frames vm.root owner sound.tree parent (index_at (suc i) page)
          (sym table ∙ e) in
      rw (make_tables_there i parent vm valid, table)
        (Made-kept vm owner r page i parent (make_tables r page i below vm) owned there (
          make_tables-Made i below vm owner (omega (arith, le)) sound
            (child_owner vm.frames vm.root owner parent i page sound.tree (omega (arith, le))
              ordinary owned there)
            agrees))
  make_tables-Made (suc i) parent vm owner le sound owned (inr (gone, nothing)) =
      make_tables_absent i parent vm owner (omega (arith, le)) sound owned gone nothing
        (λ table next next_owner next_sound next_owned agrees.
          make_tables-Made i table next next_owner (omega (arith, le)) next_sound next_owned agrees)
        (create_table vm parent (index_at (suc i) page)) refl
        (create_table-Created vm parent (index_at (suc i) page) sound.allocator sound.small)
