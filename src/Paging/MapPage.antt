-- ===== src/Paging/MapPage.antt =====
-- One round of `mapPages`, for a canonical address.
use mayv.Paging.CrawlLaws.{Agrees, Agrees-of, crawl_from-Agrees, valid_table}
use mayv.Prelude.{
  ℕ, zero, suc, ◌+◌, ◌*◌, ◌/◌, ◌%◌, ◌^◌, ◌≤◌, ◌<◌, ◌≡◌, refl, ap, sym, ◌∙◌, true, false, not, ◌==◌,
  if◌then◌else◌, if_elim, arith, inl, inr, Bool-cases, ◌≢◌, Option, none, some,
}
use mayv.Prelude.Memory.{update}
use mayv.Prelude.Words.{has_flag}
use mayv.Physical.Request.{invalid_address}
use mayv.Virtual.Space.{is_canonical}
use mayv.Paging.Tables.{
  Frames, VirtualMemory, index_at, CrawlResult, crawl_start, crawl_from, crawl,
}
use mayv.Paging.Mapping.{make_tables, set_leaf, map_page}
use mayv.Paging.Tree.{walk, walk_down, walk_stop, prefix, prefix_root, Owner, Ordinary, prefix_step}
use mayv.Paging.Leaf.{
  descend, descend_down, descend_stop, written-IsTree, written-walk, written-walk_self,
}
use mayv.Paging.Sound.{IsSound, translate}
use mayv.Paging.MapLaws.{Made, make_tables-Made}

-- A page that is mapped keeps its physical page.
abbrev pub keep : Option ℕ → ℕ → Option ℕ
keep none target = some target
keep (some old) target = some old

-- Two page numbers that the tables tell apart.
abbrev pub Apart : ℕ → ℕ → Type 0
Apart p page = p % 2 ^ 36 ≢ page % 2 ^ 36

-- What mapping one page comes to.
abbrev pub Paged : VirtualMemory → ℕ → ℕ → Option VirtualMemory → Type 0
Paged vm page target none = vm.physical.available < 256 + 3
Paged vm page target (some after) =
    (owner : Owner) × IsSound after owner
    × (vm.physical.available ≤ after.physical.available + 3)
    × (translate after page ≡ keep (translate vm page) (target * 4096))
    × ((p : ℕ) → Ordinary p → Apart p page → translate after p ≡ translate vm p)

pub crawl-Agrees :
    (vm : VirtualMemory) (addr : ℕ)
    → is_canonical addr ≡ true
    → Agrees (crawl vm addr) vm.frames (addr / 4096) 4 vm.root
unfolding crawl crawl_start
crawl-Agrees vm addr h =
    let start = crawl_start vm in
    let first = record start {
      canonical = true;
      physical_tables = update start.physical_tables 4 vm.root;
    } in
    let e : crawl vm addr ≡ crawl_from vm.frames (addr / 4096) 4 vm.root first = rw h refl in
    Agrees-of (crawl vm addr) (crawl_from vm.frames (addr / 4096) 4 vm.root first) vm.frames
      (addr / 4096) 4 vm.root e
      (crawl_from-Agrees vm.frames (addr / 4096) 4 vm.root first (λ m lt. ground (arith, lt)))

-- The walk goes through the table of level 1.
walk-descend :
    (frames : Frames) (page i t leaf : ℕ)
    → descend frames page i t ≡ some leaf
    → walk frames page (suc i) t ≡ walk frames page 1 leaf
unfolding descend
walk-descend frames page zero t leaf h = ap (walk frames page 1) (ground (arith, h))
walk-descend frames page (suc i) t leaf h =
    elim (Bool-cases (frames t (index_at (suc i) page)).present) [
      | inl there ↦
          walk_down frames page (suc i) t there
          ∙ walk-descend frames page i ((frames t (index_at (suc i) page)).physical_address * 4096)
              leaf (sym (descend_down frames page i t there) ∙ h)
      | inr gone ↦ ground (arith, descend_stop frames page i t gone, h)
    ]

module _ (vm : VirtualMemory) (r : CrawlResult) (page target flags : ℕ) (ordinary : Ordinary page)
    (small : target < 2 ^ 40) (made : VirtualMemory) (owner : Owner) (leaf : ℕ)
    (sound : IsSound made owner) (cost : vm.physical.available ≤ made.physical.available + 3)
    (same_root : made.root ≡ vm.root) (down : descend made.frames page 3 vm.root ≡ some leaf)
    (leaf_owned : owner leaf ≡ some (1, prefix 1 page))
    (same : (p : ℕ) → Ordinary p → translate made p ≡ translate vm p) where
  through : translate made page ≡ walk made.frames page 1 leaf
  through = rw same_root (walk-descend made.frames page 3 vm.root leaf down)

  -- The page is mapped: nothing changes.
  pub Paged-kept :
      (made.frames leaf (index_at 0 page)).present ≡ true → Paged vm page target (some made)
  unfolding walk
  Paged-kept there =
      let e = sym (same page ordinary) ∙ through ∙ walk_down made.frames page 0 leaf there in
      (
        owner,
        sound,
        cost,
        same page ordinary ∙ e ∙ sym (ap (λ (x : Option ℕ). keep x (target * 4096)) e),
        λ p h away. same p h,
      )

  -- The page is not: its entry is written.
  pub Paged-written :
      (made.frames leaf (index_at 0 page)).present ≡ false
      → Paged vm page target (some (set_leaf made leaf (index_at 0 page) target flags))
  unfolding set_leaf
  Paged-written gone =
      let index = index_at 0 page in
      let entry = record (made.frames leaf index) {
        present = true;
        physical_address = target % 2 ^ 40;
        cache_disable = has_flag flags 4;
        writable = has_flag flags 64;
        execute_disable = not (has_flag flags 32);
      } in
      let was : translate vm page ≡ none =
        sym (same page ordinary) ∙ through ∙ walk_stop made.frames page 0 leaf gone in
      (
        owner,
        record {
          tree =
              written-IsTree made.frames made.root owner sound.tree (prefix 1 page) leaf index entry
                leaf_owned (omega arith) (omega arith);
          allocator = sound.allocator;
          small = sound.small;
          held = sound.held;
        },
        cost,
        written-walk_self made.frames made.root owner sound.tree (prefix 1 page) leaf index entry
              leaf_owned (omega arith) (omega arith) 3 page made.root (omega arith) ordinary refl
              (sound.tree.rooted ∙ rw (prefix_root page) refl) (rw same_root down)
            ∙ ap (λ (x : ℕ). some (x * 4096)) (omega (arith, small))
            ∙ sym (ap (λ (x : Option ℕ). keep x (target * 4096)) was),
        λ p h away.
            written-walk made.frames made.root owner sound.tree (prefix 1 page) leaf index entry
              leaf_owned (omega arith) (omega arith) 4 p made.root (omega arith) h
              (λ e. away (e ∙ sym (prefix_step 0 page (omega arith))))
              (sound.tree.rooted ∙ rw (prefix_root p) refl)
            ∙ same p h,
      )

-- The end of the round: the entry is written if the crawl found no page.
abbrev finish : CrawlResult → ℕ → ℕ → ℕ → Option (VirtualMemory × ℕ) → Option VirtualMemory
finish r page target flags out = elim out [
  | none ↦ none
  | some (made, leaf) ↦
      if r.physical_tables 0 == invalid_address
      then some (set_leaf made leaf (index_at 0 page) target flags)
      else some made
]

is_invalid : (table : ℕ) → (table == invalid_address) ≡ true → table ≡ invalid_address
is_invalid table e = ground (arith, e)

finish-Paged :
    (vm : VirtualMemory) (owner : Owner) (r : CrawlResult) (page target flags : ℕ)
    → Ordinary page
    → target < 2 ^ 40
    → (out : Option (VirtualMemory × ℕ)) → Made vm owner r page 3 vm.root out
    → Paged vm page target (finish r page target flags out)
finish-Paged vm owner r page target flags ordinary small none h = h
finish-Paged vm owner r page target flags ordinary small (some (made, leaf))
      (
        made_owner,
        sound,
        cost,
        same_root,
        down,
        leaf_owned,
        inl (there, found_page, rest),
        same,
        above,
      ) =
    if_elim (λ (out : Option VirtualMemory). Paged vm page target out)
      (r.physical_tables 0 == invalid_address)
      (λ e.
        elim (valid_table made.frames made.root made_owner sound.tree leaf (index_at 0 page)
          (sym found_page ∙ is_invalid (r.physical_tables 0) e)) [ ])
      (λ e.
        Paged-kept vm r page target flags ordinary small made made_owner leaf sound cost same_root
          down leaf_owned same there)
finish-Paged vm owner r page target flags ordinary small (some (made, leaf))
      (made_owner, sound, cost, same_root, down, leaf_owned, inr (gone, nothing), same, above) =
    if_elim (λ (out : Option VirtualMemory). Paged vm page target out)
      (r.physical_tables 0 == invalid_address)
      (λ e.
        Paged-written vm r page target flags ordinary small made made_owner leaf sound cost
          same_root down leaf_owned same gone)
      (λ e. ground (arith, e, nothing 0 (omega arith)))

pub map_page-Paged :
    (vm : VirtualMemory) (owner : Owner) (addr target flags : ℕ)
    → IsSound vm owner
    → is_canonical addr ≡ true
    → Ordinary (addr / 4096)
    → target < 2 ^ 40
    → Paged vm (addr / 4096) target (map_page vm (crawl vm addr) (addr / 4096) target flags)
unfolding map_page
map_page-Paged vm owner addr target flags sound canonical ordinary small =
    finish-Paged vm owner (crawl vm addr) (addr / 4096) target flags ordinary small
      (make_tables (crawl vm addr) (addr / 4096) 3 vm.root vm)
      (make_tables-Made (crawl vm addr) (addr / 4096) ordinary 3 vm.root vm owner (omega arith)
        sound (sound.tree.rooted ∙ rw (prefix_root (addr / 4096)) refl)
        (crawl-Agrees vm addr canonical))
