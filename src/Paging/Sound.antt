-- ===== src/Paging/Sound.antt =====
-- The tables and the physical allocator together: every table is a used page, so a page that the
-- allocator hands out is no table yet.
use mayv.Prelude.{
  ℕ, zero, suc, ◌+◌, ◌*◌, ◌/◌, ◌%◌, ◌^◌, ◌≤◌, ◌<◌, ◌≡◌, refl, ap, sym, ◌∙◌, true, false, not, ◌||◌,
  ◌==◌, if_elim, arith, inl, inr, Option-cases, dec_lt, ℕ_discrete, ◌≢◌, Option, none, some, ◌⊎◌,
}
use mayv.Prelude.Memory.{update}
use mayv.Prelude.Words.{has_flag}
use mayv.Physical.Pages.{Bitmaps, PhysicalMemory, used}
use mayv.Physical.Marking.{mark_pages}
use mayv.Physical.Request.{PageRequestResult, no_pages, request_pages, grant, invalid_address}
use mayv.Physical.Invariant.{page_used, count_used}
use mayv.Physical.Layout.{used_at}
use mayv.Physical.Invariant
use mayv.Physical.MarkPages.{count_used-congruent, mark_pages-IsValid, mark_pages-page_used}
use mayv.Physical.Contiguous.{Served, granted, refused, request_pages-contiguous}
use mayv.Paging.Tables.{PageTableEntry, empty_entry, VirtualMemory}
use mayv.Paging.Mapping.{link_table, use_page, create_table}
use mayv.Paging.Tree.{walk, prefix_root, Owner, Ordinary, IsTree}
use mayv.Paging.Growth.{grown-IsTree, grown-walk}

pub record IsSound (vm : VirtualMemory) (owner : Owner) : Type 0 where
  pub tree : IsTree vm.frames vm.root owner
  pub allocator : Invariant.IsValid vm.physical
  pub small : vm.physical.total ≤ 2 ^ 40
  pub held :
      (f : ℕ) (x : ℕ × ℕ)
      → owner f ≡ some x
      → (f / 4096 < vm.physical.total) × (page_used vm.physical (f / 4096) ≡ true)

-- The translation of a page.
abbrev pub translate : VirtualMemory → ℕ → Option ℕ
translate vm page = walk vm.frames page 4 vm.root

mark_pages-total :
    (s : PhysicalMemory) (address : ℕ) → (mark_pages s address 1 used).total ≡ s.total
unfolding mark_pages
mark_pages-total s address = ground arith

-- No page from 1 MiB on is free.
abbrev Exhausted : PhysicalMemory → Type 0
Exhausted s = (page : ℕ) → 256 ≤ page → page < s.total → page_used s page ≡ true

-- At most the 256 pages below 1 MiB are not counted.
count_used_high :
    (total : ℕ) (bits : Bitmaps) (n : ℕ)
    → ((page : ℕ) → 256 ≤ page → page < n → used_at total bits 0 page ≡ true)
    → n ≤ count_used total bits n + 256
unfolding count_used
count_used_high total bits zero h = omega arith
count_used_high total bits (suc n) h = elim (dec_lt n 256) [
  | yes low ↦ omega (arith, low)
  | no high ↦
      let is_used : used_at total bits 0 n ≡ true = h n (omega (arith, high)) (omega arith) in
      rw is_used (
        omega (
          arith,
          count_used_high total bits n (λ page from below. h page from (omega (arith, below))),
        ))
]

Exhausted-available : (s : PhysicalMemory) → Invariant.IsValid s → Exhausted s → s.available ≤ 256
Exhausted-available s v h = omega (arith, v.counted, count_used_high s.total s.bits s.total h)

-- One more page used lowers the count of the others by at most one.
count_used_one :
    (total : ℕ) (bits other : Bitmaps) (start n : ℕ)
    → ((c : ℕ) → c < n → c ≢ start → used_at total other 0 c ≡ used_at total bits 0 c)
    → count_used total other n ≤ count_used total bits n + 1
unfolding count_used
count_used_one total bits other start zero same = omega arith
count_used_one total bits other start (suc n) same = elim (ℕ_discrete n start) [
  | yes at ↦
      let below : count_used total other n ≡ count_used total bits n =
        count_used-congruent total other bits n
          (λ c h. same c (omega (arith, h)) (omega (arith, h, at))) in
      ground (arith, below)
  | no away ↦
      let bit : used_at total other 0 n ≡ used_at total bits 0 n = same n (omega arith) away in
      rw bit (
        ground (
          arith,
          count_used_one total bits other start n (λ c h apart. same c (omega (arith, h)) apart),
        ))
]

-- A table that was created is a page that was free; if none was, at most 256 pages are available.
abbrev pub Created : VirtualMemory → ℕ → ℕ → Option (VirtualMemory × ℕ) → Type 0
Created vm parent index none = vm.physical.available ≤ 256
Created vm parent index (some (linked, table)) =
    (start : ℕ) × (table ≡ start * 4096)
    × (start < vm.physical.total)
    × (page_used vm.physical start ≡ false)
    × (linked
        ≡ link_table (record vm { physical = mark_pages vm.physical (start * 4096) 1 used }) parent
            index table)

omega_eq : (page c : ℕ) → page ≤ c → c < page + 1 → page ≡ c
omega_eq page c from before = omega arith

use_page-Created :
    (vm : VirtualMemory) (parent index : ℕ) (out : PhysicalMemory × PageRequestResult)
    → Invariant.IsValid vm.physical
    → vm.physical.total ≤ 2 ^ 40
    → Served vm.physical 1 out
    → Created vm parent index (use_page vm parent index out)
unfolding use_page grant
use_page-Created vm parent index out v small (granted start low fits free) =
    if_elim (Created vm parent index) (start * 4096 == invalid_address || not (1 == 1))
      (λ e. ground (arith, e, fits, small))
      (λ e. (start, refl, omega (arith, fits), free start (omega arith) (omega arith), refl))
use_page-Created vm parent index out v small (refused none_free) =
    Exhausted-available vm.physical v λ page low below.
      let (c, from, before, is_used) = none_free page low (omega (arith, below)) in
      rw (omega_eq page c from before) is_used

use_page-no_pages :
    (vm : VirtualMemory) (parent index : ℕ)
    → use_page vm parent index (vm.physical, no_pages) ≡ none
unfolding use_page
use_page-no_pages vm parent index = refl

no_room : (s : PhysicalMemory) → s.available < 1 → request_pages s 1 8 ≡ (s, no_pages)
unfolding request_pages
no_room s h = ground arith

contiguous_flag : has_flag 8 8 ≡ true
unfolding has_flag
contiguous_flag = refl

pub create_table-Created :
    (vm : VirtualMemory) (parent index : ℕ)
    → Invariant.IsValid vm.physical
    → vm.physical.total ≤ 2 ^ 40
    → Created vm parent index (create_table vm parent index)
unfolding create_table
create_table-Created vm parent index v small = elim (dec_lt vm.physical.available 1) [
  | yes h ↦ rw (no_room vm.physical h, use_page-no_pages vm parent index) (omega (arith, h))
  | no h ↦
      use_page-Created vm parent index (request_pages vm.physical 1 8) v small
        (request_pages-contiguous vm.physical 1 8 (omega arith) (omega arith) contiguous_flag)
]

abbrev pub linked : VirtualMemory → ℕ → ℕ → ℕ → VirtualMemory
linked vm parent index start =
    link_table (record vm { physical = mark_pages vm.physical (start * 4096) 1 used }) parent index
      (start * 4096)

abbrev pub new_entry : VirtualMemory → ℕ → ℕ → ℕ → PageTableEntry
new_entry vm parent index start = record (vm.frames parent index) {
  present = true;
  writable = true;
  physical_address = start * 4096 / 4096 % 2 ^ 40;
}

-- A new table keeps the tables sound, and changes no translation.
module _ (vm : VirtualMemory) (owner : Owner) (sound : IsSound vm owner)
    (l q parent index start : ℕ) (owned : owner parent ≡ some (suc (suc l), q))
    (in_table : index < 512) (absent : (vm.frames parent index).present ≡ false)
    (inside : start < vm.physical.total) (was_free : page_used vm.physical start ≡ false) where
  page_of : start * 4096 / 4096 ≡ start
  page_of = omega arith

  fresh : owner (start * 4096) ≡ none
  fresh = elim (Option-cases (owner (start * 4096))) [
    | inl e ↦ e
    | inr (x, e) ↦
        ground
          (arith, (sound.held (start * 4096) x e).1, was_free, ap (page_used vm.physical) page_of)
  ]

  points : start * 4096 / 4096 % 2 ^ 40 * 4096 ≡ start * 4096
  points = omega (arith, sound.small)

  marked :
      (page : ℕ)
      → page < vm.physical.total
      → (page ≡ start) ⊎ (page_used vm.physical page ≡ true)
      → page_used (mark_pages vm.physical (start * 4096) 1 used) page ≡ true
  marked page below h =
      mark_pages-page_used vm.physical (start * 4096) 1 used page sound.allocator
        (omega (arith, inside)) below
      ∙ ground (arith, h, page_of)

  still_held :
      (f : ℕ) (x : ℕ × ℕ)
      → update owner (start * 4096) (some (suc l, q * 512 + index)) f ≡ some x
      → (f / 4096 < (mark_pages vm.physical (start * 4096) 1 used).total)
        × (page_used (mark_pages vm.physical (start * 4096) 1 used) (f / 4096) ≡ true)
  still_held f x h = elim (ℕ_discrete f (start * 4096)) [
    | yes at ↦
        let page : f / 4096 ≡ start = omega (arith, at) in
        (
          rw (mark_pages-total vm.physical (start * 4096)) (omega (arith, page, inside)),
          marked (f / 4096) (omega (arith, page, inside)) (inl page),
        )
    | no away ↦
        let (below, was_used) = sound.held f x (ground (arith, h, away)) in
        (
          rw (mark_pages-total vm.physical (start * 4096)) below,
          marked (f / 4096) below (inr was_used),
        )
  ]

  pub linked-IsSound :
      IsSound
        (linked vm parent index start)
        (update owner (start * 4096) (some (suc l, q * 512 + index)))
  unfolding link_table
  linked-IsSound = record {
    tree =
        grown-IsTree vm.frames vm.root owner sound.tree l q parent index (start * 4096)
          (new_entry vm parent index start) owned in_table absent fresh points (omega arith);
    allocator = mark_pages-IsValid vm.physical (start * 4096) 1 used sound.allocator (omega arith);
    small = rw (mark_pages-total vm.physical (start * 4096)) sound.small;
    held = still_held;
  }

  -- A new table takes one page at most.
  pub linked_available :
      vm.physical.available ≤ (linked vm parent index start).physical.available + 1
  unfolding link_table
  linked_available =
      let after = mark_pages vm.physical (start * 4096) 1 used in
      let kept : after.total ≡ vm.physical.total = mark_pages-total vm.physical (start * 4096) in
      let after_valid =
        mark_pages-IsValid vm.physical (start * 4096) 1 used sound.allocator (omega arith) in
      let more : count_used after.total after.bits after.total
          ≤ count_used vm.physical.total vm.physical.bits vm.physical.total + 1 =
        rw kept (
          count_used_one vm.physical.total vm.physical.bits after.bits start vm.physical.total
            others) in
      omega (arith, more, kept, after_valid.counted, sound.allocator.counted)
    where
      others :
          (c : ℕ)
          → c < vm.physical.total
          → c ≢ start
          → used_at vm.physical.total (mark_pages vm.physical (start * 4096) 1 used).bits 0 c
            ≡ used_at vm.physical.total vm.physical.bits 0 c
      others c below away =
          let after = mark_pages vm.physical (start * 4096) 1 used in
          ap (λ (x : ℕ). used_at x after.bits 0 c)
            (sym (mark_pages-total vm.physical (start * 4096)))
          ∙ mark_pages-page_used vm.physical (start * 4096) 1 used c sound.allocator
              (omega (arith, inside)) below
          ∙ ground (arith, away, page_of)

  pub linked-translate :
      (page : ℕ) → Ordinary page → translate (linked vm parent index start) page ≡ translate vm page
  unfolding link_table
  linked-translate page ordinary =
      grown-walk vm.frames vm.root owner sound.tree l q parent index (start * 4096)
        (new_entry vm parent index start) owned in_table absent fresh points (omega arith) 4 page
        vm.root (omega arith) ordinary (sound.tree.rooted ∙ rw (prefix_root page) refl)

  pub linked_old : (f : ℕ) (x : ℕ × ℕ) → owner f ≡ some x → f ≢ start * 4096
  linked_old f x h e = ground (arith, h, fresh, ap owner e)

  pub linked_cell :
      (linked vm parent index start).frames parent index ≡ new_entry vm parent index start
  unfolding link_table
  linked_cell = ground (arith, linked_old parent (suc (suc l), q) owned)

  pub linked_cleared :
      (k : ℕ) → (linked vm parent index start).frames (start * 4096) k ≡ empty_entry
  unfolding link_table
  linked_cleared k = ground arith

  pub linked_other :
      (f k : ℕ) (x : ℕ × ℕ)
      → owner f ≡ some x
      → f ≢ parent
      → (linked vm parent index start).frames f k ≡ vm.frames f k
  unfolding link_table
  linked_other f k x h away = ground (arith, linked_old f x h)

  pub linked_points : (new_entry vm parent index start).physical_address * 4096 ≡ start * 4096
  linked_points = points
