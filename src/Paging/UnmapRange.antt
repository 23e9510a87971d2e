-- ===== src/Paging/UnmapRange.antt =====
-- `unmapPages`: the pages of the range do not translate any more, and no other translation changes.
use mayv.Paging.CrawlLaws.{Agrees, crawl_canonical}
use mayv.Prelude.{
  ℕ, zero, suc, ◌+◌, ◌*◌, ◌/◌, ◌%◌, ◌^◌, ◌≤◌, ◌<◌, ◌≡◌, refl, ap, sym, ◌∙◌, Bool, true, false, not,
  ◌||◌, ◌==◌, if_elim, arith, inl, inr, Bool-cases, subst, none,
}
use mayv.Prelude.Words.{add64}
use mayv.Virtual.Space.{is_canonical}
use mayv.Paging.Tables.{VirtualMemory, crawl}
use mayv.Paging.Unmapping.{unmap_page, unmap_loop, unmap_pages}
use mayv.Paging.Tree.{walk, Owner, Ordinary, IsTree}
use mayv.Paging.Sound.{translate}
use mayv.Paging.MapPage.{Apart, crawl-Agrees}
use mayv.Paging.MapRange.{AllOrdinary, plus_zero, shift}
use mayv.Paging.Recursive.{crawl_root}
use mayv.Paging.UnmapLaws.{Unmapped, page-Unmapped}

-- What unmapping a range comes to: a tree in which the first `done` pages do not translate, where
-- `done` is less than `count` only if the page after them has no canonical address.
abbrev pub Removed : VirtualMemory → Owner → ℕ → ℕ → VirtualMemory × Bool → Type 0
Removed vm owner page count (after, ok) =
    (done : ℕ) × (after.root ≡ vm.root)
    × IsTree after.frames vm.root owner
    × (done ≤ count)
    × (ok ≡ (done == count))
    × (done < count → is_canonical ((page + done) * 4096) ≡ false)
    × ((k : ℕ) → k < done → translate after (page + k) ≡ none)
    × ((p : ℕ)
        → Ordinary p
        → ((k : ℕ) → k < done → Apart p (page + k))
        → translate after p ≡ translate vm p)

Removed-step :
    (vm next : VirtualMemory) (owner : Owner) (page n : ℕ)
    → n < 2 ^ 36
    → AllOrdinary page (suc n)
    → next.root ≡ vm.root
    → translate next page ≡ none
    → ((p : ℕ) → Ordinary p → Apart p page → translate next p ≡ translate vm p)
    → (out : VirtualMemory × Bool) → Removed next owner (page + 1) n out
    → Removed vm owner page (suc n) out
Removed-step vm next owner page n small ordinary root first same (after, ok)
      (done, root_kept, tree, le, is_ok, stop, gone, rest) =
    (
      suc done,
      root_kept ∙ root,
      subst (λ (x : ℕ). IsTree after.frames x owner) root tree,
      omega (arith, le),
      ground (arith, is_ok),
      (λ lt. ap (λ (x : ℕ). is_canonical (x * 4096)) (shift page done) ∙ stop (omega (arith, lt))),
      each,
      λ p h away.
          rest p h (λ k lt. λ e.
            away (suc k) (omega (arith, lt)) (e ∙ ap (λ (x : ℕ). x % 2 ^ 36) (sym (shift page k))))
          ∙ same p h (λ e. away 0 (omega arith) (e ∙ ap (λ (x : ℕ). x % 2 ^ 36) (omega arith))),
    )
  where
    each : (k : ℕ) → k < suc done → translate after (page + k) ≡ none
    each zero lt = rw (plus_zero page) (
        rest page (subst Ordinary (plus_zero page) (ordinary 0 (omega arith)))
          (λ k lt e. omega (arith, small, le, lt, e))
        ∙ first)
    each (suc k) lt = ap (translate after) (shift page k) ∙ gone k (omega (arith, lt))

unmap_loop_bad :
    (n : ℕ) (vm : VirtualMemory) (addr : ℕ) (freed : Bool)
    → (crawl vm addr).canonical ≡ false
    → unmap_loop (suc n) vm addr freed ≡ (vm, false)
unfolding unmap_loop
unmap_loop_bad n vm addr freed h = rw h refl

unmap_loop_next :
    (n : ℕ) (vm : VirtualMemory) (page : ℕ) (freed : Bool)
    → page + suc n ≤ 2 ^ 52
    → unmap_loop n vm (add64 (page * 4096) 4096) freed ≡ unmap_loop n vm ((page + 1) * 4096) freed
unfolding unmap_loop
unmap_loop_next zero vm page freed fits = refl
unmap_loop_next (suc n) vm page freed fits =
    ap (λ (x : ℕ). unmap_loop (suc n) vm x freed) (omega (arith, fits))

unmap_loop_page :
    (n : ℕ) (vm : VirtualMemory) (page : ℕ) (freed : Bool)
    → (crawl vm (page * 4096)).canonical ≡ true
    → page + suc n ≤ 2 ^ 52
    → unmap_loop (suc n) vm (page * 4096) freed
      ≡ unmap_loop n (unmap_page vm (crawl vm (page * 4096)) page freed) ((page + 1) * 4096) freed
unfolding unmap_loop crawl
unmap_loop_page n vm page freed h fits =
    let at : page * 4096 / 4096 ≡ page = omega arith in
    rw h (
      ap
        (λ (x : ℕ).
          unmap_loop n (unmap_page vm (crawl vm (page * 4096)) x freed) (add64 (page * 4096) 4096)
            freed)
        at
      ∙ unmap_loop_next n (unmap_page vm (crawl vm (page * 4096)) page freed) page freed fits)

page_removed :
    (vm : VirtualMemory) (owner : Owner) (page : ℕ) (freed : Bool)
    → IsTree vm.frames vm.root owner
    → Ordinary page
    → is_canonical (page * 4096) ≡ true
    → Unmapped vm owner page (unmap_page vm (crawl vm (page * 4096)) page freed)
page_removed vm owner page freed tree ordinary canonical =
    let at : page * 4096 / 4096 ≡ page = omega arith in
    page-Unmapped vm owner tree (crawl vm (page * 4096)) page ordinary
      (subst (λ (x : ℕ). Agrees (crawl vm (page * 4096)) vm.frames x 4 vm.root) at
        (crawl-Agrees vm (page * 4096) canonical))
      (crawl_root vm (page * 4096) canonical) freed

pub unmap_loop-Removed :
    (n : ℕ) (vm : VirtualMemory) (owner : Owner) (page : ℕ) (freed : Bool)
    → IsTree vm.frames vm.root owner
    → n ≤ 2 ^ 36
    → AllOrdinary page n
    → page + n ≤ 2 ^ 52
    → Removed vm owner page n (unmap_loop n vm (page * 4096) freed)
unfolding unmap_loop
unmap_loop-Removed zero vm owner page freed tree le ordinary fits = (
  0,
  refl,
  tree,
  omega arith,
  refl,
  (λ lt. ground (arith, lt)),
  (λ k lt. ground (arith, lt)),
  λ p h away. refl,
)
unmap_loop-Removed (suc n) vm owner page freed tree le ordinary fits =
    elim (Bool-cases (is_canonical (page * 4096))) [
      | inl canonical ↦
          let next = unmap_page vm (crawl vm (page * 4096)) page freed in
          let (root, tree', addresses, gone, others) =
            page_removed vm owner page freed tree
              (subst Ordinary (plus_zero page) (ordinary 0 (omega arith))) canonical in
          rw (unmap_loop_page n vm page freed (crawl_canonical vm (page * 4096) ∙ canonical) fits) (
            Removed-step vm next owner page n (omega (arith, le)) ordinary root
              (ap (walk next.frames page 4) root ∙ gone)
              (λ p h away. ap (walk next.frames p 4) root ∙ others p h away)
              (unmap_loop n next ((page + 1) * 4096) freed)
              (unmap_loop-Removed n next owner (page + 1) freed
                (subst (λ (x : ℕ). IsTree next.frames x owner) (sym root) tree') (omega (arith, le))
                (λ k lt. subst Ordinary (shift page k) (ordinary (suc k) (omega (arith, lt))))
                (omega (arith, fits))))
      | inr bad ↦
          rw (unmap_loop_bad n vm (page * 4096) freed (crawl_canonical vm (page * 4096) ∙ bad)) (
            0,
            refl,
            tree,
            omega arith,
            ground arith,
            (λ lt. ap (λ (x : ℕ). is_canonical (x * 4096)) (plus_zero page) ∙ bad),
            (λ k lt. ground (arith, lt)),
            λ p h away. refl,
          )
    ]

-- In tables that form a tree, `unmapPages` of at least one and at most 2^36 pages that end by 2^64,
-- none of which is reached through the recursive entry, keeps them a tree. It unmaps the pages of the
-- range in order up to the first that has no canonical address, and returns `true` if there is none: no
-- page that it unmapped translates any more, whether or not it did before, and every other page that is
-- not reached through the recursive entry translates as before.
pub unmap_pages-Removed :
    (count : ℕ) (vm : VirtualMemory) (owner : Owner) (page : ℕ) (freed : Bool)
    → IsTree vm.frames vm.root owner
    → 0 < count
    → count ≤ 2 ^ 36
    → AllOrdinary page count
    → page + count ≤ 2 ^ 52
    → Removed vm owner page count (unmap_pages vm (page * 4096) count freed)
unfolding unmap_pages
unmap_pages-Removed count vm owner page freed tree some_page le ordinary fits =
    if_elim (Removed vm owner page count) (count == 0 || not (page * 4096 % 4096 == 0))
      (λ e. ground (arith, e, some_page))
      (λ e. unmap_loop-Removed count vm owner page freed tree le ordinary fits)
