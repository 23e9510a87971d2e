-- ===== src/Paging/CrawlLaws.antt =====
-- What `CrawlResult` finds is what stands in the tables.
use mayv.Prelude.{
  ℕ, zero, suc, ◌*◌, ◌/◌, ◌≤◌, ◌<◌, ◌≡◌, refl, ◌∙◌, true, false, if_elim, arith, inl, inr,
  Bool-cases, ◌≢◌, ◌⊎◌,
}
use mayv.Physical.Request.{invalid_address}
use mayv.Paging.Tree.{Owner, IsTree}
use mayv.Paging.Tables.{
  VirtualMemory, crawl_start, crawl, found, crawl_from, index_at, Frames, CrawlResult,
}
use mayv.Virtual.Space.{is_canonical}
use mayv.Prelude.Memory.{update}

-- The crawl found no table below level `n`.
abbrev pub Invalid : CrawlResult → ℕ → Type 0
Invalid r n = (m : ℕ) → m < n → r.physical_tables m ≡ invalid_address

-- What the crawl found below a table of level `n` is what stands in the tables.
abbrev pub Agrees : CrawlResult → Frames → ℕ → ℕ → ℕ → Type 0
Agrees r frames page zero t = Unit {0}
Agrees r frames page (suc i) t =
    (((frames t (index_at i page)).present ≡ true)
      × (r.physical_tables i ≡ (frames t (index_at i page)).physical_address * 4096)
      × Agrees r frames page i ((frames t (index_at i page)).physical_address * 4096))
    ⊎ (((frames t (index_at i page)).present ≡ false) × Invalid r (suc i))

pub Agrees-of :
    (r r' : CrawlResult) (frames : Frames) (page n t : ℕ)
    → r ≡ r'
    → Agrees r' frames page n t
    → Agrees r frames page n t
Agrees-of r r' frames page n t e h = rw e h

module _ (frames : Frames) (page : ℕ) where
  pub crawl_from_above :
      (n t m : ℕ) (r : CrawlResult)
      → n ≤ m
      → (crawl_from frames page n t r).physical_tables m ≡ r.physical_tables m
  unfolding crawl_from
  crawl_from_above zero t m r le = refl
  crawl_from_above (suc i) t m r le =
      if_elim (λ (x : CrawlResult). x.physical_tables m ≡ r.physical_tables m)
        (frames t (index_at i page)).present
        (λ there.
          crawl_from_above i ((frames t (index_at i page)).physical_address * 4096) m
            (found i (frames t (index_at i page)) r) (omega (arith, le))
          ∙ ground (arith, le))
        (λ gone. refl)

  crawl_down :
      (i t : ℕ) (r : CrawlResult)
      → (frames t (index_at i page)).present ≡ true
      → crawl_from frames page (suc i) t r
        ≡ crawl_from frames page i
            ((frames t (index_at i page)).physical_address * 4096)
            (found i (frames t (index_at i page)) r)
  unfolding crawl_from
  crawl_down i t r h = rw h refl

  crawl_stop :
      (i t : ℕ) (r : CrawlResult)
      → (frames t (index_at i page)).present ≡ false
      → crawl_from frames page (suc i) t r ≡ r
  unfolding crawl_from
  crawl_stop i t r h = rw h refl

  pub crawl_from-Agrees :
      (n t : ℕ) (r : CrawlResult)
      → Invalid r n
      → Agrees (crawl_from frames page n t r) frames page n t
  crawl_from-Agrees zero t r h = tt
  crawl_from-Agrees (suc i) t r h = elim (Bool-cases (frames t (index_at i page)).present) [
    | inl there ↦
        let below = (frames t (index_at i page)).physical_address * 4096 in
        let next = found i (frames t (index_at i page)) r in
        Agrees-of (crawl_from frames page (suc i) t r) (crawl_from frames page i below next) frames
          page (suc i) t (crawl_down i t r there)
          (inl (
            there,
            crawl_from_above i below i next (omega arith) ∙ ground arith,
            crawl_from-Agrees i below next (λ m lt. ground (arith, lt, h m (omega (arith, lt)))),
          ))
    | inr gone ↦
        Agrees-of (crawl_from frames page (suc i) t r) r frames page (suc i) t
          (crawl_stop i t r gone) (inr (gone, h))
  ]

crawl_from_canonical :
    (frames : Frames) (page n t : ℕ) (r : CrawlResult)
    → (crawl_from frames page n t r).canonical ≡ r.canonical
unfolding crawl_from
crawl_from_canonical frames page zero t r = refl
crawl_from_canonical frames page (suc i) t r =
    if_elim (λ (x : CrawlResult). x.canonical ≡ r.canonical) (frames t (index_at i page)).present
      (λ there.
        crawl_from_canonical frames page i ((frames t (index_at i page)).physical_address * 4096)
          (found i (frames t (index_at i page)) r))
      (λ gone. refl)

pub crawl_canonical :
    (vm : VirtualMemory) (addr : ℕ) → (crawl vm addr).canonical ≡ is_canonical addr
unfolding crawl crawl_start
crawl_canonical vm addr = elim (Bool-cases (is_canonical addr)) [
  | inl yes_it_is ↦
      let start = crawl_start vm in
      rw yes_it_is (
        crawl_from_canonical vm.frames (addr / 4096) 4 vm.root (record start {
          canonical = true;
          physical_tables = update start.physical_tables 4 vm.root;
        }))
  | inr not_it ↦ rw not_it refl
]

-- A table that is there is not at the address that stands for none.
pub valid_table :
    (frames : Frames) (root : ℕ) (owner : Owner)
    → IsTree frames root owner
    → (t k : ℕ) → (frames t k).physical_address * 4096 ≢ invalid_address
valid_table frames root owner tree t k e = omega (arith, tree.bounded t k, e)
