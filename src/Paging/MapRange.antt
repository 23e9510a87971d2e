-- ===== src/Paging/MapRange.antt =====
-- `mapPages`: the pages of the range translate to their physical pages, and no other translation
-- changes.
use mayv.Paging.CrawlLaws.{crawl_canonical}
use mayv.Prelude.{
  ℕ, zero, suc, ◌+◌, ◌*◌, ◌/◌, ◌%◌, ◌^◌, ◌≤◌, ◌<◌, ◌≡◌, refl, ap, sym, ◌∙◌, Bool, true, false, not,
  ◌||◌, ◌==◌, ap₂, if_elim, arith, inl, inr, Bool-cases, subst, Option, none, some,
}
use mayv.Prelude.Words.{add64}
use mayv.Virtual.Space.{is_canonical}
use mayv.Paging.Tables.{VirtualMemory, crawl, index_at}
use mayv.Paging.Mapping.{map_page, map_loop, map_pages}
use mayv.Paging.Tree.{Owner, Ordinary}
use mayv.Paging.Sound.{IsSound, translate}
use mayv.Paging.MapPage.{keep, Apart, Paged, map_page-Paged}

-- What mapping a range comes to: a panic for want of pages, or sound tables in which the first `done`
-- pages are mapped for at most three tables each, where `done` is less than `count` only if the page
-- after them has no canonical address.
abbrev pub Mapped : VirtualMemory → ℕ → ℕ → ℕ → Option (VirtualMemory × Bool) → Type 0
Mapped vm page target count none = vm.physical.available < 256 + 3 * count
Mapped vm page target count (some (after, ok)) =
    (owner : Owner) × (done : ℕ) × IsSound after owner
    × (vm.physical.available ≤ after.physical.available + 3 * done)
    × (done ≤ count)
    × (ok ≡ (done == count))
    × (done < count → is_canonical ((page + done) * 4096) ≡ false)
    × ((k : ℕ)
        → k < done
        → translate after (page + k) ≡ keep (translate vm (page + k)) ((target + k) * 4096))
    × ((p : ℕ)
        → Ordinary p
        → ((k : ℕ) → k < done → Apart p (page + k))
        → translate after p ≡ translate vm p)

-- All pages of the range are reached through the tree.
abbrev pub AllOrdinary : ℕ → ℕ → Type 0
AllOrdinary page count = (k : ℕ) → k < count → Ordinary (page + k)

pub shift : (page k : ℕ) → page + suc k ≡ page + 1 + k
shift page k = omega arith

pub plus_zero : (page : ℕ) → page + 0 ≡ page
plus_zero page = omega arith

Ordinary-first : (page : ℕ) → Ordinary (page + 0) → Ordinary page
Ordinary-first page h e = h (ap (index_at 3) (plus_zero page) ∙ e)

Mapped-stop :
    (vm : VirtualMemory) (owner : Owner) (page target n : ℕ)
    → IsSound vm owner
    → is_canonical (page * 4096) ≡ false
    → Mapped vm page target (suc n) (some (vm, false))
Mapped-stop vm owner page target n sound bad = (
  owner,
  0,
  sound,
  omega arith,
  omega arith,
  ground arith,
  (λ lt. ap (λ (x : ℕ). is_canonical (x * 4096)) (omega arith) ∙ bad),
  (λ k lt. ground (arith, lt)),
  λ p h away. refl,
)

-- One page more in front.
Mapped-step :
    (vm next : VirtualMemory) (page target n : ℕ)
    → n < 2 ^ 36
    → AllOrdinary page (suc n)
    → vm.physical.available ≤ next.physical.available + 3
    → translate next page ≡ keep (translate vm page) (target * 4096)
    → ((p : ℕ) → Ordinary p → Apart p page → translate next p ≡ translate vm p)
    → (out : Option (VirtualMemory × Bool)) → Mapped next (page + 1) (target + 1) n out
    → Mapped vm page target (suc n) out
Mapped-step vm next page target n small ordinary cost first same none h = omega (arith, h, cost)
Mapped-step vm next page target n small ordinary cost first same (some (after, ok))
      (owner, done, sound, total_cost, le, is_ok, stop, mapped, rest) =
    (
      owner,
      suc done,
      sound,
      omega (arith, cost, total_cost),
      omega (arith, le),
      ground (arith, is_ok),
      (λ lt. ap (λ (x : ℕ). is_canonical (x * 4096)) (shift page done) ∙ stop (omega (arith, lt))),
      each,
      λ p h away.
          rest p h (λ k lt. λ e.
            away (suc k) (omega (arith, lt)) (e ∙ ap (λ (x : ℕ). x % 2 ^ 36) (sym (shift page k))))
          ∙ same p h (λ e. away 0 (omega arith) (e ∙ ap (λ (x : ℕ). x % 2 ^ 36) (omega arith))),
    )
  where
    each :
        (k : ℕ)
        → k < suc done
        → translate after (page + k) ≡ keep (translate vm (page + k)) ((target + k) * 4096)
    each zero lt =
        rw (plus_zero page, plus_zero target)
          (rest page (Ordinary-first page (ordinary 0 (omega arith)))
              (λ k lt e. omega (arith, small, le, lt, e))
            ∙ first)
    each (suc k) lt =
        ap (translate after) (shift page k)
        ∙ mapped k (omega (arith, lt))
        ∙ ap (λ (x : Option ℕ). keep x ((target + 1 + k) * 4096))
            (same (page + 1 + k)
              (subst Ordinary (shift page k) (ordinary (suc k) (omega (arith, lt, le))))
              (λ e. omega (arith, small, le, lt, e)))
        ∙ ap₂ (λ (x y : ℕ). keep (translate vm x) (y * 4096)) (sym (shift page k))
            (sym (shift target k))

map_loop_bad :
    (n : ℕ) (vm : VirtualMemory) (vir phy flags : ℕ)
    → (crawl vm vir).canonical ≡ false
    → map_loop (suc n) vm vir phy flags ≡ some (vm, false)
unfolding map_loop
map_loop_bad n vm vir phy flags h = rw h refl

map_loop-none :
    (n : ℕ) (vm : VirtualMemory) (vir phy flags : ℕ)
    → (crawl vm vir).canonical ≡ true
    → map_page vm (crawl vm vir) (vir / 4096) (phy / 4096) flags ≡ none
    → map_loop (suc n) vm vir phy flags ≡ none
unfolding map_loop
map_loop-none n vm vir phy flags h e = rw (e, h) refl

map_loop-some :
    (n : ℕ) (vm next : VirtualMemory) (vir phy flags : ℕ)
    → (crawl vm vir).canonical ≡ true
    → map_page vm (crawl vm vir) (vir / 4096) (phy / 4096) flags ≡ some next
    → map_loop (suc n) vm vir phy flags ≡ map_loop n next (add64 vir 4096) (add64 phy 4096) flags
unfolding map_loop
map_loop-some n vm next vir phy flags h e = rw (e, h) refl

-- The next addresses: neither wraps around while a page is left.
map_loop_next :
    (n : ℕ) (vm : VirtualMemory) (page target flags : ℕ)
    → page + suc n ≤ 2 ^ 52
    → target + suc n ≤ 2 ^ 40
    → map_loop n vm (add64 (page * 4096) 4096) (add64 (target * 4096) 4096) flags
      ≡ map_loop n vm ((page + 1) * 4096) ((target + 1) * 4096) flags
unfolding map_loop
map_loop_next zero vm page target flags vir_fits phy_fits = refl
map_loop_next (suc n) vm page target flags vir_fits phy_fits =
    let vir : add64 (page * 4096) 4096 ≡ (page + 1) * 4096 = omega (arith, vir_fits) in
    let phy : add64 (target * 4096) 4096 ≡ (target + 1) * 4096 = omega (arith, phy_fits) in
    ap (λ (x : ℕ). map_loop (suc n) vm x (add64 (target * 4096) 4096) flags) vir
    ∙ ap (λ (x : ℕ). map_loop (suc n) vm ((page + 1) * 4096) x flags) phy

map_page_at :
    (vm : VirtualMemory) (owner : Owner) (page target flags : ℕ)
    → IsSound vm owner
    → is_canonical (page * 4096) ≡ true
    → Ordinary page
    → target < 2 ^ 40
    → Paged vm page target
        (map_page vm (crawl vm (page * 4096)) (page * 4096 / 4096) (target * 4096 / 4096) flags)
map_page_at vm owner page target flags sound canonical ordinary small =
    let at : page * 4096 / 4096 ≡ page = omega arith in
    let to : target * 4096 / 4096 ≡ target = omega arith in
    let ready =
      map_page-Paged vm owner (page * 4096) target flags sound canonical (rw at ordinary) small in
    rw to (
      subst
        (λ (x : ℕ).
          Paged vm x target
            (map_page vm (crawl vm (page * 4096)) (page * 4096 / 4096) target flags))
        at ready)

map_loop_round :
    (n : ℕ) (vm : VirtualMemory) (page target flags : ℕ)
    → n < 2 ^ 36
    → AllOrdinary page (suc n)
    → page + suc n ≤ 2 ^ 52
    → target + suc n ≤ 2 ^ 40
    → (crawl vm (page * 4096)).canonical ≡ true
    → ((next : VirtualMemory) (owner : Owner)
        → IsSound next owner
        → Mapped next
            (page + 1)
            (target + 1)
            n
            (map_loop n next ((page + 1) * 4096) ((target + 1) * 4096) flags))
    → (out : Option VirtualMemory)
    → map_page vm (crawl vm (page * 4096)) (page * 4096 / 4096) (target * 4096 / 4096) flags ≡ out
    → Paged vm page target out
    → Mapped vm page target (suc n) (map_loop (suc n) vm (page * 4096) (target * 4096) flags)
map_loop_round n vm page target flags le ordinary vir_fits phy_fits canonical lower none e h =
    rw (map_loop-none n vm (page * 4096) (target * 4096) flags canonical e) (omega (arith, h))
map_loop_round n vm page target flags le ordinary vir_fits phy_fits canonical lower (some next) e
      (owner, sound, cost, first, same) =
    rw
      (
        map_loop-some n vm next (page * 4096) (target * 4096) flags canonical e,
        map_loop_next n next page target flags vir_fits phy_fits,
      )
      (Mapped-step vm next page target n le ordinary cost first same
        (map_loop n next ((page + 1) * 4096) ((target + 1) * 4096) flags) (lower next owner sound))

pub map_loop-Mapped :
    (n : ℕ) (vm : VirtualMemory) (owner : Owner) (page target flags : ℕ)
    → IsSound vm owner
    → n ≤ 2 ^ 36
    → AllOrdinary page n
    → page + n ≤ 2 ^ 52
    → target + n ≤ 2 ^ 40
    → Mapped vm page target n (map_loop n vm (page * 4096) (target * 4096) flags)
unfolding map_loop
map_loop-Mapped zero vm owner page target flags sound le ordinary vir_fits phy_fits = (
  owner,
  0,
  sound,
  omega arith,
  omega arith,
  refl,
  (λ lt. ground (arith, lt)),
  (λ k lt. ground (arith, lt)),
  λ p h away. refl,
)
map_loop-Mapped (suc n) vm owner page target flags sound le ordinary vir_fits phy_fits =
    elim (Bool-cases (is_canonical (page * 4096))) [
      | inl canonical ↦
          map_loop_round n vm page target flags (omega (arith, le)) ordinary vir_fits phy_fits
            (crawl_canonical vm (page * 4096) ∙ canonical)
            (λ next next_owner next_sound.
              map_loop-Mapped n next next_owner (page + 1) (target + 1) flags next_sound
                (omega (arith, le))
                (λ k lt. rw (sym (shift page k)) (ordinary (suc k) (omega (arith, lt))))
                (omega (arith, vir_fits)) (omega (arith, phy_fits)))
            (map_page vm (crawl vm (page * 4096)) (page * 4096 / 4096) (target * 4096 / 4096) flags)
            refl
            (map_page_at vm owner page target flags sound canonical
              (Ordinary-first page (ordinary 0 (omega arith))) (omega (arith, phy_fits)))
      | inr bad ↦
          rw
            (map_loop_bad n vm (page * 4096) (target * 4096) flags
              (crawl_canonical vm (page * 4096) ∙ bad))
            (Mapped-stop vm owner page target n sound bad)
    ]

-- In sound tables, `mapPages` of at least one and at most 2^36 pages that end by 2^64, none of which is
-- reached through the recursive entry, to as many physical pages that end by 2^52, keeps the tables
-- sound. It panics only if fewer than 256 pages and three for each page of the range are available
-- before the call. If it does not panic, it maps the pages of the range in order up to the first that has no canonical
-- address, taking at most three pages for each, and returns `true` if there is none: each page it mapped translates to its physical page, or as before if it was mapped already, and
-- every other page that is not reached through the recursive entry translates as before.
pub map_pages-Mapped :
    (count : ℕ) (vm : VirtualMemory) (owner : Owner) (page target flags : ℕ)
    → IsSound vm owner
    → 0 < count
    → count ≤ 2 ^ 36
    → AllOrdinary page count
    → page + count ≤ 2 ^ 52
    → target + count ≤ 2 ^ 40
    → Mapped vm page target count (map_pages vm (page * 4096) (target * 4096) count flags)
unfolding map_pages
map_pages-Mapped count vm owner page target flags sound some_page le ordinary vir_fits phy_fits =
    if_elim (Mapped vm page target count)
      (count == 0 || not (target * 4096 % 4096 == 0) || not (page * 4096 % 4096 == 0))
      (λ e. ground (arith, e, some_page))
      (λ e. map_loop-Mapped count vm owner page target flags sound le ordinary vir_fits phy_fits)
