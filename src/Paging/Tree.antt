-- ===== src/Paging/Tree.antt =====
-- What the page tables stand for: the walk of the processor, and the invariant that the tables form a
-- tree. An owner function names, for each table, its level and the part of the page number that leads
-- to it. The entry 510 of the root leads back to the root and is left out of the tree.
use mayv.Prelude.{
  ℕ, zero, suc, ◌+◌, ◌*◌, ◌%◌, ◌^◌, ◌<◌, ◌≡◌, refl, ap, sym, ◌∙◌, true, false, if◌then◌else◌, arith,
  inl, inr, Bool-cases, ◌≢◌, Option, none, some,
}
use mayv.Paging.Tables.{PageTableEntry, Frames, shifted, index_at}

-- The walk of the processor from a table of level `level` on: the physical address of the page.
unfoldable pub walk : Frames → ℕ → ℕ → ℕ → Option ℕ
walk frames page zero table = some table
walk frames page (suc i) table =
    let entry = frames table (index_at i page) in
    let lower = walk frames page i (entry.physical_address * 4096) in
    if entry.present then lower else none

-- The part of the page number that leads to a table of the level. Only 36 bits of it are used.
abbrev pub prefix : ℕ → ℕ → ℕ
prefix level page = shifted level (page % 2 ^ 36)

abbrev pub Owner : Type 0
Owner = ℕ → Option (ℕ × ℕ)

-- The page is not reached through the recursive entry.
abbrev pub Ordinary : ℕ → Type 0
Ordinary page = index_at 3 page ≢ 510

pub record IsTree (frames : Frames) (root : ℕ) (owner : Owner) : Type 0 where
  pub rooted : owner root ≡ some (4, 0)
  pub child :
      (f l p k : ℕ)
      → owner f ≡ some (suc (suc l), p)
      → k < 512
      → (l ≡ 2 → k ≢ 510)
      → (frames f k).present ≡ true
      → owner ((frames f k).physical_address * 4096) ≡ some (suc l, p * 512 + k)
  pub bounded : (f k : ℕ) → (frames f k).physical_address < 2 ^ 40

pub prefix_step :
    (level page : ℕ)
    → level < 4
    → prefix level page ≡ prefix (suc level) page * 512 + index_at level page
prefix_step zero page h = omega arith
prefix_step (suc zero) page h = omega arith
prefix_step (suc (suc zero)) page h = omega arith
prefix_step (suc (suc (suc zero))) page h = omega arith
prefix_step (suc (suc (suc (suc level)))) page h = ground arith

pub prefix_root : (page : ℕ) → prefix 4 page ≡ 0
prefix_root page = omega arith

Ordinary-at : (l page : ℕ) → Ordinary page → l ≡ 2 → index_at (suc l) page ≢ 510
Ordinary-at l page h e = rw e h

-- The table below an entry that is present.
pub child_owner :
    (frames : Frames) (root : ℕ) (owner : Owner) (f l page : ℕ)
    → IsTree frames root owner
    → l < 3
    → Ordinary page
    → owner f ≡ some (suc (suc l), prefix (suc (suc l)) page)
    → (frames f (index_at (suc l) page)).present ≡ true
    → owner ((frames f (index_at (suc l) page)).physical_address * 4096)
      ≡ some (suc l, prefix (suc l) page)
child_owner frames root owner f l page tree small ordinary owned is_present =
    rw (prefix_step (suc l) page (omega (arith, small))) (
      tree.child f l (prefix (suc (suc l)) page) (index_at (suc l) page) owned (omega arith)
        (Ordinary-at l page ordinary) is_present)

module _ (frames : Frames) (page i table : ℕ) where
  pub walk_down :
      (frames table (index_at i page)).present ≡ true
      → walk frames page (suc i) table
        ≡ walk frames page i ((frames table (index_at i page)).physical_address * 4096)
  unfolding walk
  walk_down h = rw h refl

  pub walk_stop :
      (frames table (index_at i page)).present ≡ false → walk frames page (suc i) table ≡ none
  unfolding walk
  walk_stop h = rw h refl

-- Where the entry is the same in two sets of tables, the walks agree if they do below it.
pub walk_same :
    (frames frames' : Frames) (page i table : ℕ)
    → frames' table (index_at i page) ≡ frames table (index_at i page)
    → ((frames table (index_at i page)).present ≡ true
        → walk frames' page i ((frames table (index_at i page)).physical_address * 4096)
          ≡ walk frames page i ((frames table (index_at i page)).physical_address * 4096))
    → walk frames' page (suc i) table ≡ walk frames page (suc i) table
walk_same frames frames' page i table same below =
    elim (Bool-cases (frames table (index_at i page)).present) [
      | inl there ↦
          walk_down frames' page i table (ap (λ (e : PageTableEntry). e.present) same ∙ there)
          ∙ ap (λ (e : PageTableEntry). walk frames' page i (e.physical_address * 4096)) same
          ∙ below there
          ∙ sym (walk_down frames page i table there)
      | inr gone ↦
          walk_stop frames' page i table (ap (λ (e : PageTableEntry). e.present) same ∙ gone)
          ∙ sym (walk_stop frames page i table gone)
    ]
