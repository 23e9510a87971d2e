-- ===== src/Paging/Leaf.antt =====
-- Writing an entry of a table of level 1 changes the walk of one page and keeps the tree.
use mayv.Prelude.{
  ℕ, zero, suc, ◌+◌, ◌*◌, ◌^◌, ◌≤◌, ◌<◌, ◌≡◌, refl, ap, sym, ◌∙◌, true, false, if◌then◌else◌, arith,
  inl, inr, Bool-cases, ℕ_discrete, ◌≢◌, Option, none, some, ◌⊎◌,
}
use mayv.Paging.Tables.{PageTableEntry, Frames, set_entry, index_at}
use mayv.Paging.Tree.{
  walk_down, walk_stop, walk_same, walk, prefix, Owner, Ordinary, IsTree, child_owner, prefix_step,
}

-- The table of level 1 below a table of level `suc i`.
unfoldable pub descend : Frames → ℕ → ℕ → ℕ → Option ℕ
descend frames page zero table = some table
descend frames page (suc i) table =
    let entry = frames table (index_at (suc i) page) in
    let lower = descend frames page i (entry.physical_address * 4096) in
    if entry.present then lower else none

module _ (frames : Frames) (page i table : ℕ) where
  pub descend_down :
      (frames table (index_at (suc i) page)).present ≡ true
      → descend frames page (suc i) table
        ≡ descend frames page i ((frames table (index_at (suc i) page)).physical_address * 4096)
  unfolding descend
  descend_down h = rw h refl

  pub descend_stop :
      (frames table (index_at (suc i) page)).present ≡ false
      → descend frames page (suc i) table ≡ none
  unfolding descend
  descend_stop h = rw h refl

module _ (frames : Frames) (root : ℕ) (owner : Owner) (tree : IsTree frames root owner)
    (q table index : ℕ) (entry : PageTableEntry) (owned : owner table ≡ some (1, q))
    (in_table : index < 512) (small : entry.physical_address < 2 ^ 40) where
  abbrev written : Frames
  written = set_entry frames table index entry

  written-other : (f k : ℕ) → (f ≢ table) ⊎ (k ≢ index) → written f k ≡ frames f k
  written-other f k other = ground arith

  written_self : written table index ≡ entry
  written_self = ground arith

  upper : (f l p : ℕ) → owner f ≡ some (suc (suc l), p) → f ≢ table
  upper f l p h e = ground (arith, e, h, owned)

  pub written-IsTree : IsTree written root owner
  written-IsTree = record {
    rooted = tree.rooted;
    child = λ f l p k h in_bounds proper is_present.
        let same = written-other f k (inl (upper f l p h)) in
        rw same (
          tree.child f l p k h in_bounds proper
            (ap (λ (e : PageTableEntry). e.present) (sym same) ∙ is_present));
    bounded = λ f k. elim (ℕ_discrete f table) [
      | yes at ↦ elim (ℕ_discrete k index) [
        | yes there ↦ rw (at, there, written_self) small
        | no other ↦ rw (written-other f k (inr other)) (tree.bounded f k)
      ]
      | no other ↦ rw (written-other f k (inl other)) (tree.bounded f k)
    ];
  }

  elsewhere :
      (page t : ℕ)
      → prefix 0 page ≢ q * 512 + index
      → owner t ≡ some (1, prefix 1 page)
      → (t ≢ table) ⊎ (index_at 0 page ≢ index)
  elsewhere page t other h = elim (ℕ_discrete t table) [
    | yes at ↦
        let same_prefix : prefix 1 page ≡ q = ground (arith, at, h, owned) in
        inr (λ there. other (prefix_step 0 page (omega arith) ∙ rw (same_prefix, there) refl))
    | no away ↦ inl away
  ]

  -- The walks of the other pages.
  pub written-walk :
      (level page t : ℕ)
      → level ≤ 4
      → Ordinary page
      → prefix 0 page ≢ q * 512 + index
      → owner t ≡ some (level, prefix level page)
      → walk written page level t ≡ walk frames page level t
  unfolding walk
  written-walk zero page t le ordinary other h = refl
  written-walk (suc zero) page t le ordinary other h =
      walk_same frames written page 0 t
        (written-other t (index_at 0 page) (elsewhere page t other h)) (λ there. refl)
  written-walk (suc (suc i)) page t le ordinary other h =
      walk_same frames written page (suc i) t
        (written-other t (index_at (suc i) page) (inl (upper t i (prefix (suc (suc i)) page) h)))
        (λ there.
          written-walk (suc i) page ((frames t (index_at (suc i) page)).physical_address * 4096)
            (omega (arith, le)) ordinary other
            (child_owner frames root owner t i page tree (omega (arith, le)) ordinary h there))

  -- The walk of the page itself, where the way down to the table is there.
  pub written-walk_self :
      (i page t : ℕ)
      → i < 4
      → Ordinary page
      → index ≡ index_at 0 page
      → owner t ≡ some (suc i, prefix (suc i) page)
      → descend frames page i t ≡ some table
      → walk written page (suc i) t
        ≡ (if entry.present then some (entry.physical_address * 4096) else none)
  unfolding walk descend
  written-walk_self zero page t le ordinary at h down =
      ap (λ (k : ℕ). walk written page 1 k) (at_table down) ∙ at_leaf (Bool-cases entry.present)
    where
      at_table : descend frames page 0 t ≡ some table → t ≡ table
      at_table e = ground (arith, e)

      is_entry : written table (index_at 0 page) ≡ entry
      is_entry = rw (sym at) written_self

      at_leaf :
          (entry.present ≡ true) ⊎ (entry.present ≡ false)
          → walk written page 1 table
            ≡ (if entry.present then some (entry.physical_address * 4096) else none)
      at_leaf (inl there) =
          walk_down written page 0 table (ap (λ (e : PageTableEntry). e.present) is_entry ∙ there)
          ∙ ap (λ (e : PageTableEntry). walk written page 0 (e.physical_address * 4096)) is_entry
          ∙ rw there refl
      at_leaf (inr gone) =
          walk_stop written page 0 table (ap (λ (e : PageTableEntry). e.present) is_entry ∙ gone)
          ∙ rw gone refl
  written-walk_self (suc i) page t le ordinary at h down =
      let same =
        written-other t (index_at (suc i) page) (inl (upper t i (prefix (suc (suc i)) page) h)) in
      elim (Bool-cases (frames t (index_at (suc i) page)).present) [
        | inl there ↦
            walk_down written page (suc i) t (ap (λ (e : PageTableEntry). e.present) same ∙ there)
            ∙ ap (λ (e : PageTableEntry). walk written page (suc i) (e.physical_address * 4096))
                same
            ∙ written-walk_self i page ((frames t (index_at (suc i) page)).physical_address * 4096)
                (omega (arith, le)) ordinary at
                (child_owner frames root owner t i page tree (omega (arith, le)) ordinary h there)
                (sym (descend_down frames page i t there) ∙ down)
        | inr gone ↦ ground (arith, descend_stop frames page i t gone, down)
      ]
