-- ===== src/Paging/Growth.antt =====
-- Linking a new table into the tree changes no walk and keeps the tree.
use mayv.Prelude.{
  ℕ, zero, suc, ◌+◌, ◌*◌, ◌^◌, ◌≤◌, ◌<◌, ◌≡◌, refl, ap, sym, ◌∙◌, true, false, arith, inl, inr,
  Bool-cases, ℕ_discrete, ◌≢◌, none, some, ◌⊎◌,
}
use mayv.Prelude.Memory.{update}
use mayv.Paging.Tables.{PageTableEntry, empty_entry, Frames, set_entry, clear_table, index_at}
use mayv.Paging.Tree.{
  walk_down, walk_stop, walk_same, walk, prefix, Owner, Ordinary, IsTree, child_owner,
}

module _ (frames : Frames) (root : ℕ) (owner : Owner) (tree : IsTree frames root owner)
    (l q parent index table : ℕ) (entry : PageTableEntry)
    (owned : owner parent ≡ some (suc (suc l), q)) (in_table : index < 512)
    (absent : (frames parent index).present ≡ false) (fresh : owner table ≡ none)
    (points : entry.physical_address * 4096 ≡ table) (small : entry.physical_address < 2 ^ 40) where
  abbrev grown : Frames
  grown = clear_table (set_entry frames parent index entry) table

  abbrev pub new_owner : Owner
  new_owner = update owner table (some (suc l, q * 512 + index))

  grown-other : (f k : ℕ) → f ≢ table → (f ≢ parent) ⊎ (k ≢ index) → grown f k ≡ frames f k
  grown-other f k new other = ground arith

  grown-table : (k : ℕ) → grown table k ≡ empty_entry
  grown-table k = ground arith

  not_table : (f : ℕ) (x : ℕ × ℕ) → owner f ≡ some x → f ≢ table
  not_table f x h e = ground (arith, fresh)

  -- A cell is the new entry, in the new table, or as it was.
  abbrev Cell : ℕ → ℕ → Type 0
  Cell f k =
      ((f ≡ parent) × (k ≡ index) × (grown f k ≡ entry))
      ⊎ (((f ≡ table) × (grown f k ≡ empty_entry)) ⊎ ((f ≢ table) × (grown f k ≡ frames f k)))

  parent_old : parent ≢ table
  parent_old = not_table parent (suc (suc l), q) owned

  cell : (f k : ℕ) → Cell f k
  cell f k = elim (ℕ_discrete f table) [
    | yes e ↦ inr (inl (e, ground (arith, e)))
    | no new ↦ elim (ℕ_discrete f parent) [
      | yes e ↦ elim (ℕ_discrete k index) [
        | yes e' ↦ inl (e, e', ground (arith, e, e', new, parent_old))
        | no other ↦ inr (inr (new, grown-other f k new (inr other)))
      ]
      | no other ↦ inr (inr (new, grown-other f k new (inl other)))
    ]
  ]

  grown_child :
      (f m p k : ℕ)
      → Cell f k
      → new_owner f ≡ some (suc (suc m), p)
      → k < 512
      → (m ≡ 2 → k ≢ 510)
      → (grown f k).present ≡ true
      → new_owner ((grown f k).physical_address * 4096) ≡ some (suc m, p * 512 + k)
  grown_child f m p k (inl (at, there, e)) h in_bounds proper is_present =
      rw (e, points) (ground (arith, at, there, h, owned, parent_old))
  grown_child f m p k (inr (inl (at, e))) h in_bounds proper is_present =
      ground (arith, ap (λ (e : PageTableEntry). e.present) (sym e) ∙ is_present)
  grown_child f m p k (inr (inr (new, e))) h in_bounds proper is_present =
      let was : owner f ≡ some (suc (suc m), p) = ground (arith, h, new) in
      let below =
        tree.child f m p k was in_bounds proper
          (ap (λ (e : PageTableEntry). e.present) (sym e) ∙ is_present) in
      rw e (
        ground (
          arith,
          below,
          not_table ((frames f k).physical_address * 4096) (suc m, p * 512 + k) below,
        ))

  grown_bounded : (f k : ℕ) → Cell f k → (grown f k).physical_address < 2 ^ 40
  grown_bounded f k (inl (at, there, e)) = rw e small
  grown_bounded f k (inr (inl (at, e))) = rw e (omega arith)
  grown_bounded f k (inr (inr (new, e))) = rw e (tree.bounded f k)

  pub grown-IsTree : IsTree grown root new_owner
  grown-IsTree = record {
    rooted = ground (arith, tree.rooted, not_table root (4, 0) tree.rooted);
    child = λ f m p k h in_bounds proper is_present.
        grown_child f m p k (cell f k) h in_bounds proper is_present;
    bounded = λ f k. grown_bounded f k (cell f k);
  }

  walk_into : (page i : ℕ) → walk grown page (suc i) table ≡ none
  walk_into page i =
      walk_stop grown page i table
        (ap (λ (e : PageTableEntry). e.present) (grown-table (index_at i page)))

  -- The walk through the new entry fails, as it did before.
  grown-walk_entry :
      (page i t : ℕ)
      → t ≡ parent
      → index_at (suc i) page ≡ index
      → grown t (index_at (suc i) page) ≡ entry
      → walk grown page (suc (suc i)) t ≡ walk frames page (suc (suc i)) t
  grown-walk_entry page i t at there e =
      through (Bool-cases entry.present)
      ∙ sym (walk_stop frames page (suc i) t (rw (at, there) absent))
    where
      is_entry : (grown t (index_at (suc i) page)).present ≡ entry.present
      is_entry = ap (λ (e : PageTableEntry). e.present) e

      through :
          (entry.present ≡ true) ⊎ (entry.present ≡ false) → walk grown page (suc (suc i)) t ≡ none
      through (inl there) =
          walk_down grown page (suc i) t (is_entry ∙ there)
          ∙ ap (λ (e : PageTableEntry). walk grown page (suc i) (e.physical_address * 4096)) e
          ∙ ap (walk grown page (suc i)) points
          ∙ walk_into page i
      through (inr gone) = walk_stop grown page (suc i) t (is_entry ∙ gone)

  pub grown-walk :
      (level page t : ℕ)
      → level ≤ 4
      → Ordinary page
      → owner t ≡ some (level, prefix level page)
      → walk grown page level t ≡ walk frames page level t
  unfolding walk
  grown-walk zero page t le ordinary h = refl
  grown-walk (suc zero) page t le ordinary h =
      walk_same frames grown page 0 t
        (grown-other t (index_at 0 page) (not_table t (1, prefix 1 page) h)
          (inl (λ e. ground (arith, e, h, owned))))
        (λ there. refl)
  grown-walk (suc (suc i)) page t le ordinary h = elim (cell t (index_at (suc i) page)) [
    | inl (at, there, e) ↦ grown-walk_entry page i t at there e
    | inr (inl (at, e)) ↦ absurd (not_table t (suc (suc i), prefix (suc (suc i)) page) h at)
    | inr (inr (new, e)) ↦ walk_same frames grown page (suc i) t e (λ there.
        grown-walk (suc i) page ((frames t (index_at (suc i) page)).physical_address * 4096)
          (omega (arith, le)) ordinary
          (child_owner frames root owner t i page tree (omega (arith, le)) ordinary h there))
  ]
