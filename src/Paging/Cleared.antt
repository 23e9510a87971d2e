-- ===== src/Paging/Cleared.antt =====
-- Taking out an entry: the tables stay a tree, and where the table below is empty no walk changes.
use mayv.Prelude.{
  ℕ, zero, suc, ◌+◌, ◌*◌, ◌≤◌, ◌<◌, ◌≡◌, refl, ap, sym, ◌∙◌, true, false, arith, inl, inr,
  Bool-cases, ℕ_discrete, ◌≢◌, none, some, ◌⊎◌,
}
use mayv.Paging.Tables.{PageTableEntry, Frames, set_entry, index_at}
use mayv.Paging.Unmapping.{all_absent}
use mayv.Paging.Tree.{
  walk, walk_down, walk_stop, walk_same, prefix, Owner, Ordinary, IsTree, child_owner,
}

-- The entry without its present bit.
abbrev pub absent_entry : PageTableEntry → PageTableEntry
absent_entry entry = record entry { present = false }

abbrev pub cleared : Frames → ℕ → ℕ → Frames
cleared frames table index = set_entry frames table index (absent_entry (frames table index))

pub all_absent-each :
    (frames : Frames) (table n k m : ℕ)
    → all_absent frames table n k ≡ true
    → k ≤ m
    → m < k + n
    → (frames table m).present ≡ false
unfolding all_absent
all_absent-each frames table zero k m h from to = ground (arith, from, to)
all_absent-each frames table (suc n) k m h from to = elim (Bool-cases (frames table k).present) [
  | inl there ↦ ground (arith, there, h)
  | inr gone ↦ elim (ℕ_discrete m k) [
    | yes at ↦ rw at gone
    | no later ↦
        all_absent-each frames table n (k + 1) m (ground (arith, gone, h))
          (omega (arith, from, later)) (omega (arith, to))
  ]
]

pub cleared-address :
    (frames : Frames) (table index t k : ℕ)
    → (cleared frames table index t k).physical_address ≡ (frames t k).physical_address
cleared-address frames table index t k = ground arith

cleared-present :
    (frames : Frames) (table index t k : ℕ)
    → (cleared frames table index t k).present ≡ true
    → (frames t k).present ≡ true
cleared-present frames table index t k h = ground (arith, h)

cleared-other :
    (frames : Frames) (table index t k : ℕ)
    → (t ≢ table) ⊎ (k ≢ index)
    → cleared frames table index t k ≡ frames t k
cleared-other frames table index t k other = ground arith

cleared_self :
    (frames : Frames) (table index : ℕ) → (cleared frames table index table index).present ≡ false
cleared_self frames table index = ground arith

pub cleared-IsTree :
    (frames : Frames) (root : ℕ) (owner : Owner) (table index : ℕ)
    → IsTree frames root owner
    → IsTree (cleared frames table index) root owner
cleared-IsTree frames root owner table index tree = record {
  rooted = tree.rooted;
  child = λ f l p k h below proper there.
      rw (cleared-address frames table index f k)
        (tree.child f l p k h below proper (cleared-present frames table index f k there));
  bounded = λ f k. rw (cleared-address frames table index f k) (tree.bounded f k);
}

-- An entry of an upper table whose table below is empty: every walk is as before.
module _ (frames : Frames) (root : ℕ) (owner : Owner) (tree : IsTree frames root owner)
    (table index l q below : ℕ) (owned : owner table ≡ some (suc (suc l), q))
    (to_below : (frames table index).physical_address * 4096 ≡ below)
    (empty : (k : ℕ) → k < 512 → (frames below k).present ≡ false) where
  dead_end : (page i : ℕ) → walk frames page (suc i) below ≡ none
  dead_end page i = walk_stop frames page i below (empty (index_at i page) (omega arith))

  -- The walk through the entry itself ended in the empty table.
  at_entry :
      (page i : ℕ)
      → index_at (suc i) page ≡ index
      → walk (cleared frames table index) page (suc (suc i)) table
        ≡ walk frames page (suc (suc i)) table
  at_entry page i at = elim (Bool-cases (frames table (index_at (suc i) page)).present) [
    | inl there ↦
        gone
        ∙ sym (
            walk_down frames page (suc i) table there
            ∙ ap (walk frames page (suc i)) (rw at to_below)
            ∙ dead_end page i)
    | inr was_gone ↦ gone ∙ sym (walk_stop frames page (suc i) table was_gone)
  ]
    where
      gone : walk (cleared frames table index) page (suc (suc i)) table ≡ none
      gone =
          walk_stop (cleared frames table index) page (suc i) table
            (rw at (cleared_self frames table index))

  lower : (t p : ℕ) → owner t ≡ some (1, p) → t ≢ table
  lower t p h e = ground (arith, h, owned, ap owner e)

  pub cleared-walk :
      (level page t : ℕ)
      → level ≤ 4
      → Ordinary page
      → owner t ≡ some (level, prefix level page)
      → walk (cleared frames table index) page level t ≡ walk frames page level t
  unfolding walk
  cleared-walk zero page t le ordinary h = refl
  cleared-walk (suc zero) page t le ordinary h =
      walk_same frames (cleared frames table index) page 0 t
        (cleared-other frames table index t (index_at 0 page) (inl (lower t (prefix 1 page) h)))
        (λ there. refl)
  cleared-walk (suc (suc i)) page t le ordinary h =
      let onward = λ (other : (t ≢ table) ⊎ (index_at (suc i) page ≢ index)).
        walk_same frames (cleared frames table index) page (suc i) t
          (cleared-other frames table index t (index_at (suc i) page) other)
          (λ there.
            cleared-walk (suc i) page ((frames t (index_at (suc i) page)).physical_address * 4096)
              (omega (arith, le)) ordinary
              (child_owner frames root owner t i page tree (omega (arith, le)) ordinary h there)) in
      elim (ℕ_discrete t table) [
        | yes here ↦ elim (ℕ_discrete (index_at (suc i) page) index) [
          | yes at ↦ rw here (at_entry page i at)
          | no other ↦ onward (inr other)
        ]
        | no away ↦ onward (inl away)
      ]
