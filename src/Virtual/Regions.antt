-- ===== src/Virtual/Regions.antt =====
-- The address space that a list of blocks stands for: its blocks stand end to end, and an address is
-- available exactly if it lies in an available block.
use mayv.Prelude.{
  ℕ, zero, suc, ◌+◌, ◌*◌, ◌≤◌, ◌<◌, ◌≡◌, refl, Bool, true, false, ◌&&◌, ◌||◌, ltb, leb,
  if◌then◌else◌, arith, some, List, [], ◌∷◌, get_elem?,
}
use mayv.Virtual.Space.{AddressSpaceNode}

-- The blocks stand end to end from `start` to `end`.
abbrev pub Tiled : ℕ → ℕ → List AddressSpaceNode → Type 0
Tiled start end [] = start ≡ end
Tiled start end (b ∷ rest) = (b.base ≡ start) × Tiled (start + b.page_count * 4096) end rest

-- Does the address lie in an available block?
abbrev pub available_at : List AddressSpaceNode → ℕ → Bool
available_at [] a = false
available_at (b ∷ rest) a =
    (b.available && leb b.base a && ltb a (b.base + b.page_count * 4096)) || available_at rest a

-- The pages of the available blocks.
abbrev pub available_pages : List AddressSpaceNode → ℕ
available_pages [] = 0
available_pages (b ∷ rest) = (if b.available then b.page_count else 0) + available_pages rest

pub Tiled-le :
    (start end : ℕ) (blocks : List AddressSpaceNode) → Tiled start end blocks → start ≤ end
Tiled-le start end [] h = omega arith
Tiled-le start end (b ∷ rest) (at, h) =
    omega (arith, Tiled-le (start + b.page_count * 4096) end rest h)

-- Nothing lies in front of the blocks.
pub available_at_before :
    (start end : ℕ) (blocks : List AddressSpaceNode) (a : ℕ)
    → Tiled start end blocks
    → a < start
    → available_at blocks a ≡ false
available_at_before start end [] a h lt = refl
available_at_before start end (b ∷ rest) a (at, h) lt =
    ground (arith, available_at_before (start + b.page_count * 4096) end rest a h)

pub available_pages_le :
    (start end : ℕ) (blocks : List AddressSpaceNode)
    → Tiled start end blocks
    → start + available_pages blocks * 4096 ≤ end
available_pages_le start end [] h = omega arith
available_pages_le start end (b ∷ rest) (at, h) =
    ground (arith, available_pages_le (start + b.page_count * 4096) end rest h)

pub Tiled-at :
    (start from end : ℕ) (blocks : List AddressSpaceNode)
    → start ≡ from
    → Tiled from end blocks
    → Tiled start end blocks
Tiled-at start from end blocks e h = rw e h

-- The addresses of an available block are available.
pub available_at_inside :
    (blocks : List AddressSpaceNode) (i : ℕ) (b : AddressSpaceNode) (a : ℕ)
    → get_elem? blocks i ≡ some b
    → b.available ≡ true
    → b.base ≤ a
    → a < b.base + b.page_count * 4096
    → available_at blocks a ≡ true
available_at_inside [] i b a e h from below = ground arith
available_at_inside (c ∷ rest) zero b a e h from below = ground arith
available_at_inside (c ∷ rest) (suc i) b a e h from below =
    ground (arith, available_at_inside rest i b a e h from below)
