-- ===== src/Physical/Invariant.antt =====
-- The invariant of the allocator: the count of available pages is right, and a buddy with a used
-- half is used itself, so a buddy that shows as free has no used page inside.
use mayv.Prelude.{ℕ, zero, suc, ◌+◌, ◌/◌, ◌%◌, ◌^◌, ◌<◌, ◌≡◌, Bool, true, if◌then◌else◌}
use mayv.Physical.Pages.{Bitmaps, PhysicalMemory}
use mayv.Physical.Layout.{used_at}

-- Is the page used?
abbrev pub page_used : PhysicalMemory → ℕ → Bool
page_used s page = used_at s.total s.bits 0 page

-- the number of used pages below `n`
unfoldable pub count_used : ℕ → Bitmaps → ℕ → ℕ
count_used total bits zero = 0
count_used total bits (suc n) = count_used total bits n + (if used_at total bits 0 n then 1 else 0)

abbrev pub Counted : ℕ → Bitmaps × ℕ → Type 0
Counted total (bits, available) = available + count_used total bits total ≡ total

abbrev pub Closed : ℕ → Bitmaps → Type 0
Closed total bits =
    (o b : ℕ)
    → suc o < 10
    → b < total / 2 ^ o
    → used_at total bits o b ≡ true
    → used_at total bits (suc o) (b / 2) ≡ true

-- The memory is a whole number of buddies of the largest order, and its size in bytes is far from
-- 2^64.
pub record IsValid (s : PhysicalMemory) : Type 0 where
  pub whole : s.total % 512 ≡ 0
  pub small : s.total < 2 ^ 51
  pub counted : Counted s.total (s.bits, s.available)
  pub closed : Closed s.total s.bits
