-- ===== src/Physical/Limits.antt =====
-- Where the allocator of src/boot/phymemmgmt.cpp falls short: freeing does not free the buddies of
-- the higher orders, and a memory that is no multiple of 16 MiB has buddies beyond its end.
use mayv.Prelude.{
  ℕ, zero, suc, ◌+◌, ◌*◌, ◌/◌, ◌%◌, ◌^◌, ◌≤◌, ◌<◌, ◌≡◌, refl, true, false, arith, inl, inr,
  Option-cases, ◌≢◌, some,
}
use mayv.Prelude.Words.{has_flag}
use mayv.Physical.Pages.{Bitmaps, MarkPageType, PhysicalMemory, used, bitmap_size}
use mayv.Physical.Marking.{mark_pages, sync_orders}
use mayv.Physical.Request.{
  closest_level, fitting_level, request_pages, grant, find_buddy, find_at_or_below,
}
use mayv.Physical.Layout.{used_at}
use mayv.Physical.Sync.{sync_level_lem}
use mayv.Physical.Invariant.{IsValid}
use mayv.Physical.Counting.{mark_loop-used_at}
use mayv.Physical.Closing.{align_down-page, covers}
use mayv.Physical.MarkPages.{mark_pages-run, mark_pages-zero}
use mayv.Physical.Buddies.{find_buddy_sound, find_buddy-clear}
use mayv.Physical.BuddyRequest.{searched, request_buddy-some}

module _ (total : ℕ) (whole : total % 512 ≡ 0) (small : total < 2 ^ 51) (p e : ℕ)
    (he : e ≤ total) where
  -- No order loses a used buddy.
  sync_orders-grows :
      (left i fuel : ℕ) (bits : Bitmaps) (m c : ℕ)
      → left + i ≡ 9
      → 0 < fuel
      → e ≤ p + fuel
      → c < total / 2 ^ m
      → used_at total bits m c ≡ true
      → used_at total (sync_orders total left fuel i (p * 4096) (e * 4096) bits) m c ≡ true
  unfolding sync_orders
  sync_orders-grows zero i fuel bits m c nine pos enough hc u = u
  sync_orders-grows (suc left) i fuel bits m c nine pos enough hc u =
      rw (align_down-page p (suc i)) (
        sync_orders-grows left (suc i) fuel _ m c (omega arith) pos enough hc (
          ground (
            arith,
            sync_level_lem total whole small fuel bits i (p / 2 ^ suc i) e m c (omega arith) he
                (covers total whole small p e he i fuel pos enough) hc,
          )))

-- In a valid state, `markPages` of a range that lies inside the memory never makes a buddy above order
-- 0 free again, not even where it frees all the pages of that buddy.
pub mark_pages-keeps_buddies :
    (s : PhysicalMemory) (address count : ℕ) (ty : MarkPageType) (o b : ℕ)
    → IsValid s
    → address / 4096 + count ≤ s.total
    → suc o < 10
    → b < s.total / 2 ^ suc o
    → used_at s.total s.bits (suc o) b ≡ true
    → used_at s.total (mark_pages s address count ty).bits (suc o) b ≡ true
mark_pages-keeps_buddies s address zero ty o b v fits ho hb u = rw (mark_pages-zero s address ty) u
mark_pages-keeps_buddies s address (suc n) ty o b v fits ho hb u =
    rw (mark_pages-run s address (suc n) ty (omega arith) v.small fits) (
      sync_orders-grows s.total v.whole v.small (address / 4096) (address / 4096 + suc n) fits 9 0
        (suc n) _ (suc o) b (omega arith) (omega arith) (omega arith) hb
        (ground (
          arith,
          mark_loop-used_at s.total v.whole v.small ty (address / 4096) 0 (suc n)
              (s.bits, s.available) (suc o) b (omega arith) hb,
        )))

pub mark_pages-beyond :
    (s : PhysicalMemory) (address count : ℕ) (ty : MarkPageType)
    → s.total * 4096 ≤ address
    → mark_pages s address count ty ≡ s
unfolding mark_pages
mark_pages-beyond s address count ty h = ground arith

padded : (total : ℕ) → (total / 512) % 8 ≢ 0 → total / 512 < bitmap_size total 9 * 8
unfolding bitmap_size
padded total odd = ground arith

level_found :
    (s : PhysicalMemory) (b : ℕ)
    → find_buddy s.total s.bits 9 ≡ some b
    → find_at_or_below s.total s.bits (closest_level 512) ≡ some (9, b)
unfolding closest_level fitting_level find_at_or_below
level_found s b h = rw (h, find_at_or_below)

grant-beyond :
    (s : PhysicalMemory) (address count : ℕ)
    → s.total * 4096 ≤ address
    → grant s address count ≡ (s, record { address = address; allocated_count = count })
unfolding grant
grant-beyond s address count h = rw (mark_pages-beyond s address count used h)

-- In a memory of whole groups of 2 MiB with at least 512 pages available, if all the buddies of 512
-- pages are used, their number is no multiple of 8 and the bit behind the last of them is clear, a
-- request for 512 pages without PhysicalContiguous is answered with an address at or beyond the end of
-- the memory, and no page is marked.
pub request_pages-beyond :
    (s : PhysicalMemory) (flags : ℕ)
    → s.total % 512 ≡ 0
    → (s.total / 512) % 8 ≢ 0
    → ((b : ℕ) → b < s.total / 512 → used_at s.total s.bits 9 b ≡ true)
    → used_at s.total s.bits 9 (s.total / 512) ≡ false
    → 512 ≤ s.available
    → has_flag flags 8 ≡ false
    → let (after, result) = request_pages s 512 flags in
      (s.total * 4096 ≤ result.address) × (result.allocated_count ≡ 512) × (after ≡ s)
request_pages-beyond s flags whole odd full padding room flag =
    rw (searched s 512 flags (omega arith) room (omega arith) flag)
      (elim (Option-cases (find_buddy s.total s.bits 9)) [
        | inl nothing ↦
            absurd (
              find_buddy-clear s.total s.bits 9 (s.total / 512) (padded s.total odd) padding
                nothing)
        | inr (b, found) ↦
            let clear : (b < bitmap_size s.total 9 * 8) × (used_at s.total s.bits 9 b ≡ false) =
              find_buddy_sound s.total s.bits 9 found in
            let behind : s.total / 512 ≤ b = ground (arith, full b) in
            rw
              (
                request_buddy-some s 512 (9, b) (level_found s b found),
                grant-beyond s (b * 512 * 4096) 512 (omega arith),
              )
              (omega arith, refl, refl)
      ])
