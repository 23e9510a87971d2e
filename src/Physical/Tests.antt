-- ===== src/Physical/Tests.antt =====
-- Runs of the physical allocator, and its theorems at concrete states.
use mayv.Prelude.{
  ℕ, zero, suc, ◌*◌, ◌^◌, ◌≤◌, ◌<◌, ◌≡◌, refl, true, false, arith, inl, inr, List, [], ◌∷◌, ◌⊎◌,
}
use mayv.Prelude.Words.{has_flag}
use mayv.Physical.Pages.{
  PhysicalMemory, free, used, bitmap_size, bitmap_start, bitmap_index, bit_at, put_bit, is_of_type,
  buddies_loop, are_buddies_of_type,
}
use mayv.Physical.Marking.{mark_page, mark_loop, sync_buddy, sync_level, sync_orders, mark_pages}
use mayv.Physical.Request.{
  contiguous_loop, is_full_byte, find_byte, find_bit, find_buddy, find_at_or_below, fitting_level,
  closest_level, grant, request_contiguous, request_buddy, request_pages,
}
use mayv.Physical.Initialize.{MapEntry, total_size, buddy_pages_count, initialize}
use mayv.Physical.Layout.{used_at}
use mayv.Physical.Invariant.{page_used, count_used, IsValid}
use mayv.Physical.MarkPages.{mark_pages-page_used, mark_pages-IsValid}
use mayv.Physical.Contiguous.{Served, request_pages-contiguous}
use mayv.Physical.Buddies.{closest_level_lem}
use mayv.Physical.BuddyRequest.{ServedBuddy, request_pages-buddy}
use mayv.Physical.Handover.{HandedOut, request_pages-HandedOut}
use mayv.Physical.Limits.{mark_pages-keeps_buddies, request_pages-beyond}
use mayv.Physical.Startup.{in_reserved, initialize-pages}

program : Unit {0}
unfolding bitmap_size bitmap_start bitmap_index bit_at put_bit is_of_type buddies_loop
    are_buddies_of_type mark_page mark_loop sync_buddy sync_level sync_orders mark_pages
    contiguous_loop is_full_byte find_byte find_bit find_buddy find_at_or_below fitting_level
    closest_level grant request_contiguous request_buddy request_pages has_flag total_size
    buddy_pages_count
program = tt

-- 16 MiB, all free
abbrev fresh : PhysicalMemory
fresh = record { total = 4096; available = 4096; bits = λ k. false }

fresh-IsValid : IsValid fresh
unfolding count_used
fresh-IsValid = record {
  whole = refl;
  small = omega arith;
  counted = refl;
  closed = λ o b ho hb u. cc;
}

abbrev three_used : PhysicalMemory
three_used = mark_pages fresh 0 3 used

levels :
    (closest_level 3 ≡ 2) × (closest_level 5 ≡ 2) × (closest_level 6 ≡ 3) × (closest_level 512 ≡ 9)
unfolding program
levels = (refl, refl, refl, refl)

third_buddy :
    (are_buddies_of_type 4096 three_used.bits 0x2000 1 1 used ≡ true)
    × (are_buddies_of_type 4096 three_used.bits 0x4000 1 1 free ≡ true)
    × (three_used.available ≡ 4093)
unfolding program
third_buddy = (refl, refl, refl)

granted_run : (request_pages three_used 3 8).1 ≡ record { address = 0x100000; allocated_count = 3 }
unfolding program
granted_run = refl

granted_four : (request_pages three_used 3 0).1 ≡ record { address = 0x4000; allocated_count = 4 }
unfolding program
granted_four = refl

request_pages-HandedOut_example : HandedOut fresh (request_pages fresh 3 8)
request_pages-HandedOut_example = request_pages-HandedOut fresh 3 8 fresh-IsValid refl

mark_pages-page_used_example : page_used (mark_pages fresh 0x2000 3 used) 4 ≡ true
mark_pages-page_used_example =
    mark_pages-page_used fresh 0x2000 3 used 4 fresh-IsValid (omega arith) (omega arith)

mark_pages-IsValid_example : IsValid (mark_pages fresh 0x2000 3 used)
mark_pages-IsValid_example = mark_pages-IsValid fresh 0x2000 3 used fresh-IsValid (omega arith)

request_pages-contiguous_example : Served fresh 3 (request_pages fresh 3 8)
unfolding has_flag
request_pages-contiguous_example =
    request_pages-contiguous fresh 3 8 (omega arith) (omega arith) refl

request_pages-buddy_example : ServedBuddy fresh (closest_level 5) (request_pages fresh 5 0)
unfolding has_flag
request_pages-buddy_example =
    request_pages-buddy fresh 5 0 fresh-IsValid refl (omega arith) (omega arith) (omega arith) refl

closest_level_lem_example :
    let level = closest_level 5 in
    (level < 10)
    × (((5 ≤ 2 ^ level) × (3 * 2 ^ level ≤ 4 * 5)) ⊎ ((2 ^ level < 5) × (2 * 5 < 3 * 2 ^ level)))
closest_level_lem_example = closest_level_lem 5 (omega arith) (omega arith)

-- pages 0 to 2 are freed again, and their buddies stay used
mark_pages-keeps_buddies_example : used_at 4096 (mark_pages three_used 0 3 free).bits 1 0 ≡ true
unfolding program
mark_pages-keeps_buddies_example =
    mark_pages-keeps_buddies three_used 0 3 free 0 0
      (mark_pages-IsValid fresh 0 3 used fresh-IsValid (omega arith)) (omega arith) (omega arith)
      (omega arith) refl

-- 4 MiB with a used page in each of its two largest buddies
abbrev two_marks : PhysicalMemory
two_marks =
    mark_pages (mark_pages (record { total = 1024; available = 1024; bits = λ k. false }) 0 1 used)
      0x200000 1 used

both_used : (b : ℕ) → b < 2 → used_at 1024 two_marks.bits 9 b ≡ true
unfolding program
both_used zero h = refl
both_used (suc zero) h = refl
both_used (suc (suc b)) h = absurd (omega arith)

request_pages-beyond_example :
    let (after, result) = request_pages two_marks 512 0 in
    (two_marks.total * 4096 ≤ result.address) × (result.allocated_count ≡ 512) × (after ≡ two_marks)
unfolding program
request_pages-beyond_example =
    request_pages-beyond two_marks 0 refl (omega arith) both_used refl (omega arith) refl

abbrev firmware_map : List MapEntry
firmware_map =
    record { base = 0; len = 0x200000; usable = true }
    ∷ record { base = 0x40000000; len = 0x200000; usable = false }
    ∷ []

-- A region of a page's length that begins inside the page 0x100 reaches into the page 0x101, which
-- stays free.
abbrev unaligned_map : List MapEntry
unaligned_map =
    record { base = 0; len = 0x3ff000; usable = true }
    ∷ record { base = 0x100800; len = 0x1000; usable = false }
    ∷ []

unaligned_run :
    page_used (initialize unaligned_map (λ k. false) 0x180000 0x200000 0x10000).0 0x101 ≡ false
unfolding program
unaligned_run =
    (initialize-pages unaligned_map (λ k. false) 0x180000 0x200000 0x10000 1024 refl refl
        (omega arith) (omega arith) (inl (omega arith)) (inl (omega arith))
        (inl (omega arith), (inl (omega arith), tt))).2
      0x101 (omega arith)

initialize-pages_example :
    let s = (initialize firmware_map (λ k. false) 0x180000 0x100000 0x10000).0 in
    IsValid s
    × (s.total ≡ 1024)
    × ((c : ℕ)
        → c < 1024
        → page_used s c
          ≡ in_reserved firmware_map 0x180000 (buddy_pages_count 1024) 0x100000 0x10000 c)
unfolding program
initialize-pages_example =
    initialize-pages firmware_map (λ k. false) 0x180000 0x100000 0x10000 1024 refl refl
      (omega arith) (omega arith) (inl (omega arith)) (inl (omega arith))
      (inl (omega arith), (inr (omega arith), tt))
