-- ===== src/Physical/Handover.antt =====
-- What every call of `requestPages` does to the memory: pages are handed out once, and nothing else
-- changes.
use mayv.Prelude.{
  ℕ, ◌+◌, ◌*◌, ◌/◌, ◌%◌, ◌^◌, ◌≤◌, ◌<◌, ◌≡◌, true, false, if◌then◌else◌, arith, inl, inr,
  Bool-cases, dec_lt, ◌⊎◌,
}
use mayv.Prelude.Words.{has_flag}
use mayv.Physical.Pages.{PhysicalMemory, used}
use mayv.Physical.Request.{PageRequestResult, closest_level, request_pages, grant, no_pages}
use mayv.Physical.Invariant.{page_used, IsValid}
use mayv.Physical.Counting.{in_range}
use mayv.Physical.MarkPages.{mark_pages-IsValid, mark_pages-page_used}
use mayv.Physical.Contiguous.{AllFree, Served, granted, refused, request_pages-contiguous}
use mayv.Physical.BuddyRequest.{ServedBuddy, granted_buddy, refused_buddy, request_pages-buddy}

-- The pages of the result lie in the memory, were free, and are the only pages that changed.
pub record HandedOut (s : PhysicalMemory) (out : PhysicalMemory × PageRequestResult) : Type 0 where
  pub valid : IsValid out.0
  pub inside : 0 < out.1.allocated_count → out.1.address / 4096 + out.1.allocated_count ≤ s.total
  pub was_free :
      (c : ℕ)
      → out.1.address / 4096 ≤ c
      → c < out.1.address / 4096 + out.1.allocated_count
      → page_used s c ≡ false
  pub now_used :
      (c : ℕ)
      → c < s.total
      → page_used out.0 c ≡ (
          if in_range (out.1.address / 4096) (out.1.address / 4096 + out.1.allocated_count) c
          then true
          else page_used s c)

grant-HandedOut :
    (s : PhysicalMemory) (p n : ℕ)
    → IsValid s
    → p + n ≤ s.total
    → AllFree s.total s.bits p (p + n)
    → HandedOut s (grant s (p * 4096) n)
unfolding grant
grant-HandedOut s p n v fits free = record {
  valid = mark_pages-IsValid s (p * 4096) n used v (rw page fits);
  inside = λ h. rw page fits;
  was_free = rw page free;
  now_used = λ c h. mark_pages-page_used s (p * 4096) n used c v (rw page fits) h;
}
  where
    page : p * 4096 / 4096 ≡ p
    page = omega arith

refusal-HandedOut : (s : PhysicalMemory) → IsValid s → HandedOut s (s, no_pages)
refusal-HandedOut s v = record {
  valid = v;
  inside = λ h. absurd (omega arith);
  was_free = λ c lo hi. absurd (omega arith);
  now_used = λ c h. ground arith;
}

Served-HandedOut :
    (s : PhysicalMemory) (count : ℕ) {out : PhysicalMemory × PageRequestResult}
    → IsValid s
    → Served s count out
    → HandedOut s out
Served-HandedOut s count v (granted start lo fits free) = grant-HandedOut s start count v fits free
Served-HandedOut s count v (refused none_free) = refusal-HandedOut s v

ServedBuddy-HandedOut :
    (s : PhysicalMemory) (level : ℕ) {out : PhysicalMemory × PageRequestResult}
    → IsValid s
    → ServedBuddy s level out
    → HandedOut s out
ServedBuddy-HandedOut s level v (granted_buddy o b low fits free first) =
    grant-HandedOut s (b * 2 ^ o) (2 ^ o) v fits free
ServedBuddy-HandedOut s level v (refused_buddy none_free) = refusal-HandedOut s v

pub rejected :
    (s : PhysicalMemory) (count flags : ℕ)
    → (count ≡ 0) ⊎ ((s.available < count) ⊎ ((512 < count) × (has_flag flags 8 ≡ false)))
    → request_pages s count flags ≡ (s, no_pages)
unfolding request_pages
rejected s count flags h = ground arith

-- In a memory of whole groups of 16 MiB, every call of `requestPages`, with any count and flags,
-- keeps the invariant; the pages that it hands out lie in the memory, were free before and are used
-- after, and no other page changes.
pub request_pages-HandedOut :
    (s : PhysicalMemory) (count flags : ℕ)
    → IsValid s
    → s.total % 4096 ≡ 0
    → HandedOut s (request_pages s count flags)
request_pages-HandedOut s count flags v even = elim (dec_lt 0 count) [
  | no zero_pages ↦ rw (rejected s count flags (inl (omega arith))) (refusal-HandedOut s v)
  | yes pos ↦ elim (dec_lt s.available count) [
    | yes too_many ↦ rw (rejected s count flags (inr (inl too_many))) (refusal-HandedOut s v)
    | no room ↦ elim (Bool-cases (has_flag flags 8)) [
      | inl contiguous ↦
          Served-HandedOut s count v
            (request_pages-contiguous s count flags pos (omega arith) contiguous)
      | inr buddy ↦ elim (dec_lt 512 count) [
        | yes large ↦ rw (rejected s count flags (inr (inr (large, buddy)))) (refusal-HandedOut s v)
        | no small ↦
            ServedBuddy-HandedOut s (closest_level count) v
              (request_pages-buddy s count flags v even pos (omega arith) (omega arith) buddy)
      ]
    ]
  ]
]
