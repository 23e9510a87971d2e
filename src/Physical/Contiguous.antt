-- ===== src/Physical/Contiguous.antt =====
-- `requestPages` with RequestType::PhysicalContiguous: the scan finds a free run from the 1 MiB mark
-- on exactly if there is one.
use mayv.Prelude.{
  ℕ, zero, suc, ◌+◌, ◌-◌, ◌*◌, ◌/◌, ◌≤◌, ◌<◌, ◌≡◌, ap, true, false, ◌==◌, if◌then◌else◌, arith, inl,
  inr, Bool-cases, Option-cases, dec_lt, ℕ_discrete, none, some,
}
use mayv.Prelude.Words.{has_flag}
use mayv.Physical.Pages.{Bitmaps, PhysicalMemory, bitmap_start}
use mayv.Physical.Request.{
  PageRequestResult, contiguous_loop, request_contiguous, request_pages, grant, no_pages,
}
use mayv.Physical.Layout.{used_at, position}
use mayv.Physical.Invariant.{page_used}

module _ (total : ℕ) (bits : Bitmaps) where
  -- All the pages from `lo` to `hi - 1` are free.
  abbrev pub AllFree : ℕ → ℕ → Type 0
  AllFree lo hi = (c : ℕ) → lo ≤ c → c < hi → used_at total bits 0 c ≡ false

  page_bit :
      (page : ℕ)
      → bits ((bitmap_start total 0 + page / 8) * 8 + (page - page / 8 * 8))
        ≡ used_at total bits 0 page
  page_bit page = ap bits place
    where
      place : (bitmap_start total 0 + page / 8) * 8 + (page - page / 8 * 8) ≡ position total 0 page
      place = omega arith

  -- one round of the scan
  round :
      (count left page start counted : ℕ)
      → contiguous_loop total bits count (suc left) page start counted ≡ (
          if used_at total bits 0 page
          then contiguous_loop total bits count left (page + 1) (page + 1) 0
          else (if counted + 1 == count
              then some start
              else contiguous_loop total bits count left (page + 1) start (counted + 1)))
  unfolding contiguous_loop
  round count left page start counted = rw (page_bit page)

  AllFree-suc : {lo hi : ℕ} → AllFree lo hi → used_at total bits 0 hi ≡ false → AllFree lo (hi + 1)
  AllFree-suc {hi = hi} free idle c a b = elim (ℕ_discrete c hi) [
    | yes same ↦ rw same idle
    | no ne ↦ free c a (omega arith)
  ]

  -- what the scan answers is a free run
  contiguous_loop_sound :
      (count left page start counted : ℕ) {r : ℕ}
      → start + counted ≡ page
      → AllFree start page
      → contiguous_loop total bits count left page start counted ≡ some r
      → (start ≤ r) × (r + count ≤ page + left) × AllFree r (r + count)
  unfolding contiguous_loop
  contiguous_loop_sound count zero page start counted e free h = cc
  contiguous_loop_sound count (suc left) page start counted {r} e free h =
      elim (Bool-cases (used_at total bits 0 page)) [
        | inl busy ↦
            let out : (page + 1 ≤ r) × (r + count ≤ page + 1 + left) × AllFree r (r + count) =
              contiguous_loop_sound count left (page + 1) (page + 1) 0 (omega arith)
                (λ c a b. absurd (omega arith))
                (ground (arith, round count left page start counted)) in
            (omega arith, omega arith, out.2)
        | inr idle ↦ elim (ℕ_discrete (counted + 1) count) [
          | yes full ↦
              let here : start ≡ r = ground (arith, round count left page start counted) in
              let upto : start + count ≡ page + 1 = omega arith in
              rw (← here) (omega arith, omega arith, rw upto (AllFree-suc free idle))
          | no more ↦
              let out : (start ≤ r) × (r + count ≤ page + 1 + left) × AllFree r (r + count) =
                contiguous_loop_sound count left (page + 1) start (counted + 1) (omega arith)
                  (AllFree-suc free idle) (ground (arith, round count left page start counted)) in
              (omega arith, omega arith, out.2)
        ]
      ]

  -- where the scan finds nothing, every run of pages has a used one
  contiguous_loop_complete :
      (count left page start counted r : ℕ)
      → start + counted ≡ page
      → counted < count
      → contiguous_loop total bits count left page start counted ≡ none
      → start ≤ r
      → r + count ≤ page + left
      → (c : ℕ) × (r ≤ c) × (c < r + count) × (used_at total bits 0 c ≡ true)
  contiguous_loop_complete count zero page start counted r e lt h lo hi = absurd (omega arith)
  contiguous_loop_complete count (suc left) page start counted r e lt h lo hi =
      elim (Bool-cases (used_at total bits 0 page)) [
        | inl busy ↦ elim (dec_lt page r) [
          | yes after ↦
              contiguous_loop_complete count left (page + 1) (page + 1) 0 r (omega arith)
                (omega arith) (ground (arith, round count left page start counted)) (omega arith)
                (omega arith)
          | no before ↦ (page, omega arith, omega arith, busy)
        ]
        | inr idle ↦
            contiguous_loop_complete count left (page + 1) start (counted + 1) r (omega arith)
              (ground (arith, round count left page start counted))
              (ground (arith, round count left page start counted)) lo (omega arith)
      ]

-- the answer of a request that was served or refused, and the memory after it
pub data Served (s : PhysicalMemory) (count : ℕ) : PhysicalMemory × PageRequestResult → Type 0 where
  granted :
      (start : ℕ)
      → 256 ≤ start
      → start + count ≤ s.total
      → AllFree s.total s.bits start (start + count)
      → Served s count (grant s (start * 4096) count)
  refused :
      ((r : ℕ)
        → 256 ≤ r
        → r + count ≤ s.total
        → (c : ℕ) × (r ≤ c) × (c < r + count) × (page_used s c ≡ true))
      → Served s count (s, no_pages)

served_by :
    (s : PhysicalMemory) (count flags : ℕ)
    → 0 < count
    → count ≤ s.available
    → has_flag flags 8 ≡ true
    → request_pages s count flags ≡ request_contiguous s count
unfolding request_pages
served_by s count flags pos room contiguous = ground arith

contiguous-none :
    (s : PhysicalMemory) (count : ℕ)
    → contiguous_loop s.total s.bits count (s.total - 256) 256 256 0 ≡ none
    → request_contiguous s count ≡ (s, no_pages)
unfolding request_contiguous
contiguous-none s count h = rw (h, request_contiguous)

contiguous-some :
    (s : PhysicalMemory) (count start : ℕ)
    → contiguous_loop s.total s.bits count (s.total - 256) 256 256 0 ≡ some start
    → request_contiguous s count ≡ grant s (start * 4096) count
unfolding request_contiguous
contiguous-some s count start h = rw (h, request_contiguous)

-- A request with PhysicalContiguous, for at least one page and at most as many as are available, is
-- granted the pages of a free run from 1 MiB on; it is refused only if every run of that length from
-- 1 MiB on has a used page.
pub request_pages-contiguous :
    (s : PhysicalMemory) (count flags : ℕ)
    → 0 < count
    → count ≤ s.available
    → has_flag flags 8 ≡ true
    → Served s count (request_pages s count flags)
request_pages-contiguous s count flags pos room contiguous =
    rw (served_by s count flags pos room contiguous)
      (elim (Option-cases (contiguous_loop s.total s.bits count (s.total - 256) 256 256 0)) [
        | inl nothing ↦ rw (contiguous-none s count nothing) (
            refused λ r lo hi.
              contiguous_loop_complete s.total s.bits count (s.total - 256) 256 256 0 r
                (omega arith) pos nothing lo (omega arith))
        | inr (start, found) ↦
            let run : (256 ≤ start)
                × (start + count ≤ 256 + (s.total - 256))
                × AllFree s.total s.bits start (start + count) =
              contiguous_loop_sound s.total s.bits count (s.total - 256) 256 256 0 (omega arith)
                (λ c a b. absurd (omega arith)) found in
            rw (contiguous-some s count start found) (granted start run.0 (omega arith) run.2)
      ])
