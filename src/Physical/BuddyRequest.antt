-- ===== src/Physical/BuddyRequest.antt =====
-- `requestPages` as a whole: what a request for a buddy is granted, and that every request keeps the
-- invariant.
use mayv.Prelude.{
  ℕ, zero, suc, ◌+◌, ◌*◌, ◌/◌, ◌%◌, ◌^◌, ◌≤◌, ◌<◌, ◌≡◌, ap, true, false, arith, inl, inr,
  Option-cases, ℕ_discrete, none, some,
}
use mayv.Prelude.Words.{has_flag}
use mayv.Physical.Pages.{Bitmaps, PhysicalMemory, bitmap_size}
use mayv.Physical.Request.{
  PageRequestResult, find_buddy, find_at_or_below, closest_level, request_buddy, request_pages,
  grant, no_pages,
}
use mayv.Physical.Layout.{two_pow_add, used_at, buddy_end}
use mayv.Physical.Invariant.{IsValid}
use mayv.Physical.Contiguous.{AllFree}
use mayv.Physical.Buddies.{
  closest_level_lem, find_buddy_sound, find_buddy_complete, buddy-AllFree, no_padding,
}

-- the answer to a request for a buddy of the order `level` or less
pub data ServedBuddy (s : PhysicalMemory) (level : ℕ)
    : PhysicalMemory × PageRequestResult → Type 0 where
  granted_buddy :
      (o b : ℕ)
      → o ≤ level
      → b * 2 ^ o + 2 ^ o ≤ s.total
      → AllFree s.total s.bits (b * 2 ^ o) (b * 2 ^ o + 2 ^ o)
      → ((m c : ℕ) → o < m → m ≤ level → c < s.total / 2 ^ m → used_at s.total s.bits m c ≡ true)
      → ServedBuddy s level (grant s (b * 2 ^ o * 4096) (2 ^ o))
  refused_buddy :
      ((m c : ℕ) → m ≤ level → c < s.total / 2 ^ m → used_at s.total s.bits m c ≡ true)
      → ServedBuddy s level (s, no_pages)

module _ (total : ℕ) (bits : Bitmaps) where
  -- The first order from `level` down that has a clear bit.
  find_at_or_below_sound :
      (level : ℕ) (p : ℕ × ℕ)
      → find_at_or_below total bits level ≡ some p
      → (p.0 ≤ level)
        × (find_buddy total bits p.0 ≡ some p.1)
        × ((m c : ℕ) → p.0 < m → m ≤ level → c < total / 2 ^ m → used_at total bits m c ≡ true)
  unfolding find_at_or_below
  find_at_or_below_sound zero p h = elim (Option-cases (find_buddy total bits 0)) [
    | inl nothing ↦ cc (rw (nothing, find_at_or_below) at h)
    | inr (b, found) ↦
        let e : ◌≡◌ {A = ℕ × ℕ} (0, b) p = cc (rw (found, find_at_or_below) at h) in
        rw (← e) (omega arith, found, λ m c lo hi lt. absurd (omega arith))
  ]
  find_at_or_below_sound (suc level) p h = elim (Option-cases (find_buddy total bits (suc level))) [
    | inl nothing ↦
        let out : (p.0 ≤ level)
            × (find_buddy total bits p.0 ≡ some p.1)
            × ((m c : ℕ)
                → p.0 < m
                → m ≤ level
                → c < total / 2 ^ m
                → used_at total bits m c ≡ true) =
          find_at_or_below_sound level p (rw (nothing, find_at_or_below) at h) in
        (
          omega arith,
          out.1,
          λ m c lo hi lt. elim (ℕ_discrete m (suc level)) [
            | yes same ↦
                rw same (find_buddy_complete total bits (suc level) c nothing (rw same at lt))
            | no ne ↦ out.2 m c lo (omega arith) lt
          ],
        )
    | inr (b, found) ↦
        let e : ◌≡◌ {A = ℕ × ℕ} (suc level, b) p = cc (rw (found, find_at_or_below) at h) in
        rw (← e) (omega arith, found, λ m c lo hi lt. absurd (omega arith))
  ]

  find_at_or_below_complete :
      (level m c : ℕ)
      → find_at_or_below total bits level ≡ none
      → m ≤ level
      → c < total / 2 ^ m
      → used_at total bits m c ≡ true
  unfolding find_at_or_below
  find_at_or_below_complete zero m c h le lt = elim (Option-cases (find_buddy total bits 0)) [
    | inl nothing ↦
        let same : m ≡ 0 = omega arith in
        rw same (find_buddy_complete total bits 0 c nothing (rw same at lt))
    | inr (b, found) ↦ cc (rw (found, find_at_or_below) at h)
  ]
  find_at_or_below_complete (suc level) m c h le lt =
      elim (Option-cases (find_buddy total bits (suc level))) [
        | inl nothing ↦ elim (ℕ_discrete m (suc level)) [
          | yes same ↦
              rw same (find_buddy_complete total bits (suc level) c nothing (rw same at lt))
          | no ne ↦
              find_at_or_below_complete level m c (rw (nothing, find_at_or_below) at h)
                (omega arith) lt
        ]
        | inr (b, found) ↦ cc (rw (found, find_at_or_below) at h)
      ]

pub searched :
    (s : PhysicalMemory) (count flags : ℕ)
    → 0 < count
    → count ≤ s.available
    → count ≤ 512
    → has_flag flags 8 ≡ false
    → request_pages s count flags ≡ request_buddy s count
unfolding request_pages
searched s count flags pos room small flag = ground arith

request_buddy-none :
    (s : PhysicalMemory) (count : ℕ)
    → find_at_or_below s.total s.bits (closest_level count) ≡ none
    → request_buddy s count ≡ (s, no_pages)
unfolding request_buddy
request_buddy-none s count h = rw (h, request_buddy)

pub request_buddy-some :
    (s : PhysicalMemory) (count : ℕ) (p : ℕ × ℕ)
    → find_at_or_below s.total s.bits (closest_level count) ≡ some p
    → request_buddy s count ≡ grant s (p.1 * 2 ^ p.0 * 4096) (2 ^ p.0)
unfolding request_buddy
request_buddy-some s count p h = rw (h, request_buddy) (ap (λ a. grant s a (2 ^ p.0)) address)
  where
    address : p.1 * 2 ^ (12 + p.0) ≡ p.1 * 2 ^ p.0 * 4096
    address = rw (two_pow_add 12 p.0) (omega arith)

-- In a valid state of a memory of whole groups of 16 MiB, a request without PhysicalContiguous for at
-- least one page and at most 512, and at most as many as are available, is granted a free buddy of the
-- largest order that has one, from the closest level down; it is refused only if no order from the
-- closest level down has a free buddy.
pub request_pages-buddy :
    (s : PhysicalMemory) (count flags : ℕ)
    → IsValid s
    → s.total % 4096 ≡ 0
    → 0 < count
    → count ≤ s.available
    → count ≤ 512
    → has_flag flags 8 ≡ false
    → ServedBuddy s (closest_level count) (request_pages s count flags)
request_pages-buddy s count flags v even pos room small flag =
    rw (searched s count flags pos room small flag)
      (elim (Option-cases (find_at_or_below s.total s.bits (closest_level count))) [
        | inl nothing ↦ rw (request_buddy-none s count nothing) (
            refused_buddy λ m c le lt.
              find_at_or_below_complete s.total s.bits (closest_level count) m c nothing le lt)
        | inr (p, found) ↦
            rw (request_buddy-some s count p found)
              (served p (find_at_or_below_sound s.total s.bits (closest_level count) p found))
      ])
  where
    served :
        (p : ℕ × ℕ)
        → (p.0 ≤ closest_level count)
          × (find_buddy s.total s.bits p.0 ≡ some p.1)
          × ((m c : ℕ)
              → p.0 < m
              → m ≤ closest_level count
              → c < s.total / 2 ^ m
              → used_at s.total s.bits m c ≡ true)
        → ServedBuddy s (closest_level count) (grant s (p.1 * 2 ^ p.0 * 4096) (2 ^ p.0))
    served p out =
        let low : p.0 < 10 = omega (arith, closest_level_lem count pos small) in
        let clear : (p.1 < bitmap_size s.total p.0 * 8) × (used_at s.total s.bits p.0 p.1 ≡ false) =
          find_buddy_sound s.total s.bits p.0 out.1 in
        let inside : p.1 < s.total / 2 ^ p.0 =
          omega (arith, no_padding s.total s.bits v.whole v.small p.0 low even) in
        granted_buddy p.0 p.1 out.0 (buddy_end s.total p.0 p.1 inside)
          (buddy-AllFree s.total s.bits v.whole v.small p.0 p.1 v.closed low inside clear.1) out.2
