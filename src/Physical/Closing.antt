-- ===== src/Physical/Closing.antt =====
-- The loop of `markPages` over the orders: whatever the marking of the pages left open, a used half
-- makes its buddy used again at every order.
use native.Mathlib.Nat.{
  mod-eq-sub-div-mul, mul-div-mul_right, div-mul-le_self, one-le-pow, div-lt_iff_lt-mul, pow-suc,
  le-mul_of_pos_right, lt-div-mul-add, div-div-eq-div-mul, le-div_iff_mul-le, mul-le-mul_right,
}
use mayv.Prelude.{
  ℕ, zero, suc, ◌+◌, ◌*◌, ◌/◌, ◌%◌, ◌^◌, ◌≤◌, ◌<◌, ◌≡◌, refl, ap, ◌∙◌, true, false, arith, inl, inr,
  dec_lt, ℕ_discrete, ◌≢◌, ◌⊎◌,
}
use mayv.Physical.Pages.{Bitmaps, align_down}
use mayv.Physical.Marking.{sync_level, sync_orders}
use mayv.Physical.Layout.{used_at}
use mayv.Physical.Sync.{sync_level_lem, raised, visits, buddies_halve}

pub align_down-page : (p o : ℕ) → align_down (p * 4096) o ≡ p / 2 ^ o * (2 ^ o * 4096)
align_down-page p o = omega (
  arith,
  mod-eq-sub-div-mul (p * 4096) (2 ^ o * 4096),
  quotient,
  ap (λ (q : ℕ). q * (2 ^ o * 4096)) quotient,
  div-mul-le_self p (2 ^ o),
)
  where
    quotient : p * 4096 / (2 ^ o * 4096) ≡ p / 2 ^ o
    quotient = mul-div-mul_right p (2 ^ o) (omega arith)

module _ (total : ℕ) (whole : total % 512 ≡ 0) (small : total < 2 ^ 51) (p e : ℕ)
    (he : e ≤ total) where
  -- the buddy has no page of the range from `p` to `e`
  abbrev pub Outside : ℕ → ℕ → Type 0
  Outside o b = (suc b * 2 ^ o ≤ p) ⊎ (e ≤ b * 2 ^ o)

  -- A used half makes its buddy used, below the order `i` and outside the range.
  abbrev pub ClosedTo : ℕ → Bitmaps → Type 0
  ClosedTo i bits =
      (o b : ℕ)
      → suc o < 10
      → b < total / 2 ^ o
      → used_at total bits o b ≡ true
      → (o < i) ⊎ Outside o b
      → used_at total bits (suc o) (b / 2) ≡ true

  module _ (bits : Bitmaps) (i fuel : ℕ) (hi : suc i < 10)
      (enough : e ≤ p / 2 ^ suc i * 2 ^ suc i + fuel * 2 ^ suc i) (before : ClosedTo i bits) where
    abbrev synced : Bitmaps
    synced = sync_level total fuel i (p / 2 ^ suc i * (2 ^ suc i * 4096)) (e * 4096) bits

    synced_at :
        (m c : ℕ)
        → c < total / 2 ^ m
        → used_at total synced m c ≡ raised total whole small bits i (p / 2 ^ suc i) e m c
    synced_at m c hc =
        sync_level_lem total whole small fuel bits i (p / 2 ^ suc i) e m c hi he enough hc

    half_in : (o b : ℕ) → suc o < 10 → b < total / 2 ^ o → b / 2 < total / 2 ^ suc o
    half_in o b ho hb = omega (arith, buddies_halve total whole small o ho)

    -- a buddy outside the range is not visited
    Outside-visits :
        (b : ℕ) → Outside (suc i) b → visits total whole small i (p / 2 ^ suc i) e b ≡ false
    Outside-visits b (inl h) = ground (
      arith,
      (le-div_iff_mul-le {k = 2 ^ suc i} {x = suc b} {y = p} (one-le-pow (suc i) 2 (omega arith))).1
          h,
    )
    Outside-visits b (inr h) = ground arith

    inside-visits :
        (b : ℕ)
        → p < suc b * 2 ^ i
        → b * 2 ^ i < e
        → visits total whole small i (p / 2 ^ suc i) e (b / 2) ≡ true
    inside-visits b lo below = ground (arith, first, last)
      where
        last : b / 2 * 2 ^ suc i < e
        last =
            rw (pow-suc 2 i)
              (omega (arith, mul-le-mul_right {m = b / 2 * 2} {n = b} (2 ^ i) (omega arith)))

        first : p / 2 ^ suc i ≤ b / 2
        first =
            rw (pow-suc 2 i, ← div-div-eq-div-mul p (2 ^ i) 2)
              (omega (
                arith,
                (div-lt_iff_lt-mul {k = 2 ^ i} {x = p} {y = suc b} (one-le-pow i 2 (omega arith))).1
                    lo,
              ))

    grows :
        (m c : ℕ)
        → c < total / 2 ^ m
        → used_at total bits m c ≡ true
        → used_at total synced m c ≡ true
    grows m c hc u = ground (arith, synced_at m c hc)

    -- what the range left outside was used before already
    was_used :
        (o b : ℕ)
        → b < total / 2 ^ o
        → o ≢ suc i ⊎ Outside o b
        → used_at total synced o b ≡ true
        → used_at total bits o b ≡ true
    was_used o b hb (inl ne) u = ground (arith, synced_at o b hb)
    was_used o b hb (inr out) u = elim (ℕ_discrete o (suc i)) [
      | no ne ↦ ground (arith, synced_at o b hb)
      | yes same ↦ ground (arith, synced_at o b hb, Outside-visits b (rw same at out))
    ]

    raised_half :
        (b : ℕ)
        → b < total / 2 ^ i
        → p < suc b * 2 ^ i
        → b * 2 ^ i < e
        → used_at total bits i b ≡ true
        → used_at total synced (suc i) (b / 2) ≡ true
    raised_half b hb lo below u =
        ground (
          arith,
          synced_at (suc i) (b / 2) (half_in i b hi hb),
          inside-visits b lo below,
          even,
          odd,
        )
      where
        even : b ≡ 2 * (b / 2) → used_at total bits i (2 * (b / 2)) ≡ true
        even q = rw (← q) u

        odd : b ≡ 2 * (b / 2) + 1 → used_at total bits i (2 * (b / 2) + 1) ≡ true
        odd q = rw (← q) u

    at_order :
        (b : ℕ)
        → b < total / 2 ^ i
        → used_at total bits i b ≡ true
        → used_at total synced (suc i) (b / 2) ≡ true
    at_order b hb u = elim (dec_lt p (suc b * 2 ^ i)) [
      | no out ↦
          grows (suc i) (b / 2) (half_in i b hi hb) (before i b hi hb u (inr (inl (omega arith))))
      | yes lo ↦ elim (dec_lt (b * 2 ^ i) e) [
        | no out ↦
            grows (suc i) (b / 2) (half_in i b hi hb) (before i b hi hb u (inr (inr (omega arith))))
        | yes below ↦ raised_half b hb lo below u
      ]
    ]

    synced-ClosedTo : ClosedTo (suc i) synced
    synced-ClosedTo o b ho hb u (inr out) =
        grows (suc o) (b / 2) (half_in o b ho hb)
          (before o b ho hb (was_used o b hb (inr out) u) (inr out))
    synced-ClosedTo o b ho hb u (inl lt) = elim (ℕ_discrete o i) [
      | no ne ↦
          grows (suc o) (b / 2) (half_in o b ho hb)
            (before o b ho hb (was_used o b hb (inl (omega arith)) u) (inl (omega arith)))
      | yes same ↦
          rw same (at_order b (rw same at hb) (rw same at (was_used o b hb (inl (omega arith)) u)))
    ]

  pub covers :
      (i fuel : ℕ) → 0 < fuel → e ≤ p + fuel → e ≤ p / 2 ^ suc i * 2 ^ suc i + fuel * 2 ^ suc i
  covers i zero pos enough = absurd (omega arith)
  covers i (suc f) pos enough = omega (
    arith,
    lt-div-mul-add {a = p} {b = 2 ^ suc i} (one-le-pow (suc i) 2 (omega arith)),
    le-mul_of_pos_right {m = 2 ^ suc i} f (one-le-pow (suc i) 2 (omega arith)),
  )

  -- After the last order every used half has a used buddy, whatever the range.
  pub sync_orders-Closed :
      (left i fuel : ℕ) (bits : Bitmaps)
      → left + i ≡ 9
      → 0 < fuel
      → e ≤ p + fuel
      → ClosedTo i bits
      → ClosedTo 9 (sync_orders total left fuel i (p * 4096) (e * 4096) bits)
  unfolding sync_orders
  sync_orders-Closed zero i fuel bits nine pos enough h =
      let end : i ≡ 9 = omega arith in rw end at h
  sync_orders-Closed (suc left) i fuel bits nine pos enough h = rw (align_down-page p (suc i)) (
      sync_orders-Closed left (suc i) fuel _ (omega arith) pos enough
        (synced-ClosedTo bits i fuel (omega arith) (covers i fuel pos enough) h))

  -- The bits of order 0 are left alone.
  pub sync_orders-page :
      (left i fuel : ℕ) (bits : Bitmaps) (c : ℕ)
      → left + i ≡ 9
      → 0 < fuel
      → e ≤ p + fuel
      → c < total
      → used_at total (sync_orders total left fuel i (p * 4096) (e * 4096) bits) 0 c
        ≡ used_at total bits 0 c
  unfolding sync_orders
  sync_orders-page zero i fuel bits c nine pos enough hc = refl
  sync_orders-page (suc left) i fuel bits c nine pos enough hc = rw (align_down-page p (suc i)) (
      sync_orders-page left (suc i) fuel _ c (omega arith) pos enough hc
      ∙ ground (
        arith,
        sync_level_lem total whole small fuel bits i (p / 2 ^ suc i) e 0 c (omega arith) he
            (covers i fuel pos enough) (omega arith),
      ))
