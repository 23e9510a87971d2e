-- ===== src/Prelude/Bits.antt =====
-- Bit operations at variables: a low mask is a remainder, `|` of disjoint fields is a sum, and a
-- claim on all bytes is checked by evaluation.
use Prim.Native.Nat.{
  ℕ, zero, suc, ◌+◌, ◌-◌, ◌*◌, ◌/◌, ◌%◌, ◌^◌, ◌≤◌, ◌<◌, min, max, bit_and, bit_or, digits,
  bit_and-bitwise, bit_or-bitwise,
}
use mathlib.Core.Path.{◌≡◌, refl}
use mathlib.Core.Bool.{Bool, true, ◌&&◌}
use native.Mathlib.Nat.{pow-suc, one-le-pow, div-add-mod'}
use native.Mathlib.Omega.{arith}
use mayv.Prelude.Tests.{◌==◌, ==_iff}

-- Is `good` true of each number less than `bound`?
unfoldable pub all_below : (ℕ → Bool) → ℕ → Bool
all_below good zero = true
all_below good (suc top) = all_below good top && good top

pub all_below_sound :
    (good : ℕ → Bool) (bound i : ℕ) → all_below good bound ≡ true → i < bound → good i ≡ true
unfolding all_below
all_below_sound good (suc top) i all less = ground (arith, all_below_sound good top i)
all_below_sound good zero i all less = ground arith

module _ (single : ℕ → ℕ) (combine : ℕ → ℕ → ℕ) where
  -- The fuel of the library's recursion on digits does not matter once it is enough.
  digits_enough :
      (x y fuel more : ℕ)
      → x ≤ more
      → x ≤ fuel
      → digits single combine fuel x y ≡ digits single combine more x y
  digits_enough zero y zero zero g h = refl
  digits_enough zero y zero (suc more) g h = refl
  digits_enough zero y (suc fuel) zero g h = refl
  digits_enough zero y (suc fuel) (suc more) g h = refl
  digits_enough (suc x) y (suc fuel) (suc more) g h =
      rw (digits_enough (suc x / 2) (y / 2) fuel more (omega arith) (omega arith))
  digits_enough (suc x) y zero more g h = ground arith
  digits_enough (suc x) y (suc fuel) zero g h = ground arith

and_lowest : (x y : ℕ) → bit_and x y ≡ min (x % 2) (y % 2) + 2 * bit_and (x / 2) (y / 2)
and_lowest (suc x) y =
    let enough =
      digits_enough (λ z. 0) min (suc x / 2) (y / 2) (suc x / 2) x (omega arith) (omega arith) in
    omega (arith, enough, bit_and-bitwise (suc x / 2) (y / 2), bit_and-bitwise (suc x) y)
and_lowest zero y = omega (arith, bit_and-bitwise 0 (y / 2), bit_and-bitwise 0 y)

or_lowest : (x y : ℕ) → bit_or x y ≡ max (x % 2) (y % 2) + 2 * bit_or (x / 2) (y / 2)
or_lowest (suc x) y =
    let enough =
      digits_enough (λ z. z) max (suc x / 2) (y / 2) (suc x / 2) x (omega arith) (omega arith) in
    omega (arith, enough, bit_or-bitwise (suc x / 2) (y / 2), bit_or-bitwise (suc x) y)
or_lowest zero y = omega (arith, bit_or-bitwise 0 (y / 2), bit_or-bitwise 0 y)

-- Zero on the right, for numbers up to a bound.
and_zero_below : (bound x : ℕ) → x ≤ bound → bit_and x 0 ≡ 0
and_zero_below bound zero h = refl
and_zero_below (suc bound) (suc x) h =
    let half = and_zero_below bound (suc x / 2) (omega arith) in
    omega (arith, half, and_lowest (suc x) 0)
and_zero_below zero (suc x) h = ground arith

or_zero_below : (bound x : ℕ) → x ≤ bound → bit_or x 0 ≡ x
or_zero_below bound zero h = refl
or_zero_below (suc bound) (suc x) h =
    let half = or_zero_below bound (suc x / 2) (omega arith) in
    omega (arith, half, or_lowest (suc x) 0)
or_zero_below zero (suc x) h = ground arith

double-shift : (q k : ℕ) → q * 2 ^ suc k ≡ q * 2 ^ k + q * 2 ^ k
double-shift q k = grind (arith, pow-suc 2 k)

-- `(q << k) | r` is the sum, where `r` has at most `k` bits.
pub bit_or_disjoint : (k q r : ℕ) → r < 2 ^ k → bit_or (q * 2 ^ k) r ≡ q * 2 ^ k + r
bit_or_disjoint zero q r h = ground (arith, or_zero_below q q)
bit_or_disjoint (suc k) q r h =
    ground (arith, or_lowest (q * 2 ^ suc k) r, double-shift q k, bit_or_disjoint k q (r / 2))

and_low : (k q r : ℕ) → r < 2 ^ k → bit_and (q * 2 ^ k + r) (2 ^ k - 1) ≡ r
and_low zero q r h = ground (arith, and_zero_below (q * 1 + r) (q * 1 + r))
and_low (suc k) q r h = ground (
  arith,
  and_lowest (q * 2 ^ suc k + r) (2 ^ suc k - 1),
  double-shift q k,
  pow-suc 2 k,
  and_low k q (r / 2),
)

-- `x & (2^k - 1)` is the remainder by `2^k`.
pub bit_and_mask : (k x : ℕ) → bit_and x (2 ^ k - 1) ≡ x % 2 ^ k
bit_and_mask k x =
    ground (arith, one-le-pow k 2, div-add-mod' x (2 ^ k), and_low k (x / 2 ^ k) (x % 2 ^ k))

-- What a mask of the upper bits keeps of a byte. Each line is checked on all 256 bytes.
module _ (x : ℕ) (h : x < 256) where
  pub bit_and_top1 : bit_and 0x80 x ≡ x / 128 * 128
  unfolding all_below
  bit_and_top1 =
      (==_iff _ _).0 (all_below_sound (λ b. bit_and 0x80 b == b / 128 * 128) 256 x refl h)

  pub bit_and_top2 : bit_and 0xc0 x ≡ x / 64 * 64
  unfolding all_below
  bit_and_top2 = (==_iff _ _).0 (all_below_sound (λ b. bit_and 0xc0 b == b / 64 * 64) 256 x refl h)

  pub bit_and_top3 : bit_and 0xe0 x ≡ x / 32 * 32
  unfolding all_below
  bit_and_top3 = (==_iff _ _).0 (all_below_sound (λ b. bit_and 0xe0 b == b / 32 * 32) 256 x refl h)

  pub bit_and_top4 : bit_and 0xf0 x ≡ x / 16 * 16
  unfolding all_below
  bit_and_top4 = (==_iff _ _).0 (all_below_sound (λ b. bit_and 0xf0 b == b / 16 * 16) 256 x refl h)

  pub bit_and_top5 : bit_and 0xf8 x ≡ x / 8 * 8
  unfolding all_below
  bit_and_top5 = (==_iff _ _).0 (all_below_sound (λ b. bit_and 0xf8 b == b / 8 * 8) 256 x refl h)
