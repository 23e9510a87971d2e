-- ===== src/LibC/StringLaws.antt =====
-- src/lib/libkc++.cpp: what the string functions return.
use mayv.Prelude.{
  ℕ, zero, suc, ◌+◌, ◌<◌, ◌≡◌, refl, ap, sym, ◌∙◌, ltb, ◌==◌, if◌then◌else◌, arith, ◌≢◌, some, ◌⊎◌,
}
use mayv.LibC.Strings.{Memory, ℤ, pos, negsuc, sub_ℕ, strlen_loop, strlen, strcmp, strncmp, memcmp}

-- The `n` bytes at `str` are not zero.
abbrev pub NonZero : Memory → ℕ → ℕ → Type 0
NonZero mem str n = (i : ℕ) → i < n → mem (str + i) ≢ 0

-- The `n` bytes at `s1` are those at `s2`.
abbrev pub Same : Memory → ℕ → ℕ → ℕ → Type 0
Same mem s1 s2 n = (i : ℕ) → i < n → mem (s1 + i) ≡ mem (s2 + i)

at_start : (mem : Memory) (str : ℕ) → mem (str + 0) ≡ mem str
at_start mem str = ap mem (omega arith)

at_next : (mem : Memory) (str i : ℕ) → mem (str + 1 + i) ≡ mem (str + suc i)
at_next mem str i = ap mem (omega arith)

NonZero-head : (mem : Memory) (str n : ℕ) → NonZero mem str (suc n) → mem str ≢ 0
NonZero-head mem str n nonzero e = nonzero 0 (omega arith) (at_start mem str ∙ e)

NonZero-tail : (mem : Memory) (str n : ℕ) → NonZero mem str (suc n) → NonZero mem (str + 1) n
NonZero-tail mem str n nonzero i h e = nonzero (suc i) (omega arith) (sym (at_next mem str i) ∙ e)

Same-head : (mem : Memory) (s1 s2 n : ℕ) → Same mem s1 s2 (suc n) → mem s1 ≡ mem s2
Same-head mem s1 s2 n same = sym (at_start mem s1) ∙ same 0 (omega arith) ∙ at_start mem s2

Same-tail : (mem : Memory) (s1 s2 n : ℕ) → Same mem s1 s2 (suc n) → Same mem (s1 + 1) (s2 + 1) n
Same-tail mem s1 s2 n same i h =
    at_next mem s1 i ∙ same (suc i) (omega arith) ∙ sym (at_next mem s2 i)

strlen_loop_lem :
    (fuel : ℕ) (mem : Memory) (str len n : ℕ)
    → NonZero mem str n
    → mem (str + n) ≡ 0
    → n < fuel
    → strlen_loop fuel mem str len ≡ some (len + n)
unfolding strlen_loop
strlen_loop_lem zero mem str len n nonzero ends h = ground arith
strlen_loop_lem (suc fuel) mem str len zero nonzero ends h = ground (arith, at_start mem str)
strlen_loop_lem (suc fuel) mem str len (suc n) nonzero ends h = ground (
  arith,
  NonZero-head mem str n nonzero,
  strlen_loop_lem fuel mem (str + 1) (len + 1) n (NonZero-tail mem str n nonzero)
      (at_next mem str n ∙ ends) (omega arith),
)

-- On a string whose first zero byte is its `n`th, `strlen` returns `n` as soon as its fuel exceeds `n`.
pub strlen_lem :
    (fuel : ℕ) (mem : Memory) (str n : ℕ)
    → NonZero mem str n
    → mem (str + n) ≡ 0
    → n < fuel
    → strlen fuel mem str ≡ some n
unfolding strlen
strlen_lem fuel mem str n nonzero ends h =
    ground (arith, strlen_loop_lem fuel mem str 0 n nonzero ends h)

stops_next :
    (mem : Memory) (str1 str2 n : ℕ)
    → (mem (str1 + suc n) ≡ 0) ⊎ (mem (str1 + suc n) ≢ mem (str2 + suc n))
    → (mem (str1 + 1 + n) ≡ 0) ⊎ (mem (str1 + 1 + n) ≢ mem (str2 + 1 + n))
stops_next mem str1 str2 n stops = ground (arith, at_next mem str1 n, at_next mem str2 n)

differs_next :
    (mem : Memory) (s1 s2 n : ℕ)
    → mem (s1 + suc n) ≢ mem (s2 + suc n)
    → mem (s1 + 1 + n) ≢ mem (s2 + 1 + n)
differs_next mem s1 s2 n differs = ground (arith, at_next mem s1 n, at_next mem s2 n)

-- If the first `n` bytes of two strings are the same and none of them is zero, and at the `n`th byte
-- the first string ends or the two differ, then `strcmp` with more than `n` of fuel returns the
-- difference of the two strings' `n`th bytes.
pub strcmp_lem :
    (fuel : ℕ) (mem : Memory) (str1 str2 n : ℕ)
    → NonZero mem str1 n
    → Same mem str1 str2 n
    → (mem (str1 + n) ≡ 0) ⊎ (mem (str1 + n) ≢ mem (str2 + n))
    → n < fuel
    → strcmp fuel mem str1 str2 ≡ some (sub_ℕ (mem (str1 + n)) (mem (str2 + n)))
unfolding strcmp
strcmp_lem zero mem str1 str2 n nonzero same stops h = ground arith
strcmp_lem (suc fuel) mem str1 str2 zero nonzero same stops h =
    ground (arith, at_start mem str1, at_start mem str2)
strcmp_lem (suc fuel) mem str1 str2 (suc n) nonzero same stops h = ground (
  arith,
  NonZero-head mem str1 n nonzero,
  Same-head mem str1 str2 n same,
  strcmp_lem fuel mem (str1 + 1) (str2 + 1) n (NonZero-tail mem str1 n nonzero)
      (Same-tail mem str1 str2 n same) (stops_next mem str1 str2 n stops) (omega arith),
  at_next mem str1 n,
  at_next mem str2 n,
)

-- `strncmp` returns zero on two strings that are the same over `count` bytes.
pub strncmp-Same :
    (mem : Memory) (str1 str2 count : ℕ)
    → Same mem str1 str2 count
    → strncmp mem str1 str2 count ≡ pos 0
unfolding strncmp
strncmp-Same mem str1 str2 zero same = refl
strncmp-Same mem str1 str2 (suc count) same = ground (
  arith,
  Same-head mem str1 str2 count same,
  strncmp-Same mem (str1 + 1) (str2 + 1) count (Same-tail mem str1 str2 count same),
)

-- If the first `n` bytes of two strings are the same and none of them is zero, and the `n`th bytes
-- differ, with `n` below `count`, then `strncmp` returns the difference of the `n`th bytes.
pub strncmp_lem :
    (mem : Memory) (str1 str2 count n : ℕ)
    → NonZero mem str1 n
    → Same mem str1 str2 n
    → mem (str1 + n) ≢ mem (str2 + n)
    → n < count
    → strncmp mem str1 str2 count ≡ sub_ℕ (mem (str1 + n)) (mem (str2 + n))
unfolding strncmp
strncmp_lem mem str1 str2 zero n nonzero same differs h = ground arith
strncmp_lem mem str1 str2 (suc count) zero nonzero same differs h =
    ground (arith, at_start mem str1, at_start mem str2)
strncmp_lem mem str1 str2 (suc count) (suc n) nonzero same differs h = ground (
  arith,
  NonZero-head mem str1 n nonzero,
  Same-head mem str1 str2 n same,
  strncmp_lem mem (str1 + 1) (str2 + 1) count n (NonZero-tail mem str1 n nonzero)
      (Same-tail mem str1 str2 n same) (differs_next mem str1 str2 n differs) (omega arith),
  at_next mem str1 n,
  at_next mem str2 n,
)

-- The sign of a comparison of two bytes, as `memcmp` returns it.
unfoldable pub sign : ℕ → ℕ → ℤ
sign a b = if a == b then pos 0 else (if ltb a b then negsuc 0 else pos 1)

-- If the first `n` bytes of two ranges are the same and the `n`th bytes differ, with `n` below
-- `count`, then `memcmp` returns -1 when the first range's `n`th byte is the smaller and 1 otherwise.
pub memcmp_lem :
    (mem : Memory) (s1 s2 count n : ℕ)
    → Same mem s1 s2 n
    → mem (s1 + n) ≢ mem (s2 + n)
    → n < count
    → memcmp mem s1 s2 count ≡ sign (mem (s1 + n)) (mem (s2 + n))
unfolding memcmp sign
memcmp_lem mem s1 s2 zero n same differs h = ground arith
memcmp_lem mem s1 s2 (suc count) zero same differs h =
    ground (arith, at_start mem s1, at_start mem s2)
memcmp_lem mem s1 s2 (suc count) (suc n) same differs h = ground (
  arith,
  Same-head mem s1 s2 n same,
  memcmp_lem mem (s1 + 1) (s2 + 1) count n (Same-tail mem s1 s2 n same)
      (differs_next mem s1 s2 n differs) (omega arith),
  at_next mem s1 n,
  at_next mem s2 n,
)
