-- ===== src/LibC/Strings.antt =====
-- src/lib/libkc++.cpp: `strlen`, `strcmp`, `strncmp` and `memcmp`. A `char` is its byte; the int that
-- a comparison returns is the difference of two bytes, so it is an integer of the library's kind over
-- native numbers. The loops over a terminated string take fuel, and `none` means that it ran out.
use mayv.Prelude.{
  ℕ, zero, suc, ◌+◌, ◌-◌, not, ◌&&◌, ltb, leb, ◌==◌, if◌then◌else◌, Option, none, some,
}

abbrev pub Memory : Type 0
Memory = ℕ → ℕ

-- `negsuc n` is -(n + 1).
pub data ℤ : Type 0 where
  pos : ℕ → ℤ
  negsuc : ℕ → ℤ

-- a - b
unfoldable pub sub_ℕ : ℕ → ℕ → ℤ
sub_ℕ a b = if leb b a then pos (a - b) else negsuc (b - a - 1)

-- `while (*str++) { ++length; }`
unfoldable pub strlen_loop : ℕ → Memory → ℕ → ℕ → Option ℕ
strlen_loop zero mem str len = none
strlen_loop (suc fuel) mem str len =
    let rest = strlen_loop fuel mem (str + 1) (len + 1) in if mem str == 0 then some len else rest

unfoldable pub strlen : ℕ → Memory → ℕ → Option ℕ
strlen fuel mem str = strlen_loop fuel mem str 0

unfoldable pub strcmp : ℕ → Memory → ℕ → ℕ → Option ℤ
strcmp zero mem str1 str2 = none
strcmp (suc fuel) mem str1 str2 =
    let rest = strcmp fuel mem (str1 + 1) (str2 + 1) in
    if not (mem str1 == 0) && mem str1 == mem str2 then rest else some (sub_ℕ (mem str1) (mem str2))

-- The `do … while (--count != 0)` with `count` rounds to go.
unfoldable pub strncmp : Memory → ℕ → ℕ → ℕ → ℤ
strncmp mem str1 str2 zero = pos 0
strncmp mem str1 str2 (suc count) =
    let rest = strncmp mem (str1 + 1) (str2 + 1) count in
    if mem str1 == mem str2
    then (if mem str1 == 0 then pos 0 else rest)
    else sub_ℕ (mem str1) (mem str2)

unfoldable pub memcmp : Memory → ℕ → ℕ → ℕ → ℤ
memcmp mem s1 s2 zero = pos 0
memcmp mem s1 s2 (suc count) =
    let rest = memcmp mem (s1 + 1) (s2 + 1) count in
    if mem s1 == mem s2 then rest else (if ltb (mem s1) (mem s2) then negsuc 0 else pos 1)
