-- ===== src/LibC/Tests.antt =====
-- src/lib/libkc++.cpp: the functions on small memories, and the theorems applied to them.
use mayv.Prelude.{ℕ, zero, suc, ◌+◌, ◌<◌, ◌≡◌, refl, arith, inr, ◌≢◌, none, some, [], ◌∷◌, get_or}
use mayv.LibC.Strings.{Memory, pos, negsuc, sub_ℕ, strlen_loop, strlen, strcmp, strncmp, memcmp}
use mayv.LibC.Copying.{memcpy, copy_back, memmove, memset}
use mayv.LibC.CopyLaws.{copied, filled, memcpy_lem, memmove_lem, memset_lem}
use mayv.LibC.StringLaws.{sign, strlen_lem}

-- "abc" at 0, "abd" at 4 and zeros after them
abbrev strings : Memory
strings a = get_or (97 ∷ 98 ∷ 99 ∷ 0 ∷ 97 ∷ 98 ∷ 100 ∷ []) a 0

program : Unit {0}
unfolding sub_ℕ strlen_loop strlen strcmp strncmp memcmp memcpy copy_back memmove memset sign
program = tt

strlen_abc : strlen 10 strings 4 ≡ some 3
unfolding program
strlen_abc = refl

strlen_out_of_fuel : strlen 3 strings 4 ≡ none
unfolding program
strlen_out_of_fuel = refl

strcmp_abc : strcmp 10 strings 0 4 ≡ some (negsuc 0)
unfolding program
strcmp_abc = refl

strncmp_ab : strncmp strings 0 4 2 ≡ pos 0
unfolding program
strncmp_ab = refl

memcmp_abc : memcmp strings 4 0 3 ≡ pos 1
unfolding program
memcmp_abc = refl

-- An overlapping move by one byte upwards: "abc" becomes "aabc".
memmove_up : memmove strings 1 0 3 3 ≡ 99
unfolding program
memmove_up = refl

memcpy_smears : memcpy strings 1 0 3 3 ≡ 97
unfolding program
memcpy_smears = refl

memset_low_byte : memset strings 2 0x141 2 3 ≡ 0x41
unfolding program
memset_low_byte = refl

memcpy_lem_example : memcpy strings 8 0 4 9 ≡ copied strings 8 0 4 9
memcpy_lem_example = memcpy_lem strings 8 0 4 (inr (omega arith)) 9

memmove_lem_example : memmove strings 1 0 3 3 ≡ copied strings 1 0 3 3
memmove_lem_example = memmove_lem strings 1 0 3 3

memset_lem_example : memset strings 2 0x141 2 3 ≡ filled strings 2 0x41 2 3
memset_lem_example = memset_lem strings 2 0x141 2 3

ab_nonzero : (i : ℕ) → i < 2 → strings (0 + i) ≢ 0
ab_nonzero zero l = omega arith
ab_nonzero (suc zero) l = omega arith
ab_nonzero (suc (suc i)) l = ground arith

abd_nonzero : (i : ℕ) → i < 3 → strings (4 + i) ≢ 0
abd_nonzero zero l = omega arith
abd_nonzero (suc zero) l = omega arith
abd_nonzero (suc (suc zero)) l = omega arith
abd_nonzero (suc (suc (suc i))) l = ground arith

ab_same : (i : ℕ) → i < 2 → strings (0 + i) ≡ strings (4 + i)
ab_same zero l = refl
ab_same (suc zero) l = refl
ab_same (suc (suc i)) l = ground arith

strlen_lem_example : strlen 10 strings 4 ≡ some 3
strlen_lem_example = strlen_lem 10 strings 4 3 abd_nonzero refl (omega arith)
