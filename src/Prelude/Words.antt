-- ===== src/Prelude/Words.antt =====
-- Unsigned 64-bit words as native numbers: sums and differences wrap at 2^64.
use Prim.Native.Nat.{ℕ, ◌+◌, ◌-◌, ◌%◌, ◌^◌, bit_and}
use mathlib.Core.Bool.{Bool, not}
use mayv.Prelude.Tests.{◌==◌}

abbrev pub word : ℕ
word = 2 ^ 64

-- `SIZE_MAX` and `UINT64_MAX`
abbrev pub size_max : ℕ
size_max = word - 1

abbrev pub add64 : ℕ → ℕ → ℕ
add64 a b = (a + b) % word

abbrev pub sub64 : ℕ → ℕ → ℕ
sub64 a b = (a + word - b) % word

-- `flags & f`, as a condition.
unfoldable pub has_flag : ℕ → ℕ → Bool
has_flag flags f = not (bit_and flags f == 0)
