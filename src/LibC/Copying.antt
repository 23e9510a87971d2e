-- ===== src/LibC/Copying.antt =====
-- src/lib/libkc++.cpp: `memcpy`, `memmove` and `memset`. Each returns the memory after the call; the
-- address that the C function returns is its argument.
use mayv.Prelude.{ℕ, zero, suc, ◌+◌, ◌%◌, ltb, if◌then◌else◌}
use mayv.Prelude.Memory.{update}
use mayv.LibC.Strings.{Memory}

-- `while (count--) { *d++ = *s++; }`
unfoldable pub memcpy : Memory → ℕ → ℕ → ℕ → Memory
memcpy mem dest src zero = mem
memcpy mem dest src (suc count) = memcpy (update mem dest (mem src)) (dest + 1) (src + 1) count

-- `while (count--) { *lastd-- = *lasts--; }`, where `lastd` and `lasts` are the addresses of the last
-- of the `count` bytes left
unfoldable pub copy_back : Memory → ℕ → ℕ → ℕ → Memory
copy_back mem dest src zero = mem
copy_back mem dest src (suc count) =
    copy_back (update mem (dest + count) (mem (src + count))) dest src count

unfoldable pub memmove : Memory → ℕ → ℕ → ℕ → Memory
memmove mem dest src count =
    if ltb dest src then memcpy mem dest src count else copy_back mem dest src count

-- `*ptr++ = value`, with the conversion of the int to a byte
unfoldable pub memset : Memory → ℕ → ℕ → ℕ → Memory
memset mem address value zero = mem
memset mem address value (suc count) =
    memset (update mem address (value % 256)) (address + 1) value count
