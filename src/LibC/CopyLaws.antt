-- ===== src/LibC/CopyLaws.antt =====
-- src/lib/libkc++.cpp: what `memcpy`, `memmove` and `memset` leave in memory.
use mayv.Prelude.{
  ℕ, zero, suc, ◌+◌, ◌-◌, ◌%◌, ◌≤◌, ◌≡◌, ap, ◌∙◌, ◌&&◌, ltb, leb, if◌then◌else◌, arith, inl, dec_lt,
  ℕ_discrete, ◌⊎◌,
}
use mayv.Prelude.Memory.{update}
use mayv.LibC.Strings.{Memory}
use mayv.LibC.Copying.{memcpy, copy_back, memmove, memset}

-- The memory `mem` with the `count` bytes at `dest` replaced by those that stood at `src`.
abbrev pub copied : Memory → ℕ → ℕ → ℕ → Memory
copied mem dest src count a =
    if leb dest a && ltb a (dest + count) then mem (src + (a - dest)) else mem a

-- The memory `mem` with the `count` bytes at `address` set to `byte`.
abbrev pub filled : Memory → ℕ → ℕ → ℕ → Memory
filled mem address byte count a = if leb address a && ltb a (address + count) then byte else mem a

at_same : (mem : Memory) (a b : ℕ) → a ≡ b → mem a ≡ mem b
at_same mem a b h = ap mem h

-- One byte copied forwards first.
copied_step :
    (mem : Memory) (dest src count : ℕ)
    → (dest ≤ src) ⊎ (src + suc count ≤ dest)
    → (a : ℕ)
    → copied (update mem dest (mem src)) (dest + 1) (src + 1) count a
      ≡ copied mem dest src (suc count) a
copied_step mem dest src count h a = elim (ℕ_discrete a dest) [
  | yes e ↦ ground (arith, at_same mem src (src + (a - dest)) (omega arith))
  | no e ↦ elim (dec_lt dest a) [
    | yes l ↦
        ground (arith, at_same mem (src + 1 + (a - (dest + 1))) (src + (a - dest)) (omega arith))
    | no l ↦ ground arith
  ]
]

-- One byte copied backwards first.
copied_step_back :
    (mem : Memory) (dest src count : ℕ)
    → src ≤ dest
    → (a : ℕ)
    → copied (update mem (dest + count) (mem (src + count))) dest src count a
      ≡ copied mem dest src (suc count) a
copied_step_back mem dest src count h a = elim (ℕ_discrete a (dest + count)) [
  | yes e ↦ ground (arith, at_same mem (src + count) (src + (a - dest)) (omega arith))
  | no e ↦ ground arith
]

filled_step :
    (mem : Memory) (address byte count : ℕ) (a : ℕ)
    → filled (update mem address byte) (address + 1) byte count a
      ≡ filled mem address byte (suc count) a
filled_step mem address byte count a = ground arith

-- When the destination does not start inside the source, `memcpy` leaves at the destination the bytes
-- that stood at the source before the call and changes no other byte.
pub memcpy_lem :
    (mem : Memory) (dest src count : ℕ)
    → (dest ≤ src) ⊎ (src + count ≤ dest)
    → (a : ℕ) → memcpy mem dest src count a ≡ copied mem dest src count a
unfolding memcpy
memcpy_lem mem dest src zero h a = ground arith
memcpy_lem mem dest src (suc count) h a =
    memcpy_lem (update mem dest (mem src)) (dest + 1) (src + 1) count (ground arith) a
    ∙ copied_step mem dest src count h a

copy_back_lem :
    (mem : Memory) (dest src count : ℕ)
    → src ≤ dest
    → (a : ℕ) → copy_back mem dest src count a ≡ copied mem dest src count a
unfolding copy_back
copy_back_lem mem dest src zero h a = ground arith
copy_back_lem mem dest src (suc count) h a =
    copy_back_lem (update mem (dest + count) (mem (src + count))) dest src count h a
    ∙ copied_step_back mem dest src count h a

-- Whatever the overlap of the two ranges, `memmove` leaves at the destination the bytes that stood at
-- the source before the call, and changes no other byte.
pub memmove_lem :
    (mem : Memory) (dest src count a : ℕ)
    → memmove mem dest src count a ≡ copied mem dest src count a
unfolding memmove
memmove_lem mem dest src count a = elim (dec_lt dest src) [
  | yes h ↦ ground (arith, memcpy_lem mem dest src count (inl (omega arith)) a)
  | no h ↦ ground (arith, copy_back_lem mem dest src count (omega arith) a)
]

-- `memset` sets every byte of its range to the lowest byte of `value`, and changes no other byte.
pub memset_lem :
    (mem : Memory) (address value count a : ℕ)
    → memset mem address value count a ≡ filled mem address (value % 256) count a
unfolding memset
memset_lem mem address value zero a = ground arith
memset_lem mem address value (suc count) a =
    memset_lem (update mem address (value % 256)) (address + 1) value count a
    ∙ filled_step mem address (value % 256) count a
