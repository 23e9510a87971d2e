-- ===== src/Unicode/Decode.antt =====
-- src/boot/unicode.cpp: `toCodePoint` of a UTF-8 sequence, and `isValidUtf8`.
use Prim.Native.Nat.{bit_and, bit_or}
use mayv.Prelude.{
  ℕ, zero, suc, ◌*◌, ◌^◌, Bool, true, false, ◌&&◌, ltb, ◌==◌, if◌then◌else◌, List, [], ◌∷◌, length,
  get_or, drop,
}
use mayv.Unicode.Encode.{no_code_point}

-- The tests on the upper bits of a byte.
unfoldable pub is_ascii : ℕ → Bool
is_ascii b = bit_and 0x80 b == 0

unfoldable pub is_lead2 : ℕ → Bool
is_lead2 b = bit_and 0xe0 b == 0xc0

unfoldable pub is_lead3 : ℕ → Bool
is_lead3 b = bit_and 0xf0 b == 0xe0

unfoldable pub is_lead4 : ℕ → Bool
is_lead4 b = bit_and 0xf8 b == 0xf0

unfoldable pub is_continuation : ℕ → Bool
is_continuation b = bit_and 0xc0 b == 0x80

-- `toCodePoint(std::string)`
unfoldable pub to_code_point : List ℕ → ℕ
to_code_point str =
    let a = get_or str 0 0 in
    let b = get_or str 1 0 in
    let c = get_or str 2 0 in
    let d = get_or str 3 0 in
    if is_ascii a && 1 == length str
    then a
    else if is_lead2 a && (2 == length str && is_continuation b)
    then bit_or (bit_and a 0x1f * 2 ^ 6) (bit_and b 0x3f)
    else if is_lead3 a && (3 == length str && (is_continuation b && is_continuation c))
    then bit_or (bit_or (bit_and a 0x0f * 2 ^ 12) (bit_and b 0x3f * 2 ^ 6)) (bit_and c 0x3f)
    else if is_lead4 a
        && (4 == length str && (is_continuation b && (is_continuation c && is_continuation d)))
    then bit_or
        (bit_or (bit_or (bit_and a 0x07 * 2 ^ 18) (bit_and b 0x3f * 2 ^ 12))
          (bit_and c 0x3f * 2 ^ 6))
        (bit_and d 0x3f)
    else no_code_point

-- One round of the loop of `isValidUtf8` on the bytes from `str[i]` on: by how much `i` grows, or 0
-- for `return false`.
unfoldable pub sequence_length : List ℕ → ℕ
sequence_length rest =
    let a = get_or rest 0 0 in
    let b = get_or rest 1 0 in
    let c = get_or rest 2 0 in
    let d = get_or rest 3 0 in
    if is_ascii a
    then 1
    else if is_lead2 a && (ltb 1 (length rest) && is_continuation b)
    then 2
    else if is_lead3 a && (ltb 2 (length rest) && (is_continuation b && is_continuation c))
    then 3
    else if is_lead4 a
        && (ltb 3 (length rest) && (is_continuation b && (is_continuation c && is_continuation d)))
    then 4
    else 0

-- `for (i = 0; i < length;)` on the bytes from `str[i]` on.
unfoldable pub valid_loop : ℕ → List ℕ → Bool
valid_loop fuel [] = true
valid_loop zero (x ∷ rest) = false
valid_loop (suc fuel) (x ∷ rest) =
    let n = sequence_length (x ∷ rest) in
    let next = valid_loop fuel (drop n (x ∷ rest)) in if n == 0 then false else next

-- `isValidUtf8`. Each round takes a byte at least, so the length is enough fuel.
unfoldable pub is_valid_utf8 : List ℕ → Bool
is_valid_utf8 str = valid_loop (length str) str
