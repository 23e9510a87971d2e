-- ===== src/FileSystem/Paths.antt =====
-- src/drivers/filesystems.cpp: `isValidAbsolutePath`, `splitParentDirectory` and `splitAbsolutePath`. A
-- path is a list of bytes. `char` is signed on the target, so a byte above 0x7f is no control character.
use mayv.Prelude.{
  ℕ, zero, suc, ◌-◌, Bool, true, false, ◌&&◌, ◌||◌, leb, ◌==◌, if◌then◌else◌, List, [], ◌∷◌, ◌++◌,
  length, get_or, take, drop,
}
use mayv.Unicode.Decode.{is_valid_utf8}

-- '/'
abbrev pub slash : ℕ
slash = 0x2f

-- a control character, '\\' or '|'
unfoldable pub is_forbidden : ℕ → Bool
is_forbidden c = leb c 0x1f || c == 0x5c || c == 0x7c

-- The loop over the characters behind `previous`.
unfoldable pub valid_characters : ℕ → List ℕ → Bool
valid_characters previous [] = true
valid_characters previous (c ∷ rest) =
    let others = valid_characters c rest in
    if c == slash && previous == slash then false else (if is_forbidden c then false else others)

unfoldable pub is_valid_absolute_path : List ℕ → Bool
is_valid_absolute_path [] = false
is_valid_absolute_path (c ∷ rest) =
    is_valid_utf8 (c ∷ rest) && c == slash && valid_characters c rest

-- `absolutePath.back()`
unfoldable pub back : List ℕ → ℕ
back path = get_or path (length path - 1) 0

-- The loop of `splitAbsolutePath`: `part` are the bytes from `pos` on that it has passed. The result is
-- the parts that it pushes, and the bytes from the last `pos` on.
unfoldable pub split_loop : List ℕ → List ℕ → List (List ℕ) × List ℕ
split_loop part [] = ([], part)
split_loop part (c ∷ rest) =
    let (after, tail) = split_loop [] rest in
    let longer = split_loop (part ++ c ∷ []) rest in
    if c == slash then (part ∷ after, tail) else longer

unfoldable pub split_absolute_path : List ℕ → List (List ℕ)
split_absolute_path path =
    let (parts, tail) = split_loop [] (drop 1 path) in
    if back path == slash then parts else parts ++ tail ∷ []

-- The loop of `splitParentDirectory`, which counts `length` down. The argument and the result are
-- `length + 1`, so 0 stands for -1.
unfoldable pub last_slash : List ℕ → ℕ → ℕ
last_slash path zero = 0
last_slash path (suc index) =
    let lower = last_slash path index in if get_or path index 0 == slash then suc index else lower

unfoldable pub split_parent_directory : List ℕ → List ℕ × List ℕ
split_parent_directory path =
    let is_dir = back path == slash in
    let found = last_slash path (if is_dir then length path - 1 else length path) in
    if length path == 1 && back path == slash
    then (path, [])
    else (take found path, take (length path - found - (if is_dir then 1 else 0)) (drop found path))
