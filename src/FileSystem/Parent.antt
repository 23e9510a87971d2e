-- ===== src/FileSystem/Parent.antt =====
-- `splitParentDirectory` splits a path behind the slash in front of its last name.
use mayv.Prelude.{
  ℕ, zero, suc, ◌+◌, ◌-◌, ◌≤◌, ◌<◌, ◌≡◌, refl, ap, sym, ◌∙◌, true, false, ◌&&◌, ◌==◌, arith, ◌≢◌,
  List, [], ◌∷◌, ◌++◌, length, get_or, take, drop, length-append,
}
use mathlib.Core.List.{append-nil}
use mayv.FileSystem.Paths.{slash, back, last_slash, split_parent_directory}
use mayv.FileSystem.Splitting.{IsName, back-append, back-IsName, at_index}

get_or-append : (xs ys : List ℕ) (k : ℕ) → get_or (xs ++ ys) (length xs + k) 0 ≡ get_or ys k 0
get_or-append [] ys k = at_index ys (0 + k) k (omega arith)
get_or-append (x ∷ xs) ys k =
    at_index (x ∷ (xs ++ ys)) (length (x ∷ xs) + k) (suc (length xs + k)) (omega arith)
    ∙ get_or-append xs ys k

take-append : (xs ys : List ℕ) → take (length xs) (xs ++ ys) ≡ xs
take-append [] ys = refl
take-append (x ∷ xs) ys = rw (take-append xs ys) refl

drop-append : (xs ys : List ℕ) → drop (length xs) (xs ++ ys) ≡ ys
drop-append [] ys = refl
drop-append (x ∷ xs) ys = drop-append xs ys

get_or-IsName :
    (name rest : List ℕ) (k : ℕ) → IsName name → k < length name → get_or (name ++ rest) k 0 ≢ slash
get_or-IsName [] rest k h lt = ground arith
get_or-IsName (c ∷ name) rest zero (no_slash, h) lt = no_slash
get_or-IsName (c ∷ name) rest (suc k) (no_slash, h) lt =
    get_or-IsName name rest k h (omega (arith, lt))

module _ (front name rest : List ℕ) (h : IsName name) where
  abbrev path : List ℕ
  path = front ++ slash ∷ (name ++ rest)

  same_count : (i j : ℕ) → i ≡ j → last_slash path i ≡ last_slash path j
  same_count i j e = rw e refl

  last_slash_found :
      (k : ℕ) → k ≤ length name → last_slash path (suc (length front + k)) ≡ suc (length front)
  unfolding last_slash
  last_slash_found zero le = ground (arith, get_or-append front (slash ∷ (name ++ rest)) 0)
  last_slash_found (suc k) le = ground (
    arith,
    get_or-append front (slash ∷ (name ++ rest)) (suc k),
    get_or-IsName name rest k h le,
    same_count (length front + suc k) (suc (length front + k)) (omega arith),
    last_slash_found k (omega (arith, le)),
  )

back_one : (c : ℕ) → back (c ∷ []) ≡ c
unfolding back
back_one c = refl

take-slash :
    (front ys : List ℕ) → take (suc (length front)) (front ++ slash ∷ ys) ≡ front ++ slash ∷ []
take-slash [] [] = refl
take-slash [] (y ∷ ys) = refl
take-slash (x ∷ front) ys = rw (take-slash front ys) refl

drop-slash : (front ys : List ℕ) → drop (suc (length front)) (front ++ slash ∷ ys) ≡ ys
drop-slash [] [] = refl
drop-slash [] (y ∷ ys) = refl
drop-slash (x ∷ front) ys = drop-slash front ys

take_from : (n : ℕ) (xs ys : List ℕ) → n ≡ length xs → take n (xs ++ ys) ≡ xs
take_from n xs ys e = rw e (take-append xs ys)

take_whole : (n : ℕ) (xs : List ℕ) → n ≡ length xs → take n xs ≡ xs
take_whole n xs e = ap (take n) (sym (append-nil xs)) ∙ take_from n xs [] e

-- `splitParentDirectory` splits the path of a file behind its last slash, where the name behind that
-- slash is not empty and has no slash in it.
pub split_parent_directory-file :
    (front : List ℕ) (c : ℕ) (name : List ℕ)
    → IsName (c ∷ name)
    → split_parent_directory (front ++ slash ∷ c ∷ name) ≡ (front ++ slash ∷ [], c ∷ name)
unfolding split_parent_directory
split_parent_directory-file front c name h =
    let path : List ℕ = front ++ slash ∷ c ∷ name in
    let at_end = back-append front slash (c ∷ name) ∙ back-append (slash ∷ []) c name in
    let not_slash : (back path == slash) ≡ false = ground (arith, at_end, back-IsName c name h) in
    let guard : (length path == 1 && back path == slash) ≡ false = ground (arith, not_slash) in
    let size = length-append front (slash ∷ c ∷ name) in
    let found : last_slash path (length path) ≡ suc (length front) =
      ap (λ ys. last_slash (front ++ slash ∷ c ∷ ys) (length path)) (sym (append-nil name))
      ∙ same_count front (c ∷ name) [] h (length path) (suc (length front + length (c ∷ name)))
          (omega (arith, size))
      ∙ last_slash_found front (c ∷ name) [] h (length (c ∷ name)) (omega arith) in
    let whole =
      take_whole (length path - suc (length front) - 0) (c ∷ name) (omega (arith, size)) in
    rw (guard, not_slash, found, take-slash front (c ∷ name), drop-slash front (c ∷ name), whole)
      refl

-- `splitParentDirectory` splits the path of a directory, which ends with a slash, in front of its last
-- name and leaves the last slash out, where that name is not empty and has no slash in it.
pub split_parent_directory-directory :
    (front : List ℕ) (c : ℕ) (name : List ℕ)
    → IsName (c ∷ name)
    → split_parent_directory (front ++ slash ∷ ((c ∷ name) ++ slash ∷ []))
      ≡ (front ++ slash ∷ [], c ∷ name)
unfolding split_parent_directory
split_parent_directory-directory front c name h =
    let path : List ℕ = front ++ slash ∷ ((c ∷ name) ++ slash ∷ []) in
    let at_end =
      back-append front slash ((c ∷ name) ++ slash ∷ [])
      ∙ back-append (slash ∷ c ∷ name) slash [] in
    let is_slash : (back path == slash) ≡ true = ground (arith, at_end, back_one slash) in
    let size = length-append front (slash ∷ ((c ∷ name) ++ slash ∷ [])) in
    let name_size = length-append name (slash ∷ []) in
    let guard : (length path == 1 && back path == slash) ≡ false =
      ground (arith, size, name_size) in
    let found : last_slash path (length path - 1) ≡ suc (length front) =
      same_count front (c ∷ name) (slash ∷ []) h (length path - 1)
        (suc (length front + length (c ∷ name))) (omega (arith, size, name_size))
      ∙ last_slash_found front (c ∷ name) (slash ∷ []) h (length (c ∷ name)) (omega arith) in
    let part =
      take_from (length path - suc (length front) - 1) (c ∷ name) (slash ∷ [])
        (omega (arith, size, name_size)) in
    rw
      (
        guard,
        is_slash,
        found,
        take-slash front ((c ∷ name) ++ slash ∷ []),
        drop-slash front ((c ∷ name) ++ slash ∷ []),
        part,
      )
      refl
