-- ===== src/FileSystem/Splitting.antt =====
-- Splitting a path gives back the names that it was put together from.
use mayv.Prelude.{
  ℕ, suc, ◌-◌, ◌<◌, ◌≡◌, refl, ap, sym, ◌∙◌, false, ◌==◌, if_elim, arith, ◌≢◌, List, [], ◌∷◌, ◌++◌,
  length, get_or, length-append,
}
use mathlib.Core.List.{append-nil, append_assoc}
use mayv.FileSystem.Paths.{slash, back, split_loop, split_absolute_path}

-- The path of the directory that the names lead to, without the first slash.
abbrev pub names_path : List (List ℕ) → List ℕ
names_path [] = []
names_path (name ∷ names) = name ++ slash ∷ names_path names

abbrev pub directory_path : List (List ℕ) → List ℕ
directory_path names = slash ∷ names_path names

-- A name has no slash.
abbrev pub IsName : List ℕ → Type 0
IsName [] = Unit {0}
IsName (c ∷ rest) = (c ≢ slash) × IsName rest

abbrev pub AllNames : List (List ℕ) → Type 0
AllNames [] = Unit {0}
AllNames (name ∷ names) = IsName name × AllNames names

append_one : (xs : List ℕ) (c : ℕ) (ys : List ℕ) → xs ++ c ∷ ys ≡ (xs ++ c ∷ []) ++ ys
append_one xs c ys = sym (append_assoc xs (c ∷ []) ys)

split_loop-name :
    (part name rest : List ℕ)
    → IsName name
    → split_loop part (name ++ rest) ≡ split_loop (part ++ name) rest
unfolding split_loop
split_loop-name part [] rest h = rw (append-nil part) refl
split_loop-name part (c ∷ name) rest (no_slash, h) =
    if_elim (λ r. r ≡ split_loop (part ++ c ∷ name) rest) (c == slash) (λ e. ground arith)
      (λ e. rw (append_one part c name) (split_loop-name (part ++ c ∷ []) name rest h))

split_loop-names :
    (names : List (List ℕ)) (tail : List ℕ)
    → AllNames names
    → IsName tail
    → split_loop [] (names_path names ++ tail) ≡ (names, tail)
unfolding split_loop
split_loop-names [] tail h t =
    ap (split_loop []) (sym (append-nil tail)) ∙ split_loop-name [] tail [] t
split_loop-names (name ∷ names) tail (is_name, h) t =
    ap (split_loop []) (append_assoc name (slash ∷ names_path names) tail)
    ∙ split_loop-name [] name (slash ∷ (names_path names ++ tail)) is_name
    ∙ rw (split_loop-names names tail h t) refl

pub at_index : (xs : List ℕ) (i j : ℕ) → i ≡ j → get_or xs i 0 ≡ get_or xs j 0
at_index xs i j h = rw h refl

back_cons : (x : ℕ) (xs : List ℕ) → 0 < length xs → back (x ∷ xs) ≡ back xs
unfolding back
back_cons x xs h = at_index (x ∷ xs) (length (x ∷ xs) - 1) (suc (length xs - 1)) (omega (arith, h))

pub back-append : (xs : List ℕ) (y : ℕ) (ys : List ℕ) → back (xs ++ y ∷ ys) ≡ back (y ∷ ys)
back-append [] y ys = refl
back-append (x ∷ xs) y ys =
    back_cons x (xs ++ y ∷ ys) (omega (arith, length-append xs (y ∷ ys))) ∙ back-append xs y ys

back-names_path : (names : List (List ℕ)) → back (slash ∷ names_path names) ≡ slash
unfolding back
back-names_path [] = refl
back-names_path (name ∷ names) =
    back-append (slash ∷ name) slash (names_path names) ∙ back-names_path names

pub back-IsName : (c : ℕ) (name : List ℕ) → IsName (c ∷ name) → back (c ∷ name) ≢ slash
unfolding back
back-IsName c [] (no_slash, h) e = no_slash e
back-IsName c (d ∷ name) (no_slash, h) e =
    back-IsName d name h (sym (back_cons c (d ∷ name) (omega arith)) ∙ e)

-- `splitAbsolutePath` of the path that leads through directories, with a slash behind the last, gives
-- their names back, where no name has a slash in it.
pub split_absolute_path-directory_path :
    (names : List (List ℕ)) → AllNames names → split_absolute_path (directory_path names) ≡ names
unfolding split_absolute_path
split_absolute_path-directory_path names h =
    let parts =
      ap (split_loop []) (sym (append-nil (names_path names))) ∙ split_loop-names names [] h tt in
    rw (parts, back-names_path names) refl

-- `splitAbsolutePath` of the path of a file gives back the names of the directories that lead to it
-- and its own, where no name has a slash in it and the file's is not empty.
pub split_absolute_path-file :
    (names : List (List ℕ)) (c : ℕ) (name : List ℕ)
    → AllNames names
    → IsName (c ∷ name)
    → split_absolute_path (directory_path names ++ c ∷ name) ≡ names ++ (c ∷ name) ∷ []
unfolding split_absolute_path
split_absolute_path-file names c name h file =
    let parts = split_loop-names names (c ∷ name) h file in
    let at_end = back-append (directory_path names) c name in
    let not_slash : (back (directory_path names ++ c ∷ name) == slash) ≡ false =
      ground (arith, at_end, back-IsName c name file) in
    rw (parts, not_slash) refl
