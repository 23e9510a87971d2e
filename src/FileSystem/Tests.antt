-- ===== src/FileSystem/Tests.antt =====
-- Runs of the path functions, and their theorems at concrete paths.
use mayv.Prelude.{
  ℕ, ◌≡◌, refl, true, false, arith, List, [], ◌∷◌, Option, none, some, if◌then◌else◌, ◌==◌,
}
use mayv.Unicode.Decode.{
  is_ascii, is_lead2, is_lead3, is_lead4, is_continuation, sequence_length, valid_loop,
  is_valid_utf8,
}
use mayv.FileSystem.Nodes.{
  Status, ok, Node, Files, is_open, same_name, find_child, find_file, create_children, next_node,
  walk_parts, get_info, read_found, read_directory, open_in, open_read, open_file,
}
use mayv.FileSystem.Descriptors.{Fresh, Opened}
use mayv.FileSystem.Opening.{open_file-Opened}
use mayv.FileSystem.Paths.{
  is_forbidden, valid_characters, is_valid_absolute_path, back, split_loop, split_absolute_path,
  last_slash, split_parent_directory,
}
use mayv.FileSystem.Splitting.{split_absolute_path-directory_path, split_absolute_path-file}
use mayv.FileSystem.Parent.{split_parent_directory-file, split_parent_directory-directory}

program : Unit {0}
unfolding is_forbidden valid_characters is_valid_absolute_path back split_loop split_absolute_path
    last_slash split_parent_directory is_ascii is_lead2 is_lead3 is_lead4 is_continuation
    sequence_length valid_loop is_valid_utf8
program = tt

-- "/a/bc"
abbrev file : List ℕ
file = 0x2f ∷ 0x61 ∷ 0x2f ∷ 0x62 ∷ 0x63 ∷ []

file_valid : is_valid_absolute_path file ≡ true
unfolding program
file_valid = refl

-- "/a//" and "/\\"
invalid :
    (is_valid_absolute_path (0x2f ∷ 0x61 ∷ 0x2f ∷ 0x2f ∷ []) ≡ false)
    × (is_valid_absolute_path (0x2f ∷ 0x5c ∷ []) ≡ false)
unfolding program
invalid = (refl, refl)

split_file : split_absolute_path file ≡ (0x61 ∷ []) ∷ (0x62 ∷ 0x63 ∷ []) ∷ []
unfolding program
split_file = refl

parent_of_file : split_parent_directory file ≡ (0x2f ∷ 0x61 ∷ 0x2f ∷ [], 0x62 ∷ 0x63 ∷ [])
unfolding program
parent_of_file = refl

-- "/" has no parent.
parent_of_root : split_parent_directory (0x2f ∷ []) ≡ (0x2f ∷ [], [])
unfolding program
parent_of_root = refl

split_absolute_path-directory_path_example :
    split_absolute_path (0x2f ∷ 0x61 ∷ 0x2f ∷ 0x62 ∷ 0x2f ∷ []) ≡ (0x61 ∷ []) ∷ (0x62 ∷ []) ∷ []
split_absolute_path-directory_path_example =
    split_absolute_path-directory_path ((0x61 ∷ []) ∷ (0x62 ∷ []) ∷ [])
      ((omega arith, tt), ((omega arith, tt), tt))

split_absolute_path-file_example : split_absolute_path file ≡ (0x61 ∷ []) ∷ (0x62 ∷ 0x63 ∷ []) ∷ []
split_absolute_path-file_example =
    split_absolute_path-file ((0x61 ∷ []) ∷ []) 0x62 (0x63 ∷ []) ((omega arith, tt), tt)
      (omega arith, (omega arith, tt))

split_parent_directory-file_example :
    split_parent_directory file ≡ (0x2f ∷ 0x61 ∷ 0x2f ∷ [], 0x62 ∷ 0x63 ∷ [])
split_parent_directory-file_example =
    split_parent_directory-file (0x2f ∷ 0x61 ∷ []) 0x62 (0x63 ∷ []) (omega arith, (omega arith, tt))

split_parent_directory-directory_example :
    split_parent_directory (0x2f ∷ 0x61 ∷ 0x2f ∷ 0x62 ∷ 0x2f ∷ [])
    ≡ (0x2f ∷ 0x61 ∷ 0x2f ∷ [], 0x62 ∷ [])
split_parent_directory-directory_example =
    split_parent_directory-directory (0x2f ∷ 0x61 ∷ []) 0x62 [] (omega arith, tt)

-- A root directory, node 0, with a file `a`, node 1.
abbrev no_node : Node
no_node = record {
  name = [];
  is_directory = false;
  is_file = false;
  is_mount_point = false;
  size = 0;
  fs = 0;
  mounted_node = none;
  parent = none;
  children_created = true;
  children = [];
  open_file_descriptors = [];
  file_buffers = [];
}

abbrev one_file : Files
one_file = record {
  nodes = λ n.
      if n == 0
      then record no_node { is_directory = true; children = 1 ∷ [] }
      else if n == 1
      then record no_node { name = 0x61 ∷ []; is_file = true; size = 3 }
      else no_node;
  descriptors = λ fd. record { node = 0; open_type = 0 };
  next_descriptor = 0;
}

abbrev all_read : ℕ → Files → ℕ → Files × Status
all_read fs files node = (files, ok)

abbrev three_bytes : ℕ → Files → ℕ → ℕ → ℕ → Files × List ℕ
three_bytes fs files node offset count = (files, 1 ∷ 2 ∷ 3 ∷ [])

one_file-Fresh : Fresh one_file
unfolding is_open
one_file-Fresh node fd h = ground (arith, h)

open_file-Opened_example :
    Opened (open_file all_read three_bytes (λ fs. 0) one_file (0x2f ∷ 0x61 ∷ []) 0 0)
open_file-Opened_example =
    open_file-Opened all_read three_bytes (λ fs. 0) (λ fs files node fresh. fresh) one_file
      (0x2f ∷ 0x61 ∷ []) 0 0 one_file-Fresh

abbrev descriptor_of : Option (Files × Status × Option ℕ) → Option ℕ
descriptor_of none = none
descriptor_of (some (files, status, found)) = found

-- `/a` is opened, and `/` is no file.
opened_run :
    (descriptor_of (open_file all_read three_bytes (λ fs. 0) one_file (0x2f ∷ 0x61 ∷ []) 0 0)
      ≡ some 0)
    × (descriptor_of (open_file all_read three_bytes (λ fs. 0) one_file (0x2f ∷ []) 0 0) ≡ none)
unfolding program open_file open_read open_in read_directory read_found get_info walk_parts
    next_node create_children find_file find_child same_name
opened_run = (refl, refl)
