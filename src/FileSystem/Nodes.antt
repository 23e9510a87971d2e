-- ===== src/FileSystem/Nodes.antt =====
-- src/drivers/filesystems.cpp: `openFile`, `closeFile`, `readFile`, `getInfo` and `readDirectory`, on a
-- store of nodes and descriptors that stand for the shared pointers. `none` is a panic or the use of a
-- null pointer. A node has the fields that these functions use. The coroutines are plain calls, and the virtual methods of a file system parameters.
use mayv.Prelude.{
  ℕ, ◌+◌, Bool, true, false, not, ◌&&◌, ◌||◌, ltb, ◌==◌, if◌then◌else◌, Option, none, some, List,
  [], ◌∷◌, ◌++◌, take, drop,
}
use mayv.Prelude.Memory.{update}
use mayv.Prelude.Words.{add64, has_flag}
use mayv.FileSystem.Paths.{
  slash, back, is_valid_absolute_path, split_absolute_path, split_parent_directory,
}

pub data Status : Type 0 where
  ok : Status
  invalid_path : Status
  io_error : Status
  not_directory : Status
  not_file : Status
  no_such_directory_or_file : Status
  out_of_bounds : Status

abbrev pub is_ok : Status → Bool
is_ok ok = true
is_ok status = false

pub record Node : Type 0 where
  pub name : List ℕ
  pub is_directory : Bool
  pub is_file : Bool
  pub is_mount_point : Bool
  pub size : ℕ
  pub fs : ℕ
  pub mounted_node : Option ℕ
  pub parent : Option ℕ
  pub children_created : Bool
  pub children : List ℕ
  pub open_file_descriptors : List ℕ
  pub file_buffers : List (List ℕ)

pub record FileDescriptor : Type 0 where
  pub node : ℕ
  pub open_type : ℕ

-- The nodes, the descriptors, and the next descriptor that `make_shared` makes.
pub record Files : Type 0 where
  pub nodes : ℕ → Node
  pub descriptors : ℕ → FileDescriptor
  pub next_descriptor : ℕ

abbrev pub set_node : Files → ℕ → Node → Files
set_node files node value = record files { nodes = update files.nodes node value }

-- Equality of strings
unfoldable pub same_name : List ℕ → List ℕ → Bool
same_name [] [] = true
same_name [] (y ∷ ys) = false
same_name (x ∷ xs) [] = false
same_name (x ∷ xs) (y ∷ ys) = x == y && same_name xs ys

unfoldable pub find_child : Files → List ℕ → List ℕ → Option ℕ
find_child files name [] = none
find_child files name (child ∷ children) =
    let later = find_child files name children in
    if same_name (files.nodes child).name name then some child else later

-- The children of `openFile`'s parent directory: the file, or `none` when the name is that of no file.
-- The loop goes on behind a file that it found.
unfoldable pub find_file : Files → List ℕ → List ℕ → Option ℕ → Option (Option ℕ)
find_file files name [] file_node = some file_node
find_file files name (child ∷ children) file_node =
    let taken = find_file files name children (some child) in
    let passed = find_file files name children file_node in
    if same_name (files.nodes child).name name
    then if (files.nodes child).is_file then taken else none
    else passed

unfoldable pub is_open : ℕ → List ℕ → Bool
is_open file [] = false
is_open file (fd ∷ fds) = (fd == file) || is_open file fds

-- The list without the first of those descriptors
unfoldable pub erase : ℕ → List ℕ → List ℕ
erase file [] = []
erase file (fd ∷ fds) = let rest = erase file fds in if fd == file then fds else fd ∷ rest

-- `closeFile`
unfoldable pub close_file : Files → Option ℕ → Files × Status
close_file files none = (files, not_file)
close_file files (some file) =
    let at = (files.descriptors file).node in
    let node = files.nodes at in
    if is_open file node.open_file_descriptors
    then (
      set_node files at
          (record node { open_file_descriptors = erase file node.open_file_descriptors }),
      ok,
    )
    else (files, not_file)

module _ (fs_read_directory : ℕ → Files → ℕ → Files × Status)
    (fs_read_file : ℕ → Files → ℕ → ℕ → ℕ → Files × List ℕ) (root_node : ℕ → ℕ) where
  -- The children of a directory that were not created are read.
  unfoldable pub create_children : Files → ℕ → Files × Status
  create_children files node =
      if (files.nodes node).children_created
      then (files, ok)
      else fs_read_directory (files.nodes node).fs files node

  -- `.`, `..`, or the name of a child; `none` stands for no such child.
  unfoldable pub next_node : Files → ℕ → List ℕ → Option (Option ℕ)
  next_node files node part =
      if same_name part (0x2e ∷ [])
      then some (some node)
      else if same_name part (0x2e ∷ 0x2e ∷ [])
      then some (files.nodes node).parent
      else elim (find_child files part (files.nodes node).children) [
        | none ↦ none
        | some child ↦ some (some child)
      ]

  -- The directory mounted on a mount point; `none` is a null pointer.
  abbrev pub resolve_mount : Files → ℕ → Option ℕ
  resolve_mount files node =
      if (files.nodes node).is_mount_point then (files.nodes node).mounted_node else some node

  -- The loop of `getInfo`
  unfoldable pub walk_parts : Files → Option ℕ → List (List ℕ) → Option (Files × Status × Option ℕ)
  walk_parts files current [] = some (files, ok, current)
  walk_parts files none (part ∷ parts) = some (files, not_directory, none)
  walk_parts files (some node) (part ∷ parts) =
      let entered : Option (Files × Status × Option ℕ) = elim (resolve_mount files node) [
        | none ↦ none
        | some directory ↦
            let (after, status) = create_children files directory in
            let stepped : Option (Files × Status × Option ℕ) =
              elim (next_node after directory part) [
                | none ↦ some (after, no_such_directory_or_file, none)
                | some next ↦ walk_parts after next parts
              ] in
            if is_ok status then stepped else some (after, status, none)
      ] in
      if (files.nodes node).is_directory then entered else some (files, not_directory, none)

  -- `getInfo`
  unfoldable pub get_info : Files → List ℕ → ℕ → Option (Files × Status × Option ℕ)
  get_info files path fs =
      if is_valid_absolute_path path
      then walk_parts files (some (root_node fs)) (split_absolute_path path)
      else some (files, invalid_path, none)

  -- The end of `readDirectory`, with what `getInfo` found.
  unfoldable pub read_found : Files × Status × Option ℕ → Files × Status × Option ℕ
  read_found (files, status, none) = (files, (if is_ok status then not_directory else status), none)
  read_found (files, status, some node) =
      if not (is_ok status)
      then (files, status, none)
      else if not (files.nodes node).is_directory
      then (files, not_directory, none)
      else let (after, read) = create_children files node in
        if is_ok read then (after, ok, some node) else (after, read, none)

  -- `readDirectory`
  unfoldable pub read_directory : Files → List ℕ → ℕ → Option (Files × Status × Option ℕ)
  read_directory files path fs =
      if back path == slash
      then elim (get_info files path fs) [ none ↦ none | some found ↦ some (read_found found) ]
      else some (files, invalid_path, none)

  -- A new descriptor of the file
  abbrev pub open_node : Files → ℕ → ℕ → Files × Status × Option ℕ
  open_node files node open_type =
      let file = files.next_descriptor in
      let value = files.nodes node in
      (
        record (set_node files node
            (record value { open_file_descriptors = value.open_file_descriptors ++ file ∷ [] })) {
              descriptors =
                  update files.descriptors file (record { node = node; open_type = open_type });
              next_descriptor = file + 1;
            },
        ok,
        some file,
      )

  -- `openFile` in the directory that was read; CreateIfNotExists is 1, and panics.
  unfoldable pub open_in : Files → ℕ → List ℕ → ℕ → Option (Files × Status × Option ℕ)
  open_in files directory name open_type =
      elim (find_file files name (files.nodes directory).children none) [
        | none ↦ some (files, not_file, none)
        | some none ↦
            if has_flag open_type 1 then none else some (files, no_such_directory_or_file, none)
        | some (some node) ↦ some (open_node files node open_type)
      ]

  unfoldable pub open_read :
      List ℕ → ℕ → Files × Status × Option ℕ → Option (Files × Status × Option ℕ)
  open_read name open_type (files, status, none) =
      if is_ok status then none else some (files, status, none)
  open_read name open_type (files, status, some directory) =
      if is_ok status then open_in files directory name open_type else some (files, status, none)

  -- `openFile`
  unfoldable pub open_file : Files → List ℕ → ℕ → ℕ → Option (Files × Status × Option ℕ)
  open_file files path open_type fs =
      if not (is_valid_absolute_path path) || back path == slash
      then some (files, invalid_path, none)
      else let (parent, name) = split_parent_directory path in
        elim (read_directory files parent fs) [
          | none ↦ none
          | some read ↦ open_read name open_type read
        ]

  -- The first buffer of the file
  abbrev pub first_buffer : List (List ℕ) → List ℕ
  first_buffer [] = []
  first_buffer (buffer ∷ buffers) = buffer

  -- `readFile`: the bytes that are copied to the caller's buffer
  unfoldable pub read_file : Files → Option ℕ → ℕ → ℕ → Files × Status × List ℕ
  read_file files none offset count = (files, not_file, [])
  read_file files (some file) offset count =
      let at = (files.descriptors file).node in
      let node = files.nodes at in
      if not node.is_file || not (is_open file node.open_file_descriptors)
      then (files, not_file, [])
      else if count == 0 || ltb node.size (add64 offset count)
      then (files, out_of_bounds, [])
      else let (after, bytes) = fs_read_file node.fs files at 0 node.size in
        let buffers = (after.nodes at).file_buffers ++ bytes ∷ [] in
        (
          set_node after at (record (after.nodes at) { file_buffers = buffers }),
          ok,
          take count (drop offset (first_buffer buffers)),
        )
