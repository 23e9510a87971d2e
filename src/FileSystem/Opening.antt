-- ===== src/FileSystem/Opening.antt =====
-- A file that `openFile` opened can be closed once.
use mayv.Prelude.{ℕ, not, ◌||◌, ◌==◌, if◌then◌else◌, if_elim, Option, none, some, List, [], ◌∷◌}
use mayv.Prelude.Words.{has_flag}
use mayv.FileSystem.Paths.{
  slash, back, is_valid_absolute_path, split_absolute_path, split_parent_directory,
}
use mayv.FileSystem.Nodes.{
  Status, not_file, no_such_directory_or_file, is_ok, Files, find_file, create_children, next_node,
  resolve_mount, walk_parts, get_info, read_found, read_directory, open_node, open_in, open_read,
  open_file,
}
use mayv.FileSystem.Descriptors.{Fresh, Opened, Kept, open_node-Opened}

-- The interface of a file system: reading a directory makes no descriptors of its own.
module _ (fs_read_directory : ℕ → Files → ℕ → Files × Status)
    (fs_read_file : ℕ → Files → ℕ → ℕ → ℕ → Files × List ℕ) (root_node : ℕ → ℕ)
    (keeps : (fs : ℕ) (files : Files) (node : ℕ)
      → Fresh files
      → Fresh (fs_read_directory fs files node).0) where
  create_children-Fresh :
      (files : Files) (node : ℕ)
      → Fresh files
      → Fresh (create_children fs_read_directory fs_read_file root_node files node).0
  unfolding create_children
  create_children-Fresh files node fresh =
      if_elim (λ (x : Files × Status). Fresh x.0) (files.nodes node).children_created
        (λ made. fresh) (λ not_made. keeps (files.nodes node).fs files node fresh)

  stepped-Kept :
      (after : Files) (parts : List (List ℕ)) (next : Option (Option ℕ))
      → Fresh after
      → ((current : Option ℕ)
          → Kept (walk_parts fs_read_directory fs_read_file root_node after current parts))
      → Kept (elim next [
        | none ↦ some (after, no_such_directory_or_file, none)
        | some n ↦ walk_parts fs_read_directory fs_read_file root_node after n parts
      ])
  stepped-Kept after parts none fresh lower = fresh
  stepped-Kept after parts (some n) fresh lower = lower n

  -- The part of the path below a directory
  entered-Kept :
      (files : Files) (part : List ℕ) (parts : List (List ℕ)) (mount : Option ℕ)
      → Fresh files
      → ((after : Files) (current : Option ℕ)
          → Fresh after
          → Kept (walk_parts fs_read_directory fs_read_file root_node after current parts))
      → Kept (elim mount [
        | none ↦ none
        | some directory ↦
            let (after, status) =
              create_children fs_read_directory fs_read_file root_node files directory in
            let stepped : Option (Files × Status × Option ℕ) =
              elim (next_node fs_read_directory fs_read_file root_node after directory part) [
                | none ↦ some (after, no_such_directory_or_file, none)
                | some next ↦ walk_parts fs_read_directory fs_read_file root_node after next parts
              ] in
            if is_ok status then stepped else some (after, status, none)
      ])
  entered-Kept files part parts none fresh lower = tt
  entered-Kept files part parts (some directory) fresh lower =
      let (after, status) =
        create_children fs_read_directory fs_read_file root_node files directory in
      let still = create_children-Fresh files directory fresh in
      if_elim Kept (is_ok status)
        (λ fine.
          stepped-Kept after parts
            (next_node fs_read_directory fs_read_file root_node after directory part) still
            (λ current. lower after current still))
        (λ bad. still)

  walk_parts-Kept :
      (files : Files) (current : Option ℕ) (parts : List (List ℕ))
      → Fresh files
      → Kept (walk_parts fs_read_directory fs_read_file root_node files current parts)
  unfolding walk_parts
  walk_parts-Kept files current [] fresh = fresh
  walk_parts-Kept files none (part ∷ parts) fresh = fresh
  walk_parts-Kept files (some node) (part ∷ parts) fresh =
      if_elim Kept (files.nodes node).is_directory
        (λ directory.
          entered-Kept files part parts
            (resolve_mount fs_read_directory fs_read_file root_node files node) fresh
            (λ after current still. walk_parts-Kept after current parts still))
        (λ other. fresh)

  read_found-Kept :
      (found : Option (Files × Status × Option ℕ))
      → Kept found
      → Kept (elim found [
        | none ↦ none
        | some x ↦ some (read_found fs_read_directory fs_read_file root_node x)
      ])
  unfolding read_found
  read_found-Kept none fresh = tt
  read_found-Kept (some (files, status, none)) fresh = fresh
  read_found-Kept (some (files, status, some node)) fresh =
      let (after, read) = create_children fs_read_directory fs_read_file root_node files node in
      let still = create_children-Fresh files node fresh in
      if_elim (λ (x : Files × Status × Option ℕ). Kept (some x)) (not (is_ok status)) (λ bad. fresh)
        (λ fine.
          if_elim (λ (x : Files × Status × Option ℕ). Kept (some x))
            (not (files.nodes node).is_directory) (λ other. fresh)
            (λ directory.
              if_elim (λ (x : Files × Status × Option ℕ). Kept (some x)) (is_ok read) (λ e. still)
                (λ e. still)))

  get_info-Kept :
      (files : Files) (path : List ℕ) (fs : ℕ)
      → Fresh files
      → Kept (get_info fs_read_directory fs_read_file root_node files path fs)
  unfolding get_info
  get_info-Kept files path fs fresh =
      if_elim Kept (is_valid_absolute_path path)
        (λ valid. walk_parts-Kept files (some (root_node fs)) (split_absolute_path path) fresh)
        (λ bad. fresh)

  read_directory-Kept :
      (files : Files) (path : List ℕ) (fs : ℕ)
      → Fresh files
      → Kept (read_directory fs_read_directory fs_read_file root_node files path fs)
  unfolding read_directory
  read_directory-Kept files path fs fresh =
      if_elim Kept (back path == slash)
        (λ fine.
          read_found-Kept (get_info fs_read_directory fs_read_file root_node files path fs)
            (get_info-Kept files path fs fresh))
        (λ bad. fresh)

  opening :
      (files : Files) (open_type : ℕ) (found : Option (Option ℕ))
      → Fresh files
      → Opened (elim found [
        | none ↦ some (files, not_file, none)
        | some none ↦
            if has_flag open_type 1 then none else some (files, no_such_directory_or_file, none)
        | some (some node) ↦
            some (open_node fs_read_directory fs_read_file root_node files node open_type)
      ])
  opening files open_type none fresh = fresh
  opening files open_type (some none) fresh =
      if_elim Opened (has_flag open_type 1) (λ e. tt) (λ e. fresh)
  opening files open_type (some (some node)) fresh = open_node-Opened files node open_type fresh

  open_in-Opened :
      (files : Files) (directory : ℕ) (name : List ℕ) (open_type : ℕ)
      → Fresh files
      → Opened (open_in fs_read_directory fs_read_file root_node files directory name open_type)
  unfolding open_in
  open_in-Opened files directory name open_type fresh =
      opening files open_type (find_file files name (files.nodes directory).children none) fresh

  open_read-Opened :
      (name : List ℕ) (open_type : ℕ) (read : Files × Status × Option ℕ)
      → Fresh read.0
      → Opened (open_read fs_read_directory fs_read_file root_node name open_type read)
  unfolding open_read
  open_read-Opened name open_type (files, status, none) fresh =
      if_elim Opened (is_ok status) (λ e. tt) (λ e. fresh)
  open_read-Opened name open_type (files, status, some directory) fresh =
      if_elim Opened (is_ok status) (λ e. open_in-Opened files directory name open_type fresh)
        (λ e. fresh)

  open_found-Opened :
      (name : List ℕ) (open_type : ℕ) (read : Option (Files × Status × Option ℕ))
      → Kept read
      → Opened (elim read [
        | none ↦ none
        | some x ↦ open_read fs_read_directory fs_read_file root_node name open_type x
      ])
  open_found-Opened name open_type none h = tt
  open_found-Opened name open_type (some read) h = open_read-Opened name open_type read h

  -- Where the descriptors in the nodes' lists were all made before, and the file systems' own
  -- `readDirectory` keeps that, `openFile` keeps it as well, whatever its result is. A descriptor that it
  -- returns can be closed, and then the same holds again; closing it a second time returns NotFile and
  -- changes nothing.
  pub open_file-Opened :
      (files : Files) (path : List ℕ) (open_type fs : ℕ)
      → Fresh files
      → Opened (open_file fs_read_directory fs_read_file root_node files path open_type fs)
  unfolding open_file
  open_file-Opened files path open_type fs fresh =
      if_elim Opened (not (is_valid_absolute_path path) || back path == slash) (λ bad. fresh)
        (λ fine.
          let (parent, name) = split_parent_directory path in
          open_found-Opened name open_type
            (read_directory fs_read_directory fs_read_file root_node files parent fs)
            (read_directory-Kept files parent fs fresh))
