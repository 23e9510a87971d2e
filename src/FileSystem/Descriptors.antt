-- ===== src/FileSystem/Descriptors.antt =====
-- The descriptors of a file: opening one makes it closable once.
use mayv.Prelude.{
  ℕ, ◌+◌, ◌<◌, ◌≡◌, refl, ap, sym, ◌∙◌, true, false, arith, inl, inr, Bool-cases, ℕ_discrete, ◌≢◌,
  Option, none, some, List, [], ◌∷◌, ◌++◌, ◌⊎◌,
}
use mayv.Prelude.Memory.{update}
use mayv.FileSystem.Nodes.{Status, ok, not_file, Node, Files, set_node, is_open, erase, close_file}

-- The descriptors in the lists of the nodes were all made before.
abbrev pub Fresh : Files → Type 0
Fresh files =
    (node fd : ℕ)
    → is_open fd (files.nodes node).open_file_descriptors ≡ true
    → fd < files.next_descriptor

-- Closing the descriptor succeeds, and closing it again does not.
abbrev pub ClosesOnce : Files → ℕ → Type 0
ClosesOnce files file =
    let (closed, status) = close_file files (some file) in
    (status ≡ ok) × (close_file closed (some file) ≡ (closed, not_file)) × Fresh closed

abbrev pub Opened : Option (Files × Status × Option ℕ) → Type 0
Opened none = Unit {0}
Opened (some (files, status, none)) = Fresh files
Opened (some (files, status, some file)) = Fresh files × ClosesOnce files file

abbrev pub Kept : Option (Files × Status × Option ℕ) → Type 0
Kept none = Unit {0}
Kept (some (files, status, found)) = Fresh files

is_open-append : (file : ℕ) (fds : List ℕ) → is_open file (fds ++ file ∷ []) ≡ true
unfolding is_open
is_open-append file [] = ground arith
is_open-append file (fd ∷ fds) = ground (arith, is_open-append file fds)

is_open-either :
    (fd file : ℕ) (fds : List ℕ)
    → is_open fd (fds ++ file ∷ []) ≡ true
    → (is_open fd fds ≡ true) ⊎ (fd ≡ file)
unfolding is_open
is_open-either fd file [] h = ground (arith, h)
is_open-either fd file (x ∷ fds) h = ground (arith, h, is_open-either fd file fds)

erase-append :
    (file : ℕ) (fds : List ℕ) → is_open file fds ≡ false → erase file (fds ++ file ∷ []) ≡ fds
unfolding is_open erase
erase-append file [] h = ground arith
erase-append file (fd ∷ fds) h = ground (arith, h, erase-append file fds)

not_open :
    (files : Files) (node : ℕ)
    → Fresh files
    → is_open files.next_descriptor (files.nodes node).open_file_descriptors ≡ false
not_open files node fresh =
    elim (Bool-cases (is_open files.next_descriptor (files.nodes node).open_file_descriptors)) [
      | inl e ↦ ground (arith, fresh node files.next_descriptor e)
      | inr e ↦ e
    ]

close_open :
    (files : Files) (at file : ℕ)
    → (files.descriptors file).node ≡ at
    → is_open file (files.nodes at).open_file_descriptors ≡ true
    → close_file files (some file) ≡ (
      set_node files at (record (files.nodes at) {
        open_file_descriptors = erase file (files.nodes at).open_file_descriptors;
      }),
      ok,
    )
unfolding close_file
close_open files at file e h = rw (e, h) refl

close_shut :
    (files : Files) (at file : ℕ)
    → (files.descriptors file).node ≡ at
    → is_open file (files.nodes at).open_file_descriptors ≡ false
    → close_file files (some file) ≡ (files, not_file)
unfolding close_file
close_shut files at file e h = rw (e, h) refl

ClosesOnce-of :
    (files closed : Files) (file : ℕ)
    → close_file files (some file) ≡ (closed, ok)
    → close_file closed (some file) ≡ (closed, not_file)
    → Fresh closed
    → ClosesOnce files file
ClosesOnce-of files closed file first second fresh = rw first (refl, second, fresh)

module _ (files : Files) (node open_type : ℕ) (fresh : Fresh files) where
  abbrev opened : Files
  opened =
      record (set_node files node (record (files.nodes node) {
        open_file_descriptors =
            (files.nodes node).open_file_descriptors ++ files.next_descriptor ∷ [];
      })) {
        descriptors =
            update files.descriptors files.next_descriptor
              (record { node = node; open_type = open_type });
        next_descriptor = files.next_descriptor + 1;
      }

  opened_fds :
      (n : ℕ)
      → n ≢ node
      → (opened.nodes n).open_file_descriptors ≡ (files.nodes n).open_file_descriptors
  opened_fds n other =
      let e : opened.nodes n ≡ files.nodes n = ground (arith, other) in
      ap (λ (x : Node). x.open_file_descriptors) e

  opened_at :
      (opened.nodes node).open_file_descriptors
      ≡ (files.nodes node).open_file_descriptors ++ files.next_descriptor ∷ []
  opened_at = ground arith

  opened-Fresh : Fresh opened
  opened-Fresh n fd h = elim (ℕ_discrete n node) [
    | yes at ↦
        elim (is_open-either fd files.next_descriptor (files.nodes node).open_file_descriptors (
          ap (is_open fd)
            (sym opened_at ∙ ap (λ (x : ℕ). (opened.nodes x).open_file_descriptors) (sym at))
          ∙ h)) [ inl old ↦ omega (arith, fresh node fd old) | inr new ↦ omega (arith, new) ]
    | no other ↦ omega (arith, fresh n fd (ap (is_open fd) (sym (opened_fds n other)) ∙ h))
  ]

  closed : Files
  closed = set_node opened node (record (opened.nodes node) {
    open_file_descriptors = erase files.next_descriptor (opened.nodes node).open_file_descriptors;
  })

  closed_fds :
      (n : ℕ) → (closed.nodes n).open_file_descriptors ≡ (files.nodes n).open_file_descriptors
  unfolding closed
  closed_fds n = elim (ℕ_discrete n node) [
    | yes at ↦
        let own : (closed.nodes node).open_file_descriptors
            ≡ erase files.next_descriptor
                ((files.nodes node).open_file_descriptors ++ files.next_descriptor ∷ []) =
          ground arith in
        rw at (
          own
          ∙ erase-append files.next_descriptor (files.nodes node).open_file_descriptors
              (not_open files node fresh))
    | no other ↦
        let e : closed.nodes n ≡ opened.nodes n = ground (arith, other) in
        ap (λ (x : Node). x.open_file_descriptors) e ∙ opened_fds n other
  ]

  pub open_node-Opened : Opened (some (opened, ok, some files.next_descriptor))
  unfolding closed
  open_node-Opened =
      let file = files.next_descriptor in
      let at : (opened.descriptors file).node ≡ node = ground arith in
      (
        opened-Fresh,
        ClosesOnce-of opened closed file
            (close_open opened node file at (
              ap (is_open file) opened_at
              ∙ is_open-append file (files.nodes node).open_file_descriptors))
            (close_shut closed node file at
              (ap (is_open file) (closed_fds node) ∙ not_open files node fresh))
            (λ n fd h. omega (arith, fresh n fd (ap (is_open fd) (sym (closed_fds n)) ∙ h))),
      )
