-- ===== src/Files/Kept/Roots.antt =====
-- The calls of the file tools stay below the roots of the sandbox.
use mathlib.Core.List.{Memᴰ}
use kanna_pa.Prelude.{
  String, ◌≡◌, ◌≢◌, ◌⊎◌, refl, sym, ◌∙◌, none, List, [], ◌∷◌, ◌++◌, inl, inr, All, All-mem,
}
use kanna_pa.Value.{Fields}
use kanna_pa.Permissions.Sandbox.{Sandbox, FilePath, roots, resolve, ok}
use kanna_pa.Permissions.Sandbox.Containment.{Under, resolve-ok_iff}
use kanna_pa.Tools.Registry.{Attempt, Tool}
use kanna_pa.Files.Disk.{Disk, find_node}
use kanna_pa.Files.Os.{Os, path_of, with_path, with_path_ind}
use kanna_pa.Files.Read.{read_file, file_info, list_directory}
use kanna_pa.Files.Write.{asked, write_file, create_directory, delete_file}
use kanna_pa.Files.Search.{search_files}
use kanna_pa.Files.Tools.{all_tools}
use kanna_pa.Files.Kept.{
  Change, same, new, lost, Under-trans, Overwrites, write_at-Change, make_at-Change,
  delete_node-Change,
}

-- Two directories above the same path.
comparable : (a b r t : List String) → a ++ r ≡ b ++ t → Under a b ⊎ Under b a
comparable [] b r t e = inl (b, refl)
comparable (x ∷ a) [] r t e = inr (x ∷ a, refl)
comparable (x ∷ a) (y ∷ b) r t e = elim (comparable a b r t (cc)) [
  | inl (u, f) ↦ inl (u, cc)
  | inr (u, f) ↦ inr (u, cc)
]

-- The call may replace or remove what is there.
pub data Loses (name : String) (args : Fields) : Type 0 where
  overwrites : name ≡ "fs_write_file" → Overwrites args → Loses name args
  deletes : name ≡ "fs_delete" → Loses name args

weaken :
    {A B : Type 0} {p : List String} {d d' : Disk} {q : List String}
    → (A → B)
    → Change A p d d' q
    → Change B p d d' q
weaken f (same e) = same e
weaken f (new e u) = new e u
weaken f (lost a u) = lost (f a) u

module _ (os : Os) (s : Sandbox) where
  -- A call changes nothing at `q`, or works at a path that the sandbox lets through.
  abbrev pub Works : String → Fields → Disk → Disk → List String → Type 0
  Works name args d d' q =
      (find_node q d' ≡ find_node q d)
      ⊎ ((f : FilePath) × (p : List String) × (resolve os.os_resolve s f ≡ ok p)
          × Change (Loses name args) p d d' q)

  -- A tool that only looks.
  looks-Works :
      (look : List String → Disk → Attempt) (name : String) (args : Fields) (d : Disk)
      (q : List String)
      → Works name args d (with_path os s (λ p d. (look p d, d)) args d).1 q
  looks-Works look name args d q =
      with_path_ind os s (λ r. Works name args d r.1 q) _ args d (λ _. inl refl)
        (λ _ _ _ _. inl refl)

  write_file-Works :
      (args : Fields) (d : Disk) (q : List String)
      → Works "fs_write_file" args d (write_file os s args d).1 q
  unfolding write_file
  write_file-Works args d q =
      with_path_ind os s (λ r. Works "fs_write_file" args d r.1 q) _ args d (λ _. inl refl)
        (λ t p _ e. inr (path_of t, p, e, weaken (overwrites refl) (write_at-Change os args p q d)))

  create_directory-Works :
      (name : String) (args : Fields) (d : Disk) (q : List String)
      → Works name args d (create_directory os s args d).1 q
  unfolding create_directory
  create_directory-Works name args d q =
      with_path_ind os s (λ r. Works name args d r.1 q) _ args d (λ _. inl refl)
        (λ t p _ e. inr (path_of t, p, e, weaken absurd (make_at-Change os p q d)))

  delete_file-Works :
      (args : Fields) (d : Disk) (q : List String)
      → Works "fs_delete" args d (delete_file os s args d).1 q
  unfolding delete_file
  delete_file-Works args d q =
      with_path_ind os s (λ r. Works "fs_delete" args d r.1 q) _ args d (λ _. inl refl)
        (λ t p _ e. inr (
          path_of t,
          p,
          e,
          weaken (λ _. deletes refl) (delete_node-Change (asked "recursive" args) p q _ d),
        ))

  module _ (args : Fields) (d : Disk) (q : List String) where
    abbrev pub ToolWorks : Tool Disk → Type 0
    ToolWorks t = Works t.name args d (t.execute args d).1 q

    all_tools-ToolWorks : All ToolWorks (all_tools os s)
    unfolding read_file list_directory search_files file_info
    all_tools-ToolWorks = (
      looks-Works _ "fs_read_file" args d q,
      (
        write_file-Works args d q,
        (
          looks-Works _ "fs_list_directory" args d q,
          (
            looks-Works _ "fs_search_files" args d q,
            (
              create_directory-Works "fs_create_directory" args d q,
              (looks-Works _ "fs_file_info" args d q, (delete_file-Works args d q, tt)),
            ),
          ),
        ),
      ),
    )

    pub execute-ToolWorks : (t : Tool Disk) → Memᴰ t (all_tools os s) → ToolWorks t
    execute-ToolWorks t m = All-mem ToolWorks (all_tools os s) all_tools-ToolWorks m

    -- `q` lies below a root of the sandbox, or it is a directory above one and was missing.
    abbrev pub WithinRoots : Type 0
    WithinRoots =
        (root : List String) × Memᴰ root (roots s)
        × (Under root q ⊎ ((find_node q d ≡ none) × Under q root))

    within :
        {A : Type 0} {p : List String} {d' : Disk} (root : List String)
        → Memᴰ root (roots s)
        → Under root p
        → find_node q d' ≢ find_node q d
        → Change A p d d' q
        → WithinRoots
    within root m u changed (same e) = absurd (changed e)
    within {p} root m u changed (lost a v) = (root, m, inl (Under-trans root p q u v))
    within root m (r, e) changed (new missing (t, f)) = elim (comparable root q r t (sym e ∙ f)) [
      | inl below ↦ (root, m, inl below)
      | inr above ↦ (root, m, inr (missing, above))
    ]

    -- A file tool changes the disk only below a root of the sandbox, but for missing directories above
    -- a root, which it may make.
    pub execute-WithinRoots :
        (t : Tool Disk)
        → Memᴰ t (all_tools os s)
        → find_node q (t.execute args d).1 ≢ find_node q d
        → WithinRoots
    execute-WithinRoots t m changed = elim (execute-ToolWorks t m) [
      | inl e ↦ absurd (changed e)
      | inr (f, p, e, c) ↦
          let (_, (root, m', u)) = (resolve-ok_iff os.os_resolve s f p).0 e in
          within root m' u changed c
    ]
