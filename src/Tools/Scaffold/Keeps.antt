-- ===== src/Tools/Scaffold/Keeps.antt =====
-- What stays as it was: tools/scaffold/tools.py.
use kanna_pa.Prelude.{
  String, ◌≡◌, refl, sym, ◌∙◌, subst, true, false, ◌&&◌, not, Option, none, some, List, [], ◌∷◌,
  ◌++◌, arith, Option-cases, Bool-cases, inl, inr, All,
}
use kanna_pa.Value.{Value, str, Fields, get}
use kanna_pa.Permissions.Sandbox.{Sandbox}
use kanna_pa.Tools.Result.{ToolResult}
use kanna_pa.Files.Disk.{
  Node, folder, file, Disk, same_path, find_node, is_folder, exists_as, put_node, make_dirs, parent,
  eq_of_same_path, find_node-put_node,
}
use kanna_pa.Files.Os.{Os, with_path_ind}
use kanna_pa.Files.Write.{asked}
use kanna_pa.Tools.Scaffold.Templates.{ScaffoldFile, template_for}
use kanna_pa.Tools.Scaffold.{
  Progress, name_of, write_one, write_files, occupied, scaffold_in, scaffold_as, scaffold_at,
  project_scaffold,
}

-- Where a path is found and another is not, they differ.
apart :
    (p q : List String) (n : Node) (d : Disk)
    → find_node p d ≡ none
    → find_node q d ≡ some n
    → same_path p q ≡ false
apart p q n d missing there = elim (Bool-cases (same_path p q)) [
  | inl e ↦ absurd (cc (subst (λ x. find_node x d ≡ none) (eq_of_same_path p q e) missing))
  | inr e ↦ e
]

module _ (q : List String) (n : Node) where
  put_node-keeps :
      (p : List String) (m : Node) (d : Disk)
      → same_path p q ≡ false
      → find_node q d ≡ some n
      → find_node q (put_node p m d) ≡ some n
  put_node-keeps p m d e there = find_node-put_node q p m d ∙ rw e there

  make_dirs-keeps :
      (now : String) (base rest : List String) (d d' : Disk)
      → make_dirs now base rest d ≡ some d'
      → find_node q d ≡ some n
      → find_node q d' ≡ some n
  unfolding make_dirs
  make_dirs-keeps now base [] d d' h there = subst (λ x. find_node q x ≡ some n) (cc) there
  make_dirs-keeps now base (x ∷ rest) d d' h there =
      let p = base ++ x ∷ [] in
      elim (Option-cases (find_node p d)) [
        | inl missing ↦
            make_dirs-keeps now p rest (put_node p (folder now) d) d'
              (sym (rw (missing, make_dirs) refl) ∙ h)
              (put_node-keeps p (folder now) d (apart p q n d missing there) there)
        | inr (folder t, e) ↦
            make_dirs-keeps now p rest d d' (sym (rw (e, make_dirs) refl) ∙ h) there
        | inr (file b t, e) ↦
            let h' : none ≡ some d' = sym (rw (e, make_dirs) refl) ∙ h in absurd (cc)
      ]

  module _ (os : Os) where
    write_one-keeps :
        (p : List String) (content : String) (d d' : Disk)
        → same_path p q ≡ false
        → write_one os p content d ≡ some d'
        → find_node q d ≡ some n
        → find_node q d' ≡ some n
    unfolding write_one
    write_one-keeps p content d d' e h there =
        elim (Option-cases (make_dirs os.now [] (parent p) d)) [
          | inl f ↦ let h' : none ≡ some d' = sym (rw (f, write_one) refl) ∙ h in absurd (cc)
          | inr (d₁, f) ↦ elim (Bool-cases (is_folder (find_node p d₁))) [
            | inl g ↦ let h' : none ≡ some d' = sym (rw (f, write_one, g) refl) ∙ h in absurd (cc)
            | inr g ↦
                let after = put_node p (file (os.encode content) os.now) d₁ in
                let h' : some after ≡ some d' = sym (rw (f, write_one, g) refl) ∙ h in
                let same : after ≡ d' = grind (arith, h') in
                subst (λ x. find_node q x ≡ some n) same
                  (put_node-keeps p (file (os.encode content) os.now) d₁ e
                    (make_dirs-keeps os.now [] (parent p) d d₁ f there))
          ]
        ]

    write_files-keeps :
        (p : List String) (result : Progress → ToolResult) (files : List ScaffoldFile)
        (w : Progress) (d : Disk)
        → All (λ (f : ScaffoldFile). same_path (p ++ f.path) q ≡ false) files
        → find_node q d ≡ some n
        → find_node q (write_files os p result files w d).1 ≡ some n
    unfolding write_files
    write_files-keeps p result [] w d h there = there
    write_files-keeps p result (f ∷ files) w d (e, h) there =
        elim (Option-cases (write_one os (p ++ f.path) f.content d)) [
          | inl g ↦ rw (g, write_files) there
          | inr (d', g) ↦
              rw (g, write_files)
                (write_files-keeps p result files _ d' h
                  (write_one-keeps (p ++ f.path) f.content d d' e g there))
        ]

    free :
        (p : List String) (files : List ScaffoldFile) (d : Disk)
        → occupied os p files d ≡ false
        → find_node q d ≡ some n
        → All (λ (f : ScaffoldFile). same_path (p ++ f.path) q ≡ false) files
    free p [] d h there = tt
    free p (f ∷ files) d h there = elim (Option-cases (find_node (p ++ f.path) d)) [
      | inl missing ↦
          let h' : occupied os p files d ≡ false = rw missing at h in
          (apart (p ++ f.path) q n d missing there, free p files d h' there)
      | inr (m, e) ↦ let h' : true ≡ false = rw e at h in absurd (cc)
    ]

    in-keeps :
        (args : Fields) (p : List String) (language : String)
        (t : Option ((String → List ScaffoldFile) × String)) (d : Disk)
        → asked "overwrite" args ≡ false
        → find_node q d ≡ some n
        → find_node q (scaffold_in os args p language t d).1 ≡ some n
    in-keeps args p language none d no_leave there = there
    in-keeps args p language (some (template, steps)) d no_leave there =
        let files = template (name_of (get "project_name" args) p) in
        elim (Bool-cases (occupied os p files d)) [
          | inl full ↦ rw (full, no_leave) there
          | inr empty ↦
              rw empty (write_files-keeps p _ files _ d (free p files d empty there) there)
        ]

    as-keeps :
        (args : Fields) (p : List String) (v : Option Value) (d : Disk)
        → asked "overwrite" args ≡ false
        → find_node q d ≡ some n
        → find_node q (scaffold_as os args p v d).1 ≡ some n
    as-keeps args p none d no_leave there = there
    as-keeps args p (some (str language)) d no_leave there =
        in-keeps args p language (template_for language) d no_leave there
    as-keeps args p (some Value.null) d no_leave there = there
    as-keeps args p (some (Value.bool b)) d no_leave there = there
    as-keeps args p (some (Value.int k)) d no_leave there = there
    as-keeps args p (some (Value.float m k)) d no_leave there = there
    as-keeps args p (some (Value.obj fs)) d no_leave there = there
    as-keeps args p (some (Value.arr xs)) d no_leave there = there

-- Without a leave to overwrite, no file or directory that is there changes, whatever is generated.
pub project_scaffold-keeps :
    (os : Os) (s : Sandbox) (args : Fields) (d : Disk) (q : List String) (n : Node)
    → asked "overwrite" args ≡ false
    → find_node q d ≡ some n
    → find_node q (project_scaffold os s args d).1 ≡ some n
unfolding project_scaffold
project_scaffold-keeps os s args d q n no_leave there =
    with_path_ind os s (λ r. find_node q r.1 ≡ some n) (scaffold_at os args) args d (λ _. there)
      (λ t p _ _. elim (Bool-cases (exists_as (find_node p d) && not (is_folder (find_node p d)))) [
        | inl other ↦ rw other there
        | inr free_path ↦
            rw free_path (as-keeps q n os args p (get "language" args) d no_leave there)
      ])
