-- ===== src/Tools/Scaffold.antt =====
-- tools/scaffold/tools.py, over the disk of the file tools.
pub mod Templates
pub mod Keeps
pub mod Tests
use kanna_pa.Prelude.{
  String, ◌<>◌, Bool, true, false, ◌&&◌, not, Option, none, some, List, [], ◌∷◌, ◌++◌, any_of, ◌=ₛ◌,
  if◌then◌else◌,
}
use kanna_pa.Value.{Value, str, arr, Items, nil, cons, Fields, end, field, get, or_null}
use kanna_pa.Permissions.Sandbox.{Sandbox}
use kanna_pa.Tools.Result.{ToolResult, ok_result, fail}
use kanna_pa.Tools.Registry.{Attempt, returned, raised}
use kanna_pa.Files.Disk.{
  Node, folder, file, Disk, find_node, is_folder, exists_as, put_node, make_dirs, parent,
}
use kanna_pa.Files.Os.{Os, render, last_part, with_path}
use kanna_pa.Files.Write.{asked}
use kanna_pa.Tools.Scaffold.Templates.{ScaffoldFile, template_for}

-- The files that were created and modified so far.
pub record Progress : Type 0 where
  pub created : List String
  pub modified : List String

abbrev items_of : List String → Items
items_of [] = nil
items_of (x ∷ xs) = cons (str x) (items_of xs)

abbrev finished : (language steps : String) → Progress → ToolResult
finished language steps w =
    record (ok_result (
      field "language" (str language) (
        field "files_created" (arr (items_of (w.created ++ w.modified)))
          (field "next_steps" (str steps) end)))) {
            files_created = w.created;
            files_modified = w.modified;
          }

abbrev noted : Bool → List String → Progress → Progress
noted true p w = record w { modified = w.modified ++ render p ∷ [] }
noted false p w = record w { created = w.created ++ render p ∷ [] }

-- `args.get("project_name") or resolved.name`
abbrev name_of : Option Value → List String → String
name_of (some (str s)) p = if s =ₛ "" then last_part p else s
name_of _ p = last_part p

module _ (os : Os) where
  -- `write_text` of one file; none where an OSError leaves it.
  unfoldable pub write_one : List String → String → Disk → Option Disk
  unfolding make_dirs parent find_node put_node
  write_one p content d = elim (make_dirs os.now [] (parent p) d) [
    | none ↦ none
    | some d' ↦
        if is_folder (find_node p d')
        then none
        else some (put_node p (file (os.encode content) os.now) d')
  ]

  -- The loop over the files; an exception leaves what was written.
  unfoldable pub write_files :
      List String → (Progress → ToolResult) → List ScaffoldFile → Progress → Disk → Attempt × Disk
  unfolding write_one
  write_files p result [] w d = (returned (result w), d)
  write_files p result (f ∷ files) w d =
      let target = p ++ f.path in
      elim (write_one target f.content d) [
        | none ↦ (raised "OSError" "", d)
        | some d' ↦ write_files p result files (noted (exists_as (find_node target d)) target w) d'
      ]

  abbrev pub occupied : List String → List ScaffoldFile → Disk → Bool
  occupied p files d = any_of (λ (f : ScaffoldFile). exists_as (find_node (p ++ f.path) d)) files

  abbrev pub scaffold_in :
      Fields
      → List String
      → String
      → Option ((String → List ScaffoldFile) × String)
      → Disk
      → Attempt × Disk
  scaffold_in args p language none d =
      (returned (fail "unsupported_language" ("no scaffold for " <> language)), d)
  scaffold_in args p language (some (template, steps)) d =
      let files = template (name_of (get "project_name" args) p) in
      if occupied p files d && not (asked "overwrite" args)
      then (returned (fail "would_overwrite" "pass overwrite=true to replace them"), d)
      else write_files p (finished language steps) files (record { created = []; modified = [] }) d

  abbrev pub scaffold_as : Fields → List String → Option Value → Disk → Attempt × Disk
  scaffold_as args p (some (str language)) d = scaffold_in args p language (template_for language) d
  scaffold_as args p none d = (raised "KeyError" "'language'", d)
  scaffold_as args p (some _) d = (raised "TypeError" "", d)

  abbrev pub scaffold_at : Fields → List String → Disk → Attempt × Disk
  scaffold_at args p d =
      if exists_as (find_node p d) && not (is_folder (find_node p d))
      then (
        returned (fail "not_a_directory" ("path exists and is not a directory: " <> render p)),
        d,
      )
      else scaffold_as args p (get "language" args) d

  -- `ProjectScaffoldTool.execute`
  unfoldable pub project_scaffold : Sandbox → Fields → Disk → Attempt × Disk
  unfolding write_files template_for with_path
  project_scaffold s args d = with_path os s (scaffold_at args) args d
