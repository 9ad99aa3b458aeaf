-- ===== src/Files/Write.antt =====
-- tools/filesystem/write.py, mkdir.py and delete.py.
use kanna_pa.Prelude.{
  ℕ, String, ◌<>◌, Bool, false, ◌&&◌, not, Option, none, some, List, [], ◌∷◌, length, if◌then◌else◌,
}
use kanna_pa.Prelude.Int.{pos}
use kanna_pa.Value.{Value, bool, int, str, Fields, end, field, get, or_default, truthy}
use kanna_pa.Permissions.Sandbox.{Sandbox}
use kanna_pa.Tools.Result.{ToolResult, ok_result, fail}
use kanna_pa.Tools.Registry.{Attempt, returned, raised}
use kanna_pa.Files.Disk.{
  Node, folder, file, Disk, find_node, is_folder, exists_as, put_node, erase, make_dirs, parent,
}
use kanna_pa.Files.Os.{Os, render, with_path}

abbrev pub asked : String → Fields → Bool
asked key args = truthy (or_default (bool false) (get key args))

abbrev written : List String → ℕ → Bool → ToolResult
written p size existed =
    let result =
      ok_result (field "path" (str (render p)) (field "bytes_written" (int (pos size)) end)) in
    if existed
    then record result { files_modified = render p ∷ [] }
    else record result { files_created = render p ∷ [] }

abbrev pub made : List String → Bool → Disk → Option Disk → Attempt × Disk
made p existed d none = (raised "OSError" "", d)
made p existed d (some d') =
    let result = ok_result (
      field "path" (str (render p))
        (field "created" (str (if existed then "False" else "True")) end)) in
    (returned (if existed then result else record result { files_created = render p ∷ [] }), d')

module _ (os : Os) where
  -- `write_text` of args["content"], once the parent is there.
  unfoldable pub write_content : List String → Bool → Option Value → Disk → Attempt × Disk
  unfolding render put_node
  write_content p existed (some (str content)) d = (
    returned (written p (length (os.encode content)) existed),
    put_node p (file (os.encode content) os.now) d,
  )
  write_content p existed none d = (raised "KeyError" "'content'", d)
  write_content p existed (some _) d = (raised "TypeError" "", d)

  abbrev pub into_parent : List String → Bool → Option Value → Disk → Option Disk → Attempt × Disk
  into_parent p existed content d none = (raised "OSError" "", d)
  into_parent p existed content d (some d') = write_content p existed content d'

  unfoldable pub write_at : Fields → List String → Disk → Attempt × Disk
  unfolding write_content render make_dirs parent find_node
  write_at args p d =
      let existed = exists_as (find_node p d) in
      if existed && is_folder (find_node p d)
      then (returned (fail "is_a_directory" ("path is a directory: " <> render p)), d)
      else if existed && not (asked "overwrite" args)
      then (
        returned (
            fail "already_exists"
              ("'" <> render p <> "' already exists; pass overwrite=true to replace it")),
        d,
      )
      else into_parent p existed (get "content" args) d (make_dirs os.now [] (parent p) d)

  -- `WriteFileTool.execute`
  unfoldable pub write_file : Sandbox → Fields → Disk → Attempt × Disk
  unfolding write_at with_path
  write_file s args d = with_path os s (write_at args) args d

  unfoldable pub make_at : List String → Disk → Attempt × Disk
  unfolding render make_dirs find_node
  make_at p d =
      if exists_as (find_node p d) && not (is_folder (find_node p d))
      then (returned (fail "not_a_directory" ("a non-directory already exists at " <> render p)), d)
      else made p (exists_as (find_node p d)) d (make_dirs os.now [] p d)

  -- `CreateDirectoryTool.execute`
  unfoldable pub create_directory : Sandbox → Fields → Disk → Attempt × Disk
  unfolding make_at with_path
  create_directory s args d = with_path os s make_at args d

abbrev pub deleted : List String → ToolResult
deleted p = record (ok_result (field "path" (str (render p)) end)) { files_deleted = render p ∷ [] }

unfoldable pub delete_node : Bool → List String → Option Node → Disk → Attempt × Disk
unfolding render erase
delete_node recursive p none d =
    (returned (fail "not_found" ("path does not exist: " <> render p)), d)
delete_node recursive p (some (folder t)) d =
    if recursive
    then (returned (deleted p), erase p d)
    else (returned (fail "is_a_directory" "pass recursive=true to delete a directory"), d)
delete_node recursive p (some (file contents t)) d = (returned (deleted p), erase p d)

-- `DeleteFileTool.execute`
unfoldable pub delete_file : Os → Sandbox → Fields → Disk → Attempt × Disk
unfolding delete_node with_path find_node
delete_file os s args d =
    with_path os s (λ p d. delete_node (asked "recursive" args) p (find_node p d) d) args d
