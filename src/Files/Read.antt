-- ===== src/Files/Read.antt =====
-- tools/filesystem/read.py, info.py and list_dir.py.
use kanna_pa.Prelude.{
  ℕ, zero, suc, ◌*◌, String, ◌<>◌, Bool, false, ◌&&◌, not, Option, none, some, List, [], ◌∷◌,
  length, ltb, sorted, if◌then◌else◌,
}
use kanna_pa.Prelude.Int.{pos}
use kanna_pa.Value.{
  bool, int, str, obj, arr, Items, nil, cons, Fields, end, field, get, or_default, truthy,
}
use kanna_pa.Permissions.Sandbox.{Sandbox, is_under}
use kanna_pa.Tools.Result.{ok_result, fail}
use kanna_pa.Tools.Registry.{Attempt, returned}
use kanna_pa.Files.Disk.{
  Node, folder, file, Disk, same_path, find_node, is_folder, is_file, exists_as, size_of,
  modified_of, parent,
}
use kanna_pa.Files.Os.{Os, render, last_part, text_le, with_path}

-- xs[:n]
abbrev pub take : ℕ → List ℕ → List ℕ
take zero xs = []
take (suc n) [] = []
take (suc n) (x ∷ xs) = x ∷ take n xs

unfoldable pub max_bytes : ℕ
max_bytes = 5 * 1024 * 1024

abbrev pub decoded : List String → Option String → ℕ → Bool → Attempt
decoded p none size truncated =
    returned (fail "not_text" ("file is not valid UTF-8 text: " <> render p))
decoded p (some content) size truncated = returned (
    ok_result (
      field "content" (str content) (
        field "path" (str (render p))
          (field "size_bytes" (int (pos size)) (field "truncated" (bool truncated) end)))))

module _ (os : Os) where
  unfoldable pub read_node : List String → Option Node → Attempt
  unfolding render max_bytes
  read_node p none = returned (fail "not_found" ("file does not exist: " <> render p))
  read_node p (some (folder t)) =
      returned (fail "is_a_directory" ("path is a directory, not a file: " <> render p))
  read_node p (some (file contents t)) =
      let truncated = ltb max_bytes (length contents) in
      decoded p (os.decode (if truncated then take max_bytes contents else contents))
        (length contents) truncated

  -- `ReadFileTool.execute`
  unfoldable pub read_file : Sandbox → Fields → Disk → Attempt × Disk
  unfolding read_node with_path find_node
  read_file s args d = with_path os s (λ p d. (read_node p (find_node p d), d)) args d

abbrev info_fields : List String → Bool → Bool → Bool → ℕ → String → Fields
info_fields p there as_file as_folder size modified = field "path" (str (render p)) (
    field "exists" (bool there) (
      field "is_file" (bool as_file) (
        field "is_dir" (bool as_folder)
          (field "size_bytes" (int (pos size)) (field "modified_at" (str modified) end)))))

unfoldable pub describe_node : List String → Option Node → Attempt
unfolding render
describe_node p n =
    returned (
      ok_result (info_fields p (exists_as n) (is_file n) (is_folder n) (size_of n) (modified_of n)))

-- `FileInfoTool.execute`
unfoldable pub file_info : Os → Sandbox → Fields → Disk → Attempt × Disk
unfolding describe_node with_path find_node
file_info os s args d = with_path os s (λ p d. (describe_node p (find_node p d), d)) args d

-- What `rglob("*")` and `iterdir()` visit below `root`.
abbrev pub is_descendant : List String → List String → Bool
is_descendant root p = is_under root p && not (same_path root p)

abbrev pub is_child : List String → List String → Bool
is_child root p = same_path root (parent p) && not (same_path root p)

unfoldable pub visited : (List String → Bool) → Disk → List (List String × Node)
visited wanted [] = []
visited wanted ((p, n) ∷ d) =
    let rest = visited wanted d in if wanted p then (p, n) ∷ rest else rest

abbrev by_text : List String × Node → List String × Node → Bool
by_text a b = text_le (render a.0) (render b.0)

unfoldable pub entry_items : List (List String × Node) → Items
unfolding render last_part
entry_items [] = nil
entry_items ((p, n) ∷ rest) =
    cons
      (obj (
        field "name" (str (last_part p)) (
          field "path" (str (render p)) (
            field "is_dir" (bool (is_folder (some n)))
              (field "size_bytes" (int (pos (size_of (some n)))) end)))))
      (entry_items rest)

unfoldable pub list_node : List String → Bool → Option Node → Disk → Attempt
unfolding render visited sorted entry_items text_le is_under same_path parent
list_node p recursive none d =
    returned (fail "not_found" ("directory does not exist: " <> render p))
list_node p recursive (some (file contents t)) d =
    returned (fail "not_a_directory" ("path is not a directory: " <> render p))
list_node p recursive (some (folder t)) d =
    let wanted = if recursive then is_descendant p else is_child p in
    returned (
      ok_result (
        field "path" (str (render p))
          (field "entries" (arr (entry_items (sorted by_text (visited wanted d)))) end)))

-- `ListDirectoryTool.execute`
unfoldable pub list_directory : Os → Sandbox → Fields → Disk → Attempt × Disk
unfolding list_node with_path find_node
list_directory os s args d =
    let recursive = truthy (or_default (bool false) (get "recursive" args)) in
    with_path os s (λ p d. (list_node p recursive (find_node p d) d, d)) args d
