-- ===== src/Tools/Scaffold/Tests.antt =====
-- Runs of tools/scaffold/tools.py on a disk with one folder.
use kanna_pa.Prelude.{String, ◌≡◌, refl, true, some, [], ◌∷◌}
use kanna_pa.Value.{str, Fields, field, end}
use kanna_pa.Permissions.Sandbox.{resolve}
use kanna_pa.Files.Disk.{Disk, folder, file, find_node, exists_as}
use kanna_pa.Files.Os.{path_of, last_part}
use kanna_pa.Files.Tests.{plain_os, home}
use kanna_pa.Tools.Scaffold.{project_scaffold}
use kanna_pa.Tools.Scaffold.Keeps.{project_scaffold-keeps}

abbrev readme_there : Disk
readme_there = ("home" ∷ [], folder "old") ∷ ("home" ∷ "README.md" ∷ [], file (1 ∷ []) "old") ∷ []

abbrev java_at : String → Fields
java_at path = field "language" (str "java") (field "path" (str path) end)

project_scaffold-keeps_example :
    find_node
      ("home" ∷ "README.md" ∷ [])
      (project_scaffold plain_os home (java_at "/home") readme_there).1
    ≡ some (file (1 ∷ []) "old")
unfolding find_node
project_scaffold-keeps_example =
    project_scaffold-keeps plain_os home (java_at "/home") readme_there ("home" ∷ "README.md" ∷ [])
      (file (1 ∷ []) "old") refl refl

main_is_made :
    exists_as (
      find_node
        ("home" ∷ "app" ∷ "src" ∷ "Main.java" ∷ [])
        (project_scaffold plain_os home (java_at "/home/app") readme_there).1)
    ≡ true
unfolding project_scaffold path_of last_part resolve find_node
main_is_made = refl
