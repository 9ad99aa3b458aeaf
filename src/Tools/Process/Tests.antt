-- ===== src/Tools/Process/Tests.antt =====
-- Runs of tools/process/run_process.py on a disk with one folder.
use kanna_pa.Prelude.{◌≡◌, refl, [], ◌∷◌}
use kanna_pa.Prelude.Int.{pos}
use kanna_pa.Value.{Items, str, arr, nil, cons, Fields, field, end}
use kanna_pa.Permissions.Sandbox.{resolve}
use kanna_pa.Tools.Result.{fail}
use kanna_pa.Tools.Registry.{returned}
use kanna_pa.Files.Disk.{folder, find_node}
use kanna_pa.Files.Os.{path_of, last_part}
use kanna_pa.Files.Tests.{plain_os, home}
use kanna_pa.Tools.Process.{
  Machine, ProcessServices, completed, default_allowed_executables, texts_of, spawn, run_process,
}
use kanna_pa.Tools.Process.Confined.{AtMostOne, run_process-AtMostOne}

abbrev quiet : ProcessServices
quiet = record {
  os = plain_os;
  run = λ p m. (completed "" "" (pos 0), m.disk);
  show_int = λ n. "30";
  duration = λ m m'. "0.000";
}

abbrev idle : Machine
idle = record { disk = ("home" ∷ [], folder "old") ∷ []; started = [] }

abbrev in_home : Items → Fields
in_home command = field "command" (arr command) (field "cwd" (str "/home") end)

run_process-AtMostOne_example : AtMostOne quiet home default_allowed_executables idle (
    run_process quiet home default_allowed_executables
      (in_home (cons (str "make") (cons (str "all") nil)))
      idle)
run_process-AtMostOne_example =
    run_process-AtMostOne quiet home default_allowed_executables idle
      (in_home (cons (str "make") (cons (str "all") nil)))

make_starts :
    (run_process quiet home default_allowed_executables
      (in_home (cons (str "make") (cons (str "all") nil)))
      idle).1.started
    ≡ record { command = "make" ∷ "all" ∷ []; cwd = "home" ∷ []; timeout = pos 30 } ∷ []
unfolding run_process spawn texts_of path_of last_part resolve find_node
make_starts = refl

-- Only the last part of the name is compared with the list, and the whole name is run.
other_make_starts :
    (run_process quiet home default_allowed_executables
      (in_home (cons (str "./make") nil))
      idle).1.started
    ≡ record { command = "./make" ∷ []; cwd = "home" ∷ []; timeout = pos 30 } ∷ []
unfolding run_process spawn texts_of path_of last_part resolve find_node
other_make_starts = refl

shell_is_refused :
    run_process quiet home default_allowed_executables (in_home (cons (str "sh") nil)) idle
    ≡ (returned (fail "executable_not_allowed" "'sh' is not in the allowed executables list"), idle)
unfolding run_process texts_of path_of last_part
shell_is_refused = refl
