-- ===== src/Tools/Process.antt =====
-- tools/process/run_process.py. What a process does is a parameter: its output and exit code, that it
-- ran into the time limit, or that it could not be started.
pub mod Confined
pub mod Tests
use kanna_pa.Prelude.{
  ℕ, ◌-◌, String, ◌<>◌, Bool, true, false, ◌&&◌, ◌||◌, not, Option, none, some, List, [], ◌∷◌,
  any_of, ltb, ◌=ₛ◌, if◌then◌else◌,
}
use kanna_pa.Prelude.Int.{ℤ, pos, negsuc}
use kanna_pa.Value.{
  Value, null, bool, int, float, str, obj, arr, Items, nil, cons, Fields, end, field, get, or_null,
  truthy,
}
use kanna_pa.Permissions.Sandbox.{Sandbox, Result, ok, violation, os_error, resolve}
use kanna_pa.Tools.Result.{ok_result, fail}
use kanna_pa.Tools.Registry.{Attempt, returned, raised}
use kanna_pa.Files.Disk.{Disk, find_node, is_folder}
use kanna_pa.Files.Os.{Os, path_of, render, last_part}
use kanna_pa.Files.Search.{take_text}
use kanna_pa.Finance.Categories.{text_length}

-- A process that was started.
pub record Spawn : Type 0 where
  pub command : List String
  pub cwd : List String
  pub timeout : ℤ

pub data Run : Type 0 where
  completed : (stdout stderr : String) → (exit_code : ℤ) → Run
  timeout_expired : (stdout stderr : String) → Run
  os_failure : String → Run

-- The disk, the processes that were started, and the clock as a text of a duration.
pub record Machine : Type 0 where
  pub disk : Disk
  pub started : List Spawn

pub record ProcessServices : Type 0 where
  pub os : Os
  pub run : Spawn → Machine → Run × Disk
  pub show_int : ℤ → String
  pub duration : Machine → Machine → String

-- `DEFAULT_ALLOWED_EXECUTABLES`
abbrev pub default_allowed_executables : List String
default_allowed_executables =
    "python3" ∷ "python" ∷ "pytest" ∷ "gcc" ∷ "g++" ∷ "cc" ∷ "c++" ∷ "make" ∷ "rustc" ∷ "cargo"
    ∷ "javac" ∷ "java" ∷ "node" ∷ "npm" ∷ "octave" ∷ "octave-cli" ∷ "echo" ∷ "cat" ∷ "ls" ∷ []

unfoldable pub max_output_chars : ℕ
max_output_chars = 200000

-- `_truncate`
unfoldable pub truncate : String → String × Bool
unfolding max_output_chars text_length take_text
truncate text =
    if ltb max_output_chars (text_length text)
    then (take_text max_output_chars text, true)
    else (text, false)

abbrev shown_bool : Bool → String
shown_bool true = "True"
shown_bool false = "False"

abbrev report : String → String → ℤ → Bool → String → Attempt
report stdout stderr exit_code timed_out duration =
    let (out, out_cut) = truncate stdout in
    let (err, err_cut) = truncate stderr in
    returned (
      ok_result (
        field "stdout" (str out) (
          field "stderr" (str err) (
            field "exit_code" (int exit_code) (
              field "duration_seconds" (str duration) (
                field "timed_out" (str (shown_bool timed_out))
                  (field "truncated" (str (shown_bool (out_cut || err_cut))) end)))))))

-- list(args["command"]) of an array of texts; none where it holds something else
unfoldable pub texts_of : Items → Option (List String)
texts_of nil = some []
texts_of (cons (str s) rest) = elim (texts_of rest) [ none ↦ none | some ss ↦ some (s ∷ ss) ]
texts_of (cons _ rest) = none

abbrev pub command_of : Option Value → Option (List String)
command_of (some (arr xs)) = texts_of xs
command_of _ = none

-- args.get("timeout_seconds") or _DEFAULT_TIMEOUT
abbrev timeout_of : Value → ℤ
timeout_of (int n) = if truthy (int n) then n else pos 30
timeout_of _ = pos 30

-- args.get("cwd") or "."
abbrev cwd_of : Value → String
cwd_of (str s) = if s =ₛ "" then "." else s
cwd_of _ = "."

abbrev pub base_name : String → String
base_name executable = last_part (path_of executable).parts

module _ (sv : ProcessServices) (s : Sandbox) (allowed : List String) where
  abbrev with_run : Spawn → Machine → Run → Machine → Attempt
  with_run p m (completed stdout stderr code) m' =
      report stdout stderr code false (sv.duration m m')
  with_run p m (timeout_expired stdout stderr) m' =
      report stdout
        (stderr <> "\n[process killed after exceeding " <> sv.show_int p.timeout <> "s timeout]")
        (negsuc 0) true (sv.duration m m')
  with_run p m (os_failure message) m' =
      returned (fail "spawn_failed" ("could not start process: " <> message))

  -- `subprocess.run`
  unfoldable pub spawn : Spawn → Machine → Attempt × Machine
  unfolding truncate
  spawn p m =
      let (outcome, disk) = sv.run p m in
      let after : Machine = record { disk = disk; started = p ∷ m.started } in
      (with_run p m outcome after, after)

  abbrev pub in_directory :
      List String → Fields → Result (List String) → Machine → Attempt × Machine
  in_directory command args (violation e) m =
      (returned (fail "sandbox_violation" (sv.os.describe e)), m)
  in_directory command args os_error m = (raised "OSError" "", m)
  in_directory command args (ok cwd) m =
      if is_folder (find_node cwd m.disk)
      then spawn
          (record {
            command = command;
            cwd = cwd;
            timeout = timeout_of (or_null (get "timeout_seconds" args));
          })
          m
      else (returned (fail "not_found" ("working directory does not exist: " <> render cwd)), m)

  abbrev pub with_command : List String → Fields → Machine → Attempt × Machine
  with_command [] args m =
      (returned (fail "invalid_command" "command must be a non-empty argv list"), m)
  with_command (executable ∷ rest) args m =
      if any_of (λ a. a =ₛ base_name executable) allowed
      then in_directory (executable ∷ rest) args
          (resolve sv.os.os_resolve s (path_of (cwd_of (or_null (get "cwd" args))))) m
      else (
        returned (
            fail "executable_not_allowed"
              ("'" <> base_name executable <> "' is not in the allowed executables list")),
        m,
      )

  -- `ProcessTool.execute`
  unfoldable pub run_process : Fields → Machine → Attempt × Machine
  unfolding texts_of spawn path_of last_part render find_node resolve
  run_process args m = elim (command_of (get "command" args)) [
    | none ↦ (raised "TypeError" "", m)
    | some command ↦ with_command command args m
  ]
