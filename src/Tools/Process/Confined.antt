-- ===== src/Tools/Process/Confined.antt =====
-- Which processes are started, and where: tools/process/run_process.py.
use mathlib.Core.List.{Memᴰ}
use kanna_pa.Prelude.{
  String, ◌≡◌, ◌⊎◌, refl, true, List, [], ◌∷◌, any_of, ◌=ₛ◌, Bool-cases, Option-cases, inl, inr,
}
use kanna_pa.Value.{Fields, get}
use kanna_pa.Permissions.Sandbox.{
  Sandbox, FilePath, Result, ok, violation, os_error, resolve, roots,
}
use kanna_pa.Permissions.Sandbox.Containment.{Under, resolve-ok_iff}
use kanna_pa.Tools.Registry.{Attempt}
use kanna_pa.Files.Disk.{find_node, is_folder}
use kanna_pa.Tools.Process.{
  Spawn, Machine, ProcessServices, base_name, command_of, spawn, in_directory, with_command,
  run_process,
}

-- The name of the command is on the list, and it runs in a directory below a root of the sandbox.
pub record IsConfined (s : Sandbox) (allowed : List String) (m : Machine) (p : Spawn) : Type 0 where
  pub listed :
      (executable : String) × ((rest : List String) × (p.command ≡ executable ∷ rest)
        × (any_of (λ a. a =ₛ base_name executable) allowed ≡ true))
  pub inside : (root : List String) × Memᴰ root (roots s) × Under root p.cwd
  pub directory : is_folder (find_node p.cwd m.disk) ≡ true

module _ (sv : ProcessServices) (s : Sandbox) (allowed : List String) (m : Machine) where
  -- Nothing happened, or one process was started that is confined.
  abbrev pub AtMostOne : Attempt × Machine → Type 0
  AtMostOne r = (r.1 ≡ m) ⊎ ((p : Spawn) × (r.1.started ≡ p ∷ m.started) × IsConfined s allowed m p)

  in_directory-AtMostOne :
      (executable : String) (rest : List String) (args : Fields) (f : FilePath)
      (r : Result (List String))
      → any_of (λ a. a =ₛ base_name executable) allowed ≡ true
      → resolve sv.os.os_resolve s f ≡ r
      → AtMostOne (in_directory sv s allowed (executable ∷ rest) args r m)
  unfolding spawn
  in_directory-AtMostOne executable rest args f (violation e) a h = inl refl
  in_directory-AtMostOne executable rest args f os_error a h = inl refl
  in_directory-AtMostOne executable rest args f (ok cwd) a h =
      let (_, below) = (resolve-ok_iff sv.os.os_resolve s f cwd).0 h in
      elim (Bool-cases (is_folder (find_node cwd m.disk))) [
        | inr absent ↦ rw (absent, in_directory) (inl refl)
        | inl there ↦
            rw (there, in_directory)
              (inr (
                _,
                refl,
                record {
                  listed = (executable, (rest, refl, a));
                  inside = below;
                  directory = there;
                },
              ))
      ]

  with_command-AtMostOne :
      (command : List String) (args : Fields) → AtMostOne (with_command sv s allowed command args m)
  with_command-AtMostOne [] args = inl refl
  with_command-AtMostOne (executable ∷ rest) args =
      elim (Bool-cases (any_of (λ a. a =ₛ base_name executable) allowed)) [
        | inr other ↦ rw (other, with_command) (inl refl)
        | inl listed ↦
            rw (listed, with_command) (in_directory-AtMostOne executable rest args _ _ listed refl)
      ]

  -- A call starts at most one process, and only if the name of its command is on the list and its
  -- working directory lies below a root of the sandbox; else the machine stays as it was.
  pub run_process-AtMostOne : (args : Fields) → AtMostOne (run_process sv s allowed args m)
  unfolding run_process
  run_process-AtMostOne args = elim (Option-cases (command_of (get "command" args))) [
    | inl e ↦ rw (e, run_process) (inl refl)
    | inr (command, e) ↦ rw (e, run_process) (with_command-AtMostOne command args)
  ]
