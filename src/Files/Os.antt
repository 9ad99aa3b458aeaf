-- ===== src/Files/Os.antt =====
-- What the file tools use of the language and the operating system: paths as texts, the order of
-- texts, UTF-8, regular expressions and the sandbox that `ToolContext` holds.
use Prim.Native.Char.{Char, code}
use kanna_pa.Prelude.{
  ℕ, String, ◌<>◌, ◌≡◌, refl, Bool, true, false, ◌||◌, Option, none, some, List, [], ◌∷◌, ◌==◌, ltb,
  ◌=ₛ◌, if◌then◌else◌,
}
use kanna_pa.Value.{Value, str, Fields, get}
use kanna_pa.Permissions.Sandbox.{
  FilePath, Sandbox, SandboxError, Result, ok, violation, os_error, resolve,
}
use kanna_pa.Tools.Result.{fail}
use kanna_pa.Tools.Registry.{Attempt, returned, raised}
use kanna_pa.Files.Disk.{Disk}

-- `os_resolve` follows links and `..`. `compile` gives the search of a regular expression, and
-- `glob` the test of `rglob(pattern)` on a root and a path below it; none where they raise.
pub record Os : Type 0 where
  pub os_resolve : List String → Option (List String)
  pub describe : SandboxError → String
  pub now : String
  pub encode : String → List ℕ
  pub decode : List ℕ → Option String
  pub split_lines : String → List String
  pub compile : String → Option (String → Bool)
  pub compile_error : String → String
  pub glob : String → Option (List String → List String → Bool)

-- The parts between slashes; empty parts and `.` are dropped.
abbrev is_slash : Char → Bool
is_slash c = code c == b'/'

abbrev keep_part : String → List String → List String
keep_part part parts = if part =ₛ "" || part =ₛ "." then parts else part ∷ parts

-- The first part, and the parts behind it.
unfoldable pub split_path : String → String × List String
split_path String.[] = ("", [])
split_path (String.◌∷◌ c s) =
    let (part, parts) = split_path s in
    if is_slash c then ("", keep_part part parts) else (String.◌∷◌ c part, parts)

abbrev starts_with_slash : String → Bool
starts_with_slash String.[] = false
starts_with_slash (String.◌∷◌ c s) = is_slash c

-- Path(text)
unfoldable pub path_of : String → FilePath
unfolding split_path
path_of s = record {
  is_absolute = starts_with_slash s;
  parts = let (part, parts) = split_path s in keep_part part parts;
}

-- str(path) of an absolute path
unfoldable pub render : List String → String
render [] = "/"
render (x ∷ []) = "/" <> x
render (x ∷ y ∷ p) = "/" <> x <> render (y ∷ p)

-- path.name
unfoldable pub last_part : List String → String
last_part [] = ""
last_part (x ∷ []) = x
last_part (x ∷ y ∷ p) = last_part (y ∷ p)

-- The order of texts by code points, and of paths by their parts.
unfoldable pub text_le : String → String → Bool
text_le String.[] t = true
text_le (String.◌∷◌ c s) String.[] = false
text_le (String.◌∷◌ c s) (String.◌∷◌ e t) =
    let rest = text_le s t in if code c == code e then rest else ltb (code c) (code e)

unfoldable pub parts_le : List String → List String → Bool
unfolding text_le
parts_le [] q = true
parts_le (x ∷ p) [] = false
parts_le (x ∷ p) (y ∷ q) = let rest = parts_le p q in if x =ₛ y then rest else text_le x y

module _ (os : Os) (s : Sandbox) where
  abbrev pub at_resolved :
      (List String → Disk → Attempt × Disk) → Result (List String) → Disk → Attempt × Disk
  at_resolved run (ok p) d = run p d
  at_resolved run (violation e) d = (returned (fail "sandbox_violation" (os.describe e)), d)
  at_resolved run os_error d = (raised "OSError" "", d)

  abbrev pub at_path : (List String → Disk → Attempt × Disk) → Option Value → Disk → Attempt × Disk
  at_path run none d = (raised "KeyError" "'path'", d)
  at_path run (some (str t)) d = at_resolved run (resolve os.os_resolve s (path_of t)) d
  at_path run (some _) d = (raised "TypeError" "", d)

  -- How each `execute` starts: `ctx.sandbox.resolve(args["path"])`, and a violation is a result.
  unfoldable pub with_path : (List String → Disk → Attempt × Disk) → Fields → Disk → Attempt × Disk
  with_path run args d = at_path run (get "path" args) d

  at_resolved_ind :
      (Q : Attempt × Disk → Type 0) (run : List String → Disk → Attempt × Disk)
      (r : Result (List String)) (d : Disk)
      → ((a : Attempt) → Q (a, d))
      → ((p : List String) → r ≡ ok p → Q (run p d))
      → Q (at_resolved run r d)
  at_resolved_ind Q run (ok p) d same inside = inside p refl
  at_resolved_ind Q run (violation e) d same inside = same _
  at_resolved_ind Q run os_error d same inside = same _

  at_path_ind :
      (Q : Attempt × Disk → Type 0) (run : List String → Disk → Attempt × Disk) (v : Option Value)
      (d : Disk)
      → ((a : Attempt) → Q (a, d))
      → ((t : String) (p : List String)
          → v ≡ some (str t)
          → resolve os.os_resolve s (path_of t) ≡ ok p
          → Q (run p d))
      → Q (at_path run v d)
  at_path_ind Q run none d same inside = same _
  at_path_ind Q run (some (str t)) d same inside =
      at_resolved_ind Q run (resolve os.os_resolve s (path_of t)) d same (λ p e. inside t p refl e)
  at_path_ind Q run (some Value.null) d same inside = same _
  at_path_ind Q run (some (Value.bool b)) d same inside = same _
  at_path_ind Q run (some (Value.int n)) d same inside = same _
  at_path_ind Q run (some (Value.float m k)) d same inside = same _
  at_path_ind Q run (some (Value.obj fs)) d same inside = same _
  at_path_ind Q run (some (Value.arr xs)) d same inside = same _

  -- What holds wherever the disk stays as it was, and of what `run` does at each path that the
  -- sandbox lets through, holds of the whole.
  pub with_path_ind :
      (Q : Attempt × Disk → Type 0) (run : List String → Disk → Attempt × Disk) (args : Fields)
      (d : Disk)
      → ((a : Attempt) → Q (a, d))
      → ((t : String) (p : List String)
          → get "path" args ≡ some (str t)
          → resolve os.os_resolve s (path_of t) ≡ ok p
          → Q (run p d))
      → Q (with_path run args d)
  unfolding with_path
  with_path_ind Q run args d same inside = at_path_ind Q run (get "path" args) d same inside

  -- At a path that the sandbox lets through the rest of `execute` runs.
  pub with_path-resolve :
      (run : List String → Disk → Attempt × Disk) (args : Fields) (d : Disk) (t : String)
      (p : List String)
      → get "path" args ≡ some (str t)
      → resolve os.os_resolve s (path_of t) ≡ ok p
      → with_path run args d ≡ run p d
  unfolding with_path
  with_path-resolve run args d t p given inside =
      rw (given, at_path) (rw (inside, at_resolved) refl)
