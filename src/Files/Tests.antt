-- ===== src/Files/Tests.antt =====
-- A small disk, and calls of the file tools on it.
use mathlib.Core.List.{Memᴰ}
use Prim.Native.Char.{code}
use kanna_pa.Prelude.{
  ℕ, String, ◌≡◌, refl, true, false, none, some, List, [], ◌∷◌, length, arith, ◌==◌, ◌=ₛ◌,
  if◌then◌else◌,
}
use kanna_pa.Value.{Value, str, bool, obj, Fields, end, field}
use kanna_pa.Permissions.Policy.{default_policy}
use kanna_pa.Permissions.Gate.{trust_store, deny_all}
use kanna_pa.Permissions.Sandbox.{Sandbox, resolve}
use kanna_pa.Tools.Registry.{Registry, Context, Services, get_tool, invoke_tool, invoke}
use kanna_pa.Files.Disk.{folder, file, Disk, find_node}
use kanna_pa.Files.Os.{Os, path_of}
use kanna_pa.Files.Read.{max_bytes, decoded, read_file}
use kanna_pa.Files.Write.{write_file}
use kanna_pa.Files.Tools.{all_tools, delete_tool, write_tool}
use kanna_pa.Files.Kept.Roots.{WithinRoots, execute-WithinRoots}
use kanna_pa.Files.Unattended.{invoke-keeps}
use kanna_pa.Files.Results.{read_file-write_file}

abbrev codes : String → List ℕ
codes String.[] = []
codes (String.◌∷◌ c s) = code c ∷ codes s

-- A codec for the one text that the tests write.
abbrev pub plain_os : Os
plain_os = record {
  os_resolve = λ p. some p;
  describe = λ e. "outside";
  now = "today";
  encode = codes;
  decode = λ bytes. if length bytes == 2 then some "hi" else none;
  split_lines = λ t. t ∷ [];
  compile = λ p. some (λ line. line =ₛ p);
  compile_error = λ p. "";
  glob = λ g. some (λ root p. true);
}

abbrev pub home : Sandbox
home = record { first_root = "home" ∷ []; other_roots = [] }

abbrev pub small_disk : Disk
small_disk = ("home" ∷ [], folder "old") ∷ ("home" ∷ "a.txt" ∷ [], file (codes "hi") "old") ∷ []

abbrev write_b : Fields
write_b = field "path" (str "notes/b.txt") (field "content" (str "hi") end)

abbrev file_registry : Registry Disk
file_registry = record {
  policy = default_policy;
  gate = trust_store [] deny_all;
  tools = all_tools plain_os home;
}

abbrev file_services : Services Disk
file_services = record {
  re_match = λ p s. true;
  monotonic = λ w. 0;
  describe_error = λ e. "invalid";
  can_record = λ w e. true;
}

abbrev file_context : Context Disk
file_context = record { world = small_disk; log = []; events = [] }

paths : (path_of "/home//./a.txt").parts ≡ "home" ∷ "a.txt" ∷ []
unfolding path_of
paths = refl

written_below :
    find_node ("home" ∷ "notes" ∷ "b.txt" ∷ []) (write_file plain_os home write_b small_disk).1
    ≡ some (file (codes "hi") "today")
unfolding write_file path_of resolve find_node
written_below = refl

read_file-write_file_example :
    read_file plain_os home write_b (write_file plain_os home write_b small_disk).1 ≡ (
      decoded ("home" ∷ "notes" ∷ "b.txt" ∷ []) (some "hi") 2 false,
      (write_file plain_os home write_b small_disk).1,
    )
unfolding write_file path_of resolve max_bytes
read_file-write_file_example =
    read_file-write_file plain_os home write_b small_disk "notes/b.txt" "hi"
      ("home" ∷ "notes" ∷ "b.txt" ∷ []) refl refl refl refl (omega arith) refl

abbrev search_home : Fields
search_home = field "path" (str "/home") (field "pattern" (str "hi") end)

execute-WithinRoots_example : WithinRoots plain_os home write_b small_disk ("home" ∷ "notes" ∷ [])
unfolding write_file path_of resolve find_node
execute-WithinRoots_example =
    execute-WithinRoots plain_os home write_b small_disk ("home" ∷ "notes" ∷ [])
      (write_tool plain_os home) (Memᴰ.tail (Memᴰ.head refl)) (λ e. cc)

abbrev wipe : Value
wipe = obj (field "path" (str "/home") (field "recursive" (bool true) end))

invoke-keeps_example :
    find_node
      ("home" ∷ "a.txt" ∷ [])
      (invoke_tool file_services file_registry
        (delete_tool plain_os home)
        wipe
        file_context).1.world
    ≡ some (file (codes "hi") "old")
unfolding get_tool invoke find_node
invoke-keeps_example =
    invoke-keeps plain_os home file_services file_registry (delete_tool plain_os home) wipe
      file_context
      (invoke_tool file_services file_registry (delete_tool plain_os home) wipe file_context)
      (record { policy = refl; gate = refl })
      (Memᴰ.tail (Memᴰ.tail (Memᴰ.tail (Memᴰ.tail (Memᴰ.tail (Memᴰ.tail (Memᴰ.head refl))))))) refl
      refl ("home" ∷ "a.txt" ∷ []) (file (codes "hi") "old") refl
