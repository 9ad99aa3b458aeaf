-- ===== src/Files/Search.antt =====
-- tools/filesystem/search.py.
pub mod Matches
use kanna_pa.Prelude.{
  ℕ, zero, suc, ◌+◌, ◌*◌, String, ◌<>◌, Bool, true, false, not, ◌&&◌, ◌||◌, Option, none, some,
  List, [], ◌∷◌, ◌++◌, length, leb, ltb, sorted, if◌then◌else◌,
}
use kanna_pa.Prelude.Int.{pos}
use kanna_pa.Value.{
  Value, bool, int, str, obj, arr, Items, nil, cons, Fields, end, field, get, truthy, or_null,
}
use kanna_pa.Permissions.Sandbox.{Sandbox}
use kanna_pa.Tools.Result.{ok_result, fail}
use kanna_pa.Tools.Registry.{Attempt, returned, raised}
use kanna_pa.Files.Disk.{Node, folder, file, Disk, find_node, is_folder}
use kanna_pa.Files.Os.{Os, render, parts_le, with_path}
use kanna_pa.Files.Read.{is_descendant, visited}

unfoldable pub max_matches : ℕ
max_matches = 500

unfoldable pub max_file_bytes : ℕ
max_file_bytes = 2 * 1024 * 1024

pub record Match : Type 0 where
  pub path : List String
  pub line_number : ℕ
  pub line : String

-- line[:n]
unfoldable pub take_text : ℕ → String → String
take_text zero s = String.[]
take_text (suc n) String.[] = String.[]
take_text (suc n) (String.◌∷◌ c s) = String.◌∷◌ c (take_text n s)

abbrev pub match_at : List String → ℕ → String → Match
match_at p i line = record { path = p; line_number = i; line = take_text 500 line }

-- The lines of one file, from number `i`. The flag says that the limit was met.
unfoldable pub search_lines :
    (String → Bool) → List String → ℕ → List String → List Match → List Match × Bool
unfolding max_matches take_text
search_lines hit p i [] matches = (matches, false)
search_lines hit p i (line ∷ lines) matches =
    let more = matches ++ match_at p i line ∷ [] in
    let after_hit = search_lines hit p (i + 1) lines more in
    let after_miss = search_lines hit p (i + 1) lines matches in
    if hit line
    then (if leb max_matches (length more) then (more, true) else after_hit)
    else after_miss

-- The text of a file that is searched at all.
unfoldable pub searched_text : Os → Node → Option String
unfolding max_file_bytes
searched_text os (folder t) = none
searched_text os (file contents t) =
    if ltb max_file_bytes (length contents) then none else os.decode contents

abbrev pub lines_of : Os → Option String → List String
lines_of os none = []
lines_of os (some text) = os.split_lines text

-- The loop over the files; it ends once the limit is met.
unfoldable pub search_each :
    Os → (String → Bool) → List (List String × Node) → List Match → List Match × Bool
unfolding search_lines searched_text
search_each os hit [] matches = (matches, false)
search_each os hit ((p, n) ∷ files) matches =
    let found = search_lines hit p 1 (lines_of os (searched_text os n)) matches in
    let rest = search_each os hit files found.0 in if found.1 then (found.0, true) else rest

unfoldable pub match_items : List Match → Items
unfolding render
match_items [] = nil
match_items (m ∷ matches) =
    cons
      (obj (
        field "path" (str (render m.path))
          (field "line_number" (int (pos m.line_number)) (field "line" (str m.line) end))))
      (match_items matches)

abbrev by_parts : List String × Node → List String × Node → Bool
by_parts a b = parts_le a.0 b.0

-- sorted(resolved.rglob(glob_pattern))
unfoldable pub selected :
    (List String → List String → Bool) → List String → Disk → List (List String × Node)
unfolding visited sorted parts_le
selected glob root d = sorted by_parts (visited (λ p. is_descendant root p && glob root p) d)

-- args.get("glob") or "*"
abbrev pub glob_text : Value → Value
glob_text v = if truthy v then v else str "*"

abbrev pub search_under :
    Os → List String → (String → Bool) → Option (List String → List String → Bool) → Disk → Attempt
search_under os p hit none d = raised "NotImplementedError" ""
search_under os p hit (some glob) d =
    let found = search_each os hit (selected glob p d) [] in
    returned (
      ok_result
        (field "matches" (arr (match_items found.0)) (field "truncated" (bool found.1) end)))

abbrev pub with_glob : Os → List String → (String → Bool) → Value → Disk → Attempt
with_glob os p hit (str g) d = search_under os p hit (os.glob g) d
with_glob os p hit _ d = raised "TypeError" ""

abbrev with_regex : Os → Fields → List String → String → Option (String → Bool) → Disk → Attempt
with_regex os args p text none d =
    returned (fail "invalid_pattern" ("invalid regular expression: " <> os.compile_error text))
with_regex os args p text (some hit) d =
    with_glob os p hit (glob_text (or_null (get "glob" args))) d

abbrev with_pattern : Os → Fields → List String → Option Value → Disk → Attempt
with_pattern os args p none d = raised "KeyError" "'pattern'"
with_pattern os args p (some (str text)) d = with_regex os args p text (os.compile text) d
with_pattern os args p (some _) d = raised "TypeError" ""

unfoldable pub search_at : Os → Fields → List String → Disk → Attempt
unfolding find_node render search_each selected match_items
search_at os args p d =
    if is_folder (find_node p d)
    then with_pattern os args p (get "pattern" args) d
    else returned (fail "not_found" ("directory does not exist: " <> render p))

-- `SearchFilesTool.execute`
unfoldable pub search_files : Os → Sandbox → Fields → Disk → Attempt × Disk
unfolding search_at with_path
search_files os s args d = with_path os s (λ p d. (search_at os args p d, d)) args d
