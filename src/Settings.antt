-- ===== src/Settings.antt =====
-- core/config/settings.py: `update_config_file`, which rewrites lines of the configuration, and the
-- order of the sources of `load_settings` and what it makes of them. The file is a text on a disk.
pub mod Lines
pub mod Load
pub mod Layers
pub mod Sourced
pub mod Make
pub mod Resolved
pub mod Tests
use Prim.Native.Char.{Char, code}
use kanna_pa.Prelude.{
  ℕ, String, ◌<>◌, Bool, true, false, ◌&&◌, ◌||◌, Option, none, some, List, [], ◌∷◌, ◌++◌, map,
  ◌==◌, leb, ◌=ₛ◌, if◌then◌else◌,
}
use kanna_pa.Value.{Value, bool, int, float}
use kanna_pa.Permissions.Gate.{is_space}
use kanna_pa.Files.Disk.{Disk, file, folder, find_node, put_node, erase, make_dirs, parent}
use kanna_pa.Files.Os.{Os, last_part}

-- [A-Za-z_] and [A-Za-z0-9_]
abbrev is_first : ℕ → Bool
is_first c = (leb b'A' c && leb c b'Z') || (leb b'a' c && leb c b'z') || c == b'_'

abbrev is_later : ℕ → Bool
is_later c = is_first c || (leb b'0' c && leb c b'9')

unfoldable pub skip_spaces : String → String
unfolding is_space
skip_spaces String.[] = String.[]
skip_spaces (String.◌∷◌ c s) =
    let rest = skip_spaces s in if is_space (code c) then rest else String.◌∷◌ c s

abbrev before_equals : String → Bool
before_equals String.[] = false
before_equals (String.◌∷◌ c s) = code c == b'='

-- The rest of a key, and whether `\s*=` stands behind it.
unfoldable pub take_key : String → String × Bool
unfolding skip_spaces
take_key String.[] = ("", false)
take_key (String.◌∷◌ c s) =
    let (key, ends) = take_key s in
    if is_later (code c)
    then (String.◌∷◌ c key, ends)
    else ("", before_equals (skip_spaces (String.◌∷◌ c s)))

abbrev whole_key : Char → String × Bool → Option String
whole_key c (key, true) = some (String.◌∷◌ c key)
whole_key c (key, false) = none

abbrev key_at : String → Option String
key_at String.[] = none
key_at (String.◌∷◌ c s) = if is_first (code c) then whole_key c (take_key s) else none

-- The group of `_TOML_KEY_RE.match(line)`
unfoldable pub key_of : String → Option String
unfolding skip_spaces take_key
key_of line = key_at (skip_spaces line)

-- Backslashes, and then quotes, behind a backslash.
unfoldable pub escaped : String → String
escaped String.[] = String.[]
escaped (String.◌∷◌ c s) =
    let rest = escaped s in
    if code c == b'\\' || code c == b'"' then "\\" <> String.◌∷◌ c rest else String.◌∷◌ c rest

abbrev shown : (Value → String) → Value → String
shown show (bool true) = "true"
shown show (bool false) = "false"
shown show (int n) = show (int n)
shown show (float m e) = show (float m e)
shown show v = "\"" <> escaped (show v) <> "\""

-- `_toml_scalar_line`; `show` is str().
unfoldable pub toml_scalar_line : (Value → String) → String → Value → String
unfolding escaped
toml_scalar_line show key v = key <> " = " <> shown show v

abbrev pub Updates : Type 0
Updates = List (String × Value)

unfoldable pub find_update : String → Updates → Option Value
find_update k [] = none
find_update k ((j, v) ∷ u) = let rest = find_update k u in if j =ₛ k then some v else rest

-- remaining.pop(k)
unfoldable pub pop : String → Updates → Updates
pop k [] = []
pop k ((j, v) ∷ u) = let rest = pop k u in if j =ₛ k then rest else (j, v) ∷ rest

module _ (show : Value → String) where
  -- A line, and the updates that remain behind it.
  unfoldable pub replaced : String → Updates → String × Updates
  replaced line u = elim (key_of line) [
    | none ↦ (line, u)
    | some k ↦ elim (find_update k u) [
      | none ↦ (line, u)
      | some v ↦ (toml_scalar_line show k v, pop k u)
    ]
  ]

  unfoldable pub added : Updates → List String
  added [] = []
  added ((k, v) ∷ u) = toml_scalar_line show k v ∷ added u

  -- The lines of the file, and behind them those of the updates that remain.
  unfoldable pub update_lines : Updates → List String → List String
  update_lines u [] = added u
  update_lines u (line ∷ lines) = let (line', u') = replaced line u in line' ∷ update_lines u' lines

-- "\n".join(out) + ("\n" if out else "")
unfoldable pub joined : List String → String
joined [] = ""
joined (line ∷ lines) = line <> "\n" <> joined lines

module _ (os : Os) (show : Value → String) where
  -- path.read_text().splitlines() if path.exists() else []; none where the text is not readable.
  abbrev pub config_lines : List String → Disk → Option (List String)
  config_lines p d = elim (find_node p d) [
    | none ↦ some []
    | some (folder t) ↦ none
    | some (file bytes t) ↦ elim (os.decode bytes) [
      | none ↦ none
      | some text ↦ some (os.split_lines text)
    ]
  ]

  abbrev pub temporary : List String → List String
  temporary p = parent p ++ (last_part p <> ".tmp") ∷ []

  -- The text is written to a temporary file, which then takes the place of the old one.
  abbrev write_config : List String → String → Disk → Disk
  write_config p text d =
      let bytes = os.encode text in
      put_node p (file bytes os.now)
        (erase (temporary p) (put_node (temporary p) (file bytes os.now) d))

  -- `update_config_file`; none where an OSError or a UnicodeDecodeError leaves it.
  unfoldable pub update_config_file : List String → Updates → Disk → Option Disk
  unfolding find_node put_node erase make_dirs parent last_part update_lines joined
  update_config_file p u d = elim (config_lines p d) [
    | none ↦ none
    | some lines ↦ elim (make_dirs os.now [] (parent p) d) [
      | none ↦ none
      | some d' ↦ some (write_config p (joined (update_lines show u lines)) d')
    ]
  ]
