-- ===== src/Files/Tools.antt =====
-- The tools of tools/filesystem with their permissions and schemas, and `register_all`.
use kanna_pa.Prelude.{String, false, List, [], ◌∷◌}
use kanna_pa.Value.{Value, bool, str}
use kanna_pa.Permissions.{low, review}
use kanna_pa.Permissions.Sandbox.{Sandbox}
use kanna_pa.Planner.Plan.{plain}
use kanna_pa.Tools.Schema.{
  SchemaType, object, array, string, integer, boolean, Schema, schema, Properties, no_properties,
  property, no_items, items,
}
use kanna_pa.Tools.Registry.{Tool, Registry, Outcome, ok, duplicate_name, tool_not_found, register}
use kanna_pa.Files.Disk.{Disk}
use kanna_pa.Files.Os.{Os}
use kanna_pa.Files.Read.{read_file, file_info, list_directory}
use kanna_pa.Files.Write.{write_file, create_directory, delete_file}
use kanna_pa.Files.Search.{search_files}

-- `obj`, `string`, `integer`, `boolean` and `array`, with a description and a default
abbrev leaf : SchemaType → String → Value → Schema
leaf t text d = schema (record (plain t) { description = text; default = d }) no_properties no_items

abbrev of_type : SchemaType → Schema
of_type t = schema (plain t) no_properties no_items

abbrev object_of : Properties → List String → Schema
object_of ps required = schema (record (plain object) { required = required }) ps no_items

abbrev array_of : Schema → Schema
array_of s = schema (plain array) no_properties (items s)

module _ (os : Os) (s : Sandbox) where
  abbrev pub read_tool : Tool Disk
  read_tool = record {
    name = "fs_read_file";
    permission = low;
    input_schema =
        object_of
          (property "path"
            (leaf string "Path to the file, absolute or relative to the sandbox root" Value.null)
            no_properties)
          ("path" ∷ []);
    output_schema =
        object_of
          (property "content" (of_type string) (
            property "path" (of_type string) (
              property "size_bytes" (of_type integer)
                (property "truncated" (of_type boolean) no_properties))))
          [];
    execute = read_file os s;
  }

  abbrev pub write_tool : Tool Disk
  write_tool = record {
    name = "fs_write_file";
    permission = review;
    input_schema =
        object_of
          (property "path" (leaf string "Destination path" Value.null) (
            property "content" (leaf string "Text content to write" Value.null) (
              property "overwrite" (leaf boolean "Allow overwriting an existing file" (bool false))
                no_properties)))
          ("path" ∷ "content" ∷ []);
    output_schema =
        object_of
          (property "path" (of_type string)
            (property "bytes_written" (of_type integer) no_properties))
          [];
    execute = write_file os s;
  }

  abbrev pub list_tool : Tool Disk
  list_tool = record {
    name = "fs_list_directory";
    permission = low;
    input_schema =
        object_of
          (property "path" (leaf string "Directory path" Value.null) (
            property "recursive" (leaf boolean "Recurse into subdirectories" (bool false))
              no_properties))
          ("path" ∷ []);
    output_schema =
        object_of
          (property "path" (of_type string) (
            property "entries"
              (array_of (
                object_of
                  (property "name" (of_type string) (
                    property "path" (of_type string) (
                      property "is_dir" (of_type boolean)
                        (property "size_bytes" (of_type integer) no_properties))))
                  []))
              no_properties))
          [];
    execute = list_directory os s;
  }

  abbrev pub search_tool : Tool Disk
  search_tool = record {
    name = "fs_search_files";
    permission = low;
    input_schema =
        object_of
          (property "path" (leaf string "Directory to search under" Value.null) (
            property "pattern" (leaf string "Regular expression to search for" Value.null) (
              property "glob" (leaf string "Filename glob filter, e.g. '*.py'" (str "*"))
                no_properties)))
          ("path" ∷ "pattern" ∷ []);
    output_schema =
        object_of
          (property "matches"
            (array_of (
              object_of
                (property "path" (of_type string) (
                  property "line_number" (of_type integer)
                    (property "line" (of_type string) no_properties)))
                []))
            (property "truncated" (of_type boolean) no_properties))
          [];
    execute = search_files os s;
  }

  abbrev pub mkdir_tool : Tool Disk
  mkdir_tool = record {
    name = "fs_create_directory";
    permission = low;
    input_schema =
        object_of (property "path" (leaf string "Directory to create" Value.null) no_properties)
          ("path" ∷ []);
    output_schema =
        object_of
          (property "path" (of_type string) (property "created" (of_type string) no_properties)) [];
    execute = create_directory os s;
  }

  abbrev pub info_tool : Tool Disk
  info_tool = record {
    name = "fs_file_info";
    permission = low;
    input_schema = object_of (property "path" (of_type string) no_properties) ("path" ∷ []);
    output_schema =
        object_of
          (property "path" (of_type string) (
            property "exists" (of_type boolean) (
              property "is_file" (of_type boolean) (
                property "is_dir" (of_type boolean) (
                  property "size_bytes" (of_type integer)
                    (property "modified_at" (of_type string) no_properties))))))
          [];
    execute = file_info os s;
  }

  abbrev pub delete_tool : Tool Disk
  delete_tool = record {
    name = "fs_delete";
    permission = review;
    input_schema =
        object_of
          (property "path" (leaf string "Path to delete" Value.null) (
            property "recursive"
              (leaf boolean "Required to delete a non-empty directory" (bool false)) no_properties))
          ("path" ∷ []);
    output_schema = object_of (property "path" (of_type string) no_properties) [];
    execute = delete_file os s;
  }

  -- `ALL_TOOLS`
  abbrev pub all_tools : List (Tool Disk)
  all_tools =
      read_tool ∷ write_tool ∷ list_tool ∷ search_tool ∷ mkdir_tool ∷ info_tool ∷ delete_tool ∷ []

-- The loop of `register_all`; the exception of `register` ends it.
unfoldable pub register_each : List (Tool Disk) → Registry Disk → Outcome (Registry Disk)
unfolding register
register_each [] r = ok r
register_each (t ∷ ts) r = elim (register r t) [
  | ok r' ↦ register_each ts r'
  | duplicate_name ↦ duplicate_name
  | tool_not_found ↦ tool_not_found
]

unfoldable pub register_all : Os → Sandbox → Registry Disk → Outcome (Registry Disk)
unfolding register_each
register_all os s r = register_each (all_tools os s) r
