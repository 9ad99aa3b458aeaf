-- ===== src/Tools/Result.antt =====
-- core/tools/result.py.
use kanna_pa.Prelude.{ℕ, String, Bool, true, false, Option, none, some, List, []}
use kanna_pa.Prelude.Int.{pos}
use kanna_pa.Value.{Value, null, bool, int, str, arr, obj, Fields, end, field, strings}

pub record ToolError : Type 0 where
  pub code : String
  pub message : String
  pub details : Fields

-- `result_data` is the field `data`; a duration is a number of the clock's units.
pub record ToolResult : Type 0 where
  pub success : Bool
  pub result_data : Fields
  pub error : Option ToolError
  pub files_created : List String
  pub files_modified : List String
  pub files_deleted : List String
  pub metadata : Fields
  pub duration_ms : ℕ

abbrev pub ok_result : Fields → ToolResult
ok_result d = record {
  success = true;
  result_data = d;
  error = none;
  files_created = [];
  files_modified = [];
  files_deleted = [];
  metadata = end;
  duration_ms = 0;
}

abbrev pub fail_with : String → String → Fields → ToolResult
fail_with code message details = record {
  success = false;
  result_data = end;
  error = some (record { code = code; message = message; details = details });
  files_created = [];
  files_modified = [];
  files_deleted = [];
  metadata = end;
  duration_ms = 0;
}

abbrev pub fail : String → String → ToolResult
fail code message = fail_with code message end

abbrev pub error_value : Option ToolError → Value
error_value none = null
error_value (some e) = obj (
    field "code" (str e.code)
      (field "message" (str e.message) (field "details" (obj e.details) end)))

unfoldable pub to_dict : ToolResult → Fields
to_dict r = field "success" (bool r.success) (
    field "data" (obj r.result_data) (
      field "error" (error_value r.error) (
        field "files_created" (arr (strings r.files_created)) (
          field "files_modified" (arr (strings r.files_modified)) (
            field "files_deleted" (arr (strings r.files_deleted)) (
              field "metadata" (obj r.metadata)
                (field "duration_ms" (int (pos r.duration_ms)) end)))))))
