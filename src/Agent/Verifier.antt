-- ===== src/Agent/Verifier.antt =====
-- core/agent/verifier.py: `verify`, in the agent loop, where there is always a sandbox.
pub mod Postconditions
use kanna_pa.Prelude.{
  ℕ, ◌+◌, String, ◌≡◌, Bool, true, false, ◌&&◌, ◌||◌, not, Option, none, some, List, [], ◌∷◌, ◌++◌,
  length, any_of, ltb, ◌=ₛ◌, if◌then◌else◌,
}
use kanna_pa.Prelude.Int.{ℤ, pos}
use kanna_pa.Value.{
  Value, null, bool, int, str, arr, obj, Items, nil, cons, Fields, end, field, get, has, or_null,
  or_default, same_class, numeric, lt_num, eq_value, truthy,
}
use kanna_pa.Permissions.Sandbox.{FilePath, Sandbox, resolve, ok, violation, os_error}
use kanna_pa.Tools.Result.{ToolResult, ToolError}
use kanna_pa.Planner.Plan.{PlanStep}

-- The file tree as the verifier sees it, in a state `W` of the outside.
pub record Files (W : Type 0) : Type 0 where
  pub sandbox : Sandbox
  pub parse_path : String → FilePath
  pub os_resolve : W → List String → Option (List String)
  pub exists : W → List String → Bool

pub data Reason : Type 0 where
  did_not_succeed : Option ToolError → Reason
  too_few_created too_few_modified empty_data timed_out : Reason
  not_equal : String → Reason
  wrong_exit_code : Value → Reason
  missing_output unverifiable_output : String → Reason

abbrev pub reason_if : Bool → Reason → List Reason
reason_if true r = r ∷ []
reason_if false r = []

-- `n < expected[key]` where the key is given; validated plans give an integer
abbrev pub fewer : ℕ → Option Value → Bool
fewer n none = false
fewer n (some v) = elim (numeric v) [ none ↦ false | some a ↦ lt_num (pos n, 0) a ]

-- `not data.get(key)` where a key is given
abbrev pub is_empty_at : Option Value → Fields → Bool
is_empty_at (some (str k)) fs = not (truthy (or_null (get k fs)))
is_empty_at _ fs = false

abbrev pub differs : Option Value → Value → Bool
differs none v = true
differs (some a) v = not (same_class a v) || not (eq_value a v)

unfoldable pub unequal : Fields → Fields → List Reason
unequal end actual = []
unequal (field k v fs) actual =
    reason_if (differs (get k actual) v) (not_equal k) ++ unequal fs actual

abbrev pub as_fields : Option Value → Fields
as_fields (some (obj fs)) = fs
as_fields _ = end

abbrev pub strings_of : Items → List String
strings_of nil = []
strings_of (cons (str s) xs) = s ∷ strings_of xs
strings_of (cons _ xs) = strings_of xs

abbrev pub as_strings : Option Value → List String
as_strings (some (arr xs)) = strings_of xs
as_strings _ = []

abbrev keep_unless : Bool → String → List String → List String
keep_unless true p ps = ps
keep_unless false p ps = p ∷ ps

-- list(dict.fromkeys(paths)): the first of equal paths stays
unfoldable pub unique_from : List String → List String → List String
unique_from seen [] = []
unique_from seen (p ∷ ps) =
    let known = any_of (λ q. q =ₛ p) seen in
    keep_unless known p (unique_from (if known then seen else p ∷ seen) ps)

unfoldable pub check_exit : String → Fields → ToolResult → List Reason
check_exit tool expected result =
    if result.success && (tool =ₛ "process_run" || has "exit_code" expected)
    then reason_if
        (not (
          eq_value (or_null (get "exit_code" result.result_data))
            (or_default (int (pos 0)) (get "exit_code" expected))))
        (wrong_exit_code (or_null (get "exit_code" result.result_data)))
      ++ reason_if
          (eq_value (or_null (get "timed_out" result.result_data)) (bool true)
            || eq_value (or_null (get "timed_out" result.result_data)) (str "True"))
          timed_out
    else []

-- expected or {"success": True}
abbrev pub effective : Fields → Fields
effective end = field "success" (bool true) end
effective (field k v fs) = field k v fs

abbrev pub expects_success : Fields → Bool
expects_success fs = truthy (or_default (bool true) (get "success" fs))

abbrev pub paths_of : Fields → ToolResult → List String
paths_of expected result =
    if result.success
    then unique_from []
        (as_strings (get "files_exist" expected) ++ (result.files_created ++ result.files_modified))
    else as_strings (get "files_exist" expected)

module _ {W : Type 0} (files : Files W) (w : W) where
  unfoldable pub check_path : String → List Reason
  check_path p = elim (resolve (files.os_resolve w) files.sandbox (files.parse_path p)) [
    | ok r ↦ reason_if (not (files.exists w r)) (missing_output p)
    | violation e ↦ unverifiable_output p ∷ []
    | os_error ↦ unverifiable_output p ∷ []
  ]

  unfoldable pub check_paths : List String → List Reason
  unfolding check_path
  check_paths [] = []
  check_paths (p ∷ ps) = check_path p ++ check_paths ps

  unfoldable pub verify : PlanStep → ToolResult → List Reason
  unfolding unequal check_exit check_paths unique_from
  verify step result =
      let expected = effective step.expected in
      reason_if (expects_success expected && not result.success) (did_not_succeed result.error)
      ++ (reason_if (fewer (length result.files_created) (get "min_files_created" expected))
            too_few_created
          ++ (reason_if (fewer (length result.files_modified) (get "min_files_modified" expected))
                too_few_modified
              ++ (reason_if (is_empty_at (get "data_nonempty_key" expected) result.result_data)
                    empty_data
                  ++ (unequal (as_fields (get "data_equals" expected)) result.result_data
                      ++ (check_exit step.tool_name expected result
                          ++ check_paths (paths_of expected result))))))
