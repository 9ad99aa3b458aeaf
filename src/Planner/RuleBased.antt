-- ===== src/Planner/RuleBased.antt =====
-- core/planner/rule_based.py. The five regular expressions are parameters, as what `search` finds of
-- them in a text: whether there is a match, and its groups.
pub mod Plans
use Prim.Native.Char.{code}
use kanna_pa.Prelude.{
  String, Bool, true, false, ◌&&◌, Option, none, some, List, [], ◌∷◌, ◌=ₛ◌, ◌≡◌, ◌<>◌,
  if◌then◌else◌, arith, All, if_ind, &&-eq_true, refl,
}
use kanna_pa.Value.{Value, null, str, obj, bool, Fields, end, field}
use kanna_pa.Permissions.Gate.{is_space}
use kanna_pa.Tools.Registry.{Registry, has_tool}
use kanna_pa.Planner.Plan.{PlanStep, Plan, Planned, ok, planning_error, no_plan}

pub record Patterns : Type 0 where
  pub finance_query : String → Bool
  pub finance_spend : String → Bool
  pub list_dir : String → Option String
  pub search : String → Option (String × String)
  pub read_file : String → Option (Option String × Option String)

abbrev empty_text : String → Bool
empty_text s = s =ₛ ""

-- text.strip(): from the left, and from the right
unfoldable pub strip_left : String → String
unfolding is_space
strip_left String.[] = String.[]
strip_left (String.◌∷◌ c s) =
    let rest = strip_left s in if is_space (code c) then rest else String.◌∷◌ c s

unfoldable pub strip_right : String → String
unfolding is_space
strip_right String.[] = String.[]
strip_right (String.◌∷◌ c s) =
    let rest = strip_right s in
    if is_space (code c) && empty_text rest then String.[] else String.◌∷◌ c rest

unfoldable pub strip_text : String → String
unfolding strip_left strip_right
strip_text s = strip_right (strip_left s)

-- PlanStep's default for `expected`
abbrev pub one_step : String → String → String → Fields → String → Plan
one_step request rationale tool args description = record {
  request = request;
  steps =
      record {
        tool_name = tool;
        args = obj args;
        description = description;
        expected = field "success" (bool true) end;
      }
      ∷ [];
  rationale = rationale;
}

-- match.group("path") or match.group("path2")
abbrev pub either_path : Option String → Option String → Option String
either_path none other = other
either_path (some p) other = if p =ₛ "" then other else some p

abbrev pub text_value : Option String → Value
text_value none = null
text_value (some s) = str s

abbrev pub shown : Option String → String
shown none = "None"
shown (some s) = s

module _ {W : Type 0} (patterns : Patterns) (registry : Registry W) where
  unfoldable pub plan_read : String → String → Planned Plan
  plan_read request text = elim (patterns.read_file text) [
    | none ↦ planning_error (no_plan request)
    | some groups ↦
        if has_tool registry "fs_read_file"
        then ok (
            one_step request "Recognized a request to read a file." "fs_read_file"
              (field "path" (text_value (either_path groups.0 groups.1)) end)
              ("Read " <> shown (either_path groups.0 groups.1)))
        else planning_error (no_plan request)
  ]

  unfoldable pub plan_search : String → String → Planned Plan
  unfolding plan_read strip_text
  plan_search request text =
      let next = plan_read request text in
      elim (patterns.search text) [
        | none ↦ next
        | some groups ↦
            if has_tool registry "fs_search_files"
            then ok (
                one_step request "Recognized a file search request." "fs_search_files"
                  (field "path" (str groups.1) (field "pattern" (str (strip_text groups.0)) end))
                  ("Search for '" <> strip_text groups.0 <> "' in " <> groups.1))
            else next
      ]

  unfoldable pub plan_list : String → String → Planned Plan
  unfolding plan_search
  plan_list request text =
      let next = plan_search request text in
      elim (patterns.list_dir text) [
        | none ↦ next
        | some path ↦
            if has_tool registry "fs_list_directory"
            then ok (
                one_step request "Recognized a request to list a directory." "fs_list_directory"
                  (field "path" (str path) end) ("List " <> path))
            else next
      ]

  unfoldable pub plan_spend : String → String → Planned Plan
  unfolding plan_list
  plan_spend request text =
      if patterns.finance_spend text && has_tool registry "finance_add_transaction"
      then ok (
          one_step request "Recognized a spending statement." "finance_add_transaction"
            (field "text" (str text) end) "Log the transaction")
      else plan_list request text

  -- RuleBasedPlanner.create_plan
  unfoldable pub create_plan : String → Planned Plan
  unfolding plan_spend strip_text
  create_plan request =
      let text = strip_text request in
      if patterns.finance_query text && has_tool registry "finance_query"
      then ok (
          one_step request "Recognized a spending question." "finance_query"
            (field "text" (str text) end) "Answer the spending question")
      else plan_spend request text
