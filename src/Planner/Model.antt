-- ===== src/Planner/Model.antt =====
-- core/planner/llm_planner.py. The model, the regular expression of a JSON block, `json` and the
-- texts of the prompts are parameters. A description or rationale that is no text counts as empty.
pub mod Answers
pub mod Tests
use kanna_pa.Prelude.{ℕ, ◌+◌, String, Bool, true, false, Option, none, some, List, [], ◌∷◌, ◌++◌}
use kanna_pa.Value.{
  Value, null, bool, int, float, str, obj, arr, Items, nil, cons, Fields, end, field, get, or_null,
  or_default,
}
use kanna_pa.Tools.Schema.{Schema, ValidationError, validate}
use kanna_pa.Tools.Registry.{Tool, Registry, find_tool}
use kanna_pa.Planner.Plan.{
  PlanStep, Plan, PlanningError, Planned, ok, planning_error, expected_schema, unknown_tool,
  invalid, no_plan, no_steps, type_error,
}
use kanna_pa.Planner.Bindings.{◌and_then◌}
use kanna_pa.Planner.Validation.{check_args, check_expected}

-- `complete` gives none for LLMUnavailable; `find_json` the match of the block, and `loads` none for
-- a JSONDecodeError.
pub record ModelServices (W : Type 0) : Type 0 where
  pub complete : (system content : String) → W → Option String × W
  pub find_json : String → Option String
  pub loads : String → Option Value
  pub plan_prompt : Registry W → String
  pub revise_prompt : Schema → String
  pub revise_request : PlanStep → List String → String
  pub re_match : String → String → Bool

-- A plan, an error of the planning, or LLMUnavailable. `failed type_error` is the TypeError that a
-- OneOfSchema makes `validate_plan` raise, any other `failed` a PlanningError.
pub data Made : Type 0 where
  planned : Plan → Made
  failed : PlanningError → Made
  unavailable : Made

-- A step as the model wrote it.
pub record RawStep : Type 0 where
  pub tool_name : Value
  pub args : Value
  pub description : Value
  pub expected : Value

abbrev default_expected : Value
default_expected = obj (field "success" (bool true) end)

abbrev pub raw_step : Fields → RawStep
raw_step fs = record {
  tool_name = or_null (get "tool_name" fs);
  args = or_default (obj end) (get "args" fs);
  description = or_default (str "") (get "description" fs);
  expected = or_default default_expected (get "expected" fs);
}

-- The loop over `steps_raw`; none where a step is no object.
unfoldable pub raw_steps : Items → Option (List RawStep)
raw_steps nil = some []
raw_steps (cons v rest) = elim v [
  | obj fs ↦ elim (raw_steps rest) [ none ↦ none | some steps ↦ some (raw_step fs ∷ steps) ]
  | _ ↦ none
]

abbrev pub text_of : Value → String
text_of (str s) = s
text_of _ = ""

-- The first step that does not validate, if any.
pub data Checked : Type 0 where
  fine : List PlanStep → Checked
  wrong : PlanningError → Checked

abbrev pub step_of : String → RawStep → Fields → PlanStep
step_of name r expected = record {
  tool_name = name;
  args = r.args;
  description = text_of r.description;
  expected = expected;
}

abbrev pub checked_by : Option PlanningError → PlanStep → Checked
checked_by none step = fine (step ∷ [])
checked_by (some e) step = wrong e

-- What is no object does not fit the schema of postconditions, so the last case does not arise.
abbrev pub wrong_by : Option PlanningError → Option ValidationError → ℕ → Checked
wrong_by (some e) v i = wrong e
wrong_by none (some v) i = wrong (invalid i v)
wrong_by none none i = wrong no_steps

module _ {W : Type 0} (sv : ModelServices W) (registry : Registry W) where
  -- One step of `validate_plan`, on what the model wrote. Only a text is asked for in the registry:
  -- any other name is an unknown tool.
  abbrev pub check_named : ℕ → String → RawStep → Tool W → Value → Checked
  check_named i name r t (obj expected) =
      checked_by
        (check_args sv.re_match registry i t r.args
          and_then check_expected sv.re_match registry i expected)
        (step_of name r expected)
  check_named i name r t other =
      wrong_by (check_args sv.re_match registry i t r.args)
        (validate sv.re_match expected_schema other) i

  abbrev pub check_name : ℕ → RawStep → Value → Checked
  check_name i r (str name) = elim (find_tool name registry.tools) [
    | none ↦ wrong (unknown_tool i)
    | some t ↦ check_named i name r t r.expected
  ]
  check_name i r other = wrong (unknown_tool i)

  abbrev pub and_later : Checked → Checked → Checked
  and_later (wrong e) later = wrong e
  and_later (fine steps) (wrong e) = wrong e
  and_later (fine steps) (fine more) = fine (steps ++ more)

  unfoldable pub check_raw : ℕ → List RawStep → Checked
  unfolding find_tool check_expected
  check_raw i [] = fine []
  check_raw i (r ∷ rest) = and_later (check_name i r r.tool_name) (check_raw (i + 1) rest)

  abbrev pub made_of : String → String → Checked → Made
  made_of request rationale (fine steps) =
      planned (record { request = request; steps = steps; rationale = rationale })
  made_of request rationale (wrong e) = failed e

  abbrev pub of_raw : String → String → Option (List RawStep) → Made
  of_raw request rationale none = failed (no_plan request)
  of_raw request rationale (some steps) = made_of request rationale (check_raw 0 steps)

  abbrev pub of_steps : String → String → Option Value → Made
  of_steps request rationale (some (arr (cons v rest))) =
      of_raw request rationale (raw_steps (cons v rest))
  of_steps request rationale _ = failed (no_plan request)

  abbrev pub of_payload : String → Option Value → Made
  of_payload request (some (obj fs)) =
      of_steps request (text_of (or_null (get "rationale" fs))) (get "steps" fs)
  of_payload request _ = failed (no_plan request)

  abbrev pub json_in : Option String → Option Value
  json_in none = none
  json_in (some block) = sv.loads block

  abbrev pub of_answer : String → Option String → Made
  of_answer request none = unavailable
  of_answer request (some content) = of_payload request (json_in (sv.find_json content))

  -- `_create_plan_via_llm`
  unfoldable pub create_via_model : String → W → Made × W
  unfolding raw_steps check_raw
  create_via_model request w =
      let (answer, w') = sv.complete (sv.plan_prompt registry) request w in
      (of_answer request answer, w')

  abbrev pub of_fallback : Planned Plan × W → Made × W
  of_fallback (ok p, w) = (planned p, w)
  of_fallback (planning_error e, w) = (failed e, w)

  abbrev pub fall_back :
      Option (String → Registry W → W → Planned Plan × W) → String → Made × W → Made × W
  fall_back fallback request (planned p, w) = (planned p, w)
  fall_back none request (failed e, w) = (failed e, w)
  fall_back none request (unavailable, w) = (unavailable, w)
  fall_back (some f) request (failed type_error, w) = (failed type_error, w)
  fall_back (some f) request (failed e, w) = of_fallback (f request registry w)
  fall_back (some f) request (unavailable, w) = of_fallback (f request registry w)

  -- `LLMPlanner.create_plan`
  unfoldable pub create_plan :
      Option (String → Registry W → W → Planned Plan × W) → String → W → Made × W
  unfolding create_via_model
  create_plan fallback request w = fall_back fallback request (create_via_model request w)

  abbrev pub revised : PlanStep → Fields → Option ValidationError → Planned PlanStep
  revised step args none = ok (record step { args = obj args })
  revised step args (some e) = planning_error (invalid 0 e)

  abbrev pub with_args : PlanStep → Tool W → Option Value → Planned PlanStep
  with_args step t (some (obj args)) =
      revised step args (validate sv.re_match t.input_schema (obj args))
  with_args step t _ = planning_error (no_plan "LLM revision response had no 'args' object")

  abbrev pub of_revision : PlanStep → Tool W → Option Value → Planned PlanStep
  of_revision step t (some (obj fs)) = with_args step t (get "args" fs)
  of_revision step t _ = planning_error (no_plan "LLM revision must be an object")

  abbrev pub of_reply : PlanStep → Tool W → Option String → Planned PlanStep
  of_reply step t none = planning_error (no_plan "cannot revise: LLM unavailable")
  of_reply step t (some content) = of_revision step t (json_in (sv.find_json content))

  -- `LLMPlanner.revise_step`
  unfoldable pub revise_step : PlanStep → List String → W → Planned PlanStep × W
  unfolding find_tool validate
  revise_step step reasons w = elim (find_tool step.tool_name registry.tools) [
    | none ↦ (planning_error (unknown_tool 0), w)
    | some t ↦
        let (answer, w') =
          sv.complete (sv.revise_prompt t.input_schema) (sv.revise_request step reasons) w in
        (of_reply step t answer, w')
  ]
