-- ===== src/Planner/Validation.antt =====
-- `validate_plan` of core/planner/bindings.py.
use kanna_pa.Prelude.{
  ℕ, ◌+◌, String, Bool, true, false, Option, none, some, List, [], ◌∷◌, all_of, if◌then◌else◌,
}
use kanna_pa.Value.{Value, obj, Fields, keys}
use kanna_pa.Tools.Schema.{single, find_property, properties, validate}
use kanna_pa.Tools.Registry.{Tool, Registry, find_tool}
use kanna_pa.Planner.Plan.{
  PlanStep, expected_schema, PlanningError, no_steps, unknown_postcondition, unknown_tool,
  args_not_object, invalid,
}
use kanna_pa.Planner.Bindings.{◌and_then◌, validate_template}

abbrev is_property : String → Bool
is_property k = elim (find_property k (properties expected_schema)) [ none ↦ false | some s ↦ true ]

module _ {W : Type 0} (re_match : String → String → Bool) (registry : Registry W) where
  -- The checks of the postconditions; `set(step.expected) - set(EXPECTED_SCHEMA.properties)`
  unfoldable pub check_expected : ℕ → Fields → Option PlanningError
  unfolding expected_schema validate
  check_expected i expected =
      elim (validate re_match expected_schema (obj expected)) [
        | none ↦ none
        | some e ↦ some (invalid i e)
      ]
      and_then (if all_of is_property (keys expected) then none else some unknown_postcondition)

  abbrev pub check_args : ℕ → Tool W → Value → Option PlanningError
  check_args i t (obj args) = validate_template re_match (obj args) (some (single t.input_schema)) i
  check_args i t _ = some (args_not_object i)

  unfoldable pub validate_step : ℕ → PlanStep → Option PlanningError
  unfolding check_expected
  validate_step i step = elim (find_tool step.tool_name registry.tools) [
    | none ↦ some (unknown_tool i)
    | some t ↦ check_args i t step.args and_then check_expected i step.expected
  ]

  unfoldable pub validate_steps : ℕ → List PlanStep → Option PlanningError
  unfolding validate_step
  validate_steps i [] = none
  validate_steps i (s ∷ steps) = validate_step i s and_then validate_steps (i + 1) steps

  unfoldable pub validate_plan : List PlanStep → Option PlanningError
  unfolding validate_steps
  validate_plan [] = some no_steps
  validate_plan (s ∷ steps) = validate_steps 0 (s ∷ steps)
