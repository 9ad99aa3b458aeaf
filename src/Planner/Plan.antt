-- ===== src/Planner/Plan.antt =====
-- core/planner/plan.py, and the errors of planning.
use kanna_pa.Prelude.{
  Bool, false, ℕ, String, ◌≡◌, refl, ◌⊎◌, inl, inr, true, none, some, List, [], ◌∷◌,
}
use kanna_pa.Prelude.Int.{pos}
use kanna_pa.Value.{Value, null, bool, Fields}
use kanna_pa.Tools.Schema.{
  SchemaType, object, array, string, integer, boolean, Facets, Schema, schema, no_properties,
  property, no_items, items, ValidationError,
}

-- `args` is any value until the plan is validated.
pub record PlanStep : Type 0 where
  pub tool_name : String
  pub args : Value
  pub description : String
  pub expected : Fields

pub record Plan : Type 0 where
  pub request : String
  pub steps : List PlanStep
  pub rationale : String

abbrev pub plain : SchemaType → Facets
plain t = record {
  type = t;
  required = [];
  enum = none;
  default = null;
  minimum = none;
  maximum = none;
  pattern = none;
  description = "";
}

-- `EXPECTED_SCHEMA`
unfoldable pub expected_schema : Schema
expected_schema =
    schema (plain object)
      (property "success"
        (schema (record (plain boolean) { enum = some (bool true ∷ []) }) no_properties no_items)
        (property "min_files_created"
          (schema (record (plain integer) { minimum = some (pos 0, 0) }) no_properties no_items)
          (property "min_files_modified"
            (schema (record (plain integer) { minimum = some (pos 0, 0) }) no_properties no_items)
            (property "data_nonempty_key" (schema (plain string) no_properties no_items) (
              property "data_equals" (schema (plain object) no_properties no_items) (
                property "files_exist"
                  (schema (plain array) no_properties
                    (items (schema (plain string) no_properties no_items)))
                  (property "exit_code" (schema (plain integer) no_properties no_items)
                    no_properties)))))))
      no_items

-- What `PlanningError` stands for in each place that raises it; and, as the last one, the TypeError of
-- `replace` on a OneOfSchema, which is none: no `except PlanningError` catches it.
pub data PlanningError : Type 0 where
  no_steps malformed_reference forward_reference unresolved_reference unknown_postcondition :
      PlanningError
  unknown_tool args_not_object : ℕ → PlanningError
  invalid : ℕ → ValidationError → PlanningError
  no_plan : String → PlanningError
  type_error : PlanningError

abbrev pub is_type_error : PlanningError → Bool
is_type_error type_error = true
is_type_error _ = false

pub data Planned {ℓ} (A : Type ℓ) : Type ℓ where
  ok : A → Planned A
  planning_error : PlanningError → Planned A

infixl 5 ◌>>=◌
abbrev pub ◌>>=◌ {ℓ κ} : {A : Type ℓ} {B : Type κ} → Planned A → (A → Planned B) → Planned B
ok a >>= f = f a
planning_error e >>= f = planning_error e

-- A chain that succeeds has a first part that does.
pub >>=-eq-ok {ℓ κ} :
    {A : Type ℓ} {B : Type κ} (first : Planned A) (next : A → Planned B) {end : B}
    → (first >>= next) ≡ ok end
    → (mid : A) × (first ≡ ok mid) × (next mid ≡ ok end)
>>=-eq-ok (planning_error e) next h = cc
>>=-eq-ok (ok mid) next h = (mid, refl, h)

pub >>=-eq-error {ℓ κ} :
    {A : Type ℓ} {B : Type κ} (m : Planned A) (f : A → Planned B) {e : PlanningError}
    → (m >>= f) ≡ planning_error e
    → (m ≡ planning_error e) ⊎ ((a : A) × (m ≡ ok a) × (f a ≡ planning_error e))
>>=-eq-error (ok a) f h = inr (a, refl, h)
>>=-eq-error (planning_error e) f h = inl (cc)
