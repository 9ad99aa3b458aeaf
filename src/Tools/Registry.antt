-- ===== src/Tools/Registry.antt =====
-- core/tools/registry.py. `W` is the state of everything outside: files, devices, the user, the
-- clock. A tool's `execute` changes it and returns a result or raises.
pub mod Audit
pub mod Authority
pub mod Names
use kanna_pa.Prelude.{
  ℕ, ◌-◌, String, ◌<>◌, ◌≡◌, subst, Bool, true, false, Option, none, some, List, [], ◌∷◌, ◌++◌, map,
  arith, ◌=ₛ◌, if◌then◌else◌,
}
use kanna_pa.Value.{Value, obj, str, Fields, end, field, has}
use kanna_pa.Events.{Event, executed}
use kanna_pa.Permissions.{PermissionLevel, Decision, allow, require_approval, deny}
use kanna_pa.Permissions.Policy.{Rule, decide}
use kanna_pa.Permissions.Gate.{Gate, approve}
use kanna_pa.Tools.Schema.{Schema, ValidationError, validate}
use kanna_pa.Tools.Result.{ToolResult, fail, fail_with}

pub data Attempt : Type 0 where
  returned : ToolResult → Attempt
  raised : (exception_type message : String) → Attempt

pub record Tool (W : Type 0) : Type 0 where
  pub name : String
  pub permission : PermissionLevel
  pub input_schema : Schema
  pub output_schema : Schema
  pub execute : Fields → W → Attempt × W

pub record Registry (W : Type 0) : Type 0 where
  pub policy : List Rule
  pub gate : Gate
  pub tools : List (Tool W)

-- A row of `execution_log`.
pub record LogEntry : Type 0 where
  pub tool_name : String
  pub args : Value
  pub result : ToolResult

-- The outside, the execution log, and what was published on the event bus.
pub record Context (W : Type 0) : Type 0 where
  pub world : W
  pub log : List LogEntry
  pub events : List Event

-- What `invoke` uses of third parties: the regular expressions, the clock, the text of a validation
-- error, and whether the database takes a log entry.
pub record Services (W : Type 0) : Type 0 where
  pub re_match : String → String → Bool
  pub monotonic : W → ℕ
  pub describe_error : ValidationError → String
  pub can_record : W → LogEntry → Bool

-- Every input schema is that of an object, so arguments that it accepts are a dict.
abbrev pub as_dict : Value → Fields
as_dict (obj fs) = fs
as_dict _ = end

pub data Outcome {ℓ} (A : Type ℓ) : Type ℓ where
  ok : A → Outcome A
  duplicate_name tool_not_found : Outcome A

-- What holds of the value, if nothing was raised.
abbrev pub OnOk : {A : Type 0} → (A → Type 0) → Outcome A → Type 0
OnOk P (ok a) = P a
OnOk P duplicate_name = Unit
OnOk P tool_not_found = Unit

pub OnOk-map :
    {A : Type 0} (P Q : A → Type 0) (o : Outcome A) → ((a : A) → P a → Q a) → OnOk P o → OnOk Q o
OnOk-map P Q (ok a) f h = f a h
OnOk-map P Q duplicate_name f h = tt
OnOk-map P Q tool_not_found f h = tt

pub OnOk-eq : {A : Type 0} (P : A → Type 0) (o : Outcome A) (a : A) → o ≡ ok a → OnOk P o → P a
OnOk-eq P o a e h = subst (OnOk P) e h

module _ {W : Type 0} where
  unfoldable pub find_tool : String → List (Tool W) → Option (Tool W)
  find_tool n [] = none
  find_tool n (t ∷ ts) = if t.name =ₛ n then some t else find_tool n ts

  unfoldable pub has_tool : Registry W → String → Bool
  unfolding find_tool
  has_tool r n = elim (find_tool n r.tools) [ none ↦ false | some t ↦ true ]

  unfoldable pub get_tool : Registry W → String → Outcome (Tool W)
  unfolding find_tool
  get_tool r n = elim (find_tool n r.tools) [ none ↦ tool_not_found | some t ↦ ok t ]

  unfoldable pub register : Registry W → Tool W → Outcome (Registry W)
  unfolding has_tool
  register r t =
      if has_tool r t.name then duplicate_name else ok (record r { tools = r.tools ++ t ∷ [] })

  abbrev pub permission_denied : Tool W → ToolResult
  permission_denied t = fail "permission_denied" ("'" <> t.name <> "' is denied by policy")

  abbrev pub approval_denied : Tool W → ToolResult
  approval_denied t =
      fail "approval_denied" ("'" <> t.name <> "' requires approval, which was not granted")

  -- `tool_name=tool.name, args=args, level=tool.permission`
  abbrev pub decision : Registry W → Tool W → Value → Decision
  decision r t args = decide r.policy t.name (as_dict args) t.permission

  module _ (sv : Services W) where
    -- `_finish`: the duration is set, the entry is logged if the database takes it, and the event is
    -- published in any case.
    unfoldable pub finish : Tool W → Value → ToolResult → ℕ → Context W → ToolResult × Context W
    finish t args result start c =
        let timed = record result { duration_ms = sv.monotonic c.world - start } in
        let entry : LogEntry = record { tool_name = t.name; args = args; result = timed } in
        (
          timed,
          record {
            world = c.world;
            log = if sv.can_record c.world entry then c.log ++ entry ∷ [] else c.log;
            events = c.events ++ executed t.name timed.success timed.duration_ms ∷ [];
          },
        )

    -- The check of the output schema on a result that claims success.
    unfoldable pub check_output : Tool W → ToolResult → ToolResult
    check_output t result =
        if result.success
        then (elim (validate sv.re_match t.output_schema (obj result.result_data)) [
          | none ↦ result
          | some e ↦ fail "invalid_output" ("tool returned malformed data: " <> sv.describe_error e)
        ])
        else result

    unfoldable pub settle : Tool W → Attempt → ToolResult
    unfolding check_output
    settle t (returned result) = check_output t result
    settle t (raised kind message) =
        fail_with "execution_error" message (field "exception_type" (str kind) end)

    unfoldable pub run_tool : Tool W → Value → ℕ → Context W → ToolResult × Context W
    unfolding settle finish
    run_tool t args start c =
        let (attempt, after) = t.execute (as_dict args) c.world in
        finish t args (settle t attempt) start (record c { world = after })

    unfoldable pub permitted :
        Registry W → Tool W → Decision → Value → ℕ → Context W → ToolResult × Context W
    unfolding run_tool finish
    permitted r t deny args start c = finish t args (permission_denied t) start c
    permitted r t require_approval args start c =
        if approve r.gate t.name (as_dict args)
        then run_tool t args start c
        else finish t args (approval_denied t) start c
    permitted r t allow args start c = run_tool t args start c

    unfoldable pub invoke_tool : Registry W → Tool W → Value → Context W → ToolResult × Context W
    unfolding permitted finish
    invoke_tool r t args c =
        let start = sv.monotonic c.world in
        elim (validate sv.re_match t.input_schema args) [
          | some e ↦ finish t args (fail "invalid_input" (sv.describe_error e)) start c
          | none ↦ permitted r t (decision r t args) args start c
        ]

    -- `invoke`; an unknown name raises ToolNotFound and changes nothing.
    unfoldable pub invoke :
        Registry W → String → Value → Context W → Outcome (ToolResult × Context W)
    unfolding invoke_tool get_tool
    invoke r n args c = elim (get_tool r n) [
      | ok t ↦ ok (invoke_tool r t args c)
      | duplicate_name ↦ duplicate_name
      | tool_not_found ↦ tool_not_found
    ]
