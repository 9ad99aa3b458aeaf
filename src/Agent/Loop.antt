-- ===== src/Agent/Loop.antt =====
-- core/agent/loop.py: `AgentLoop.run` and what it calls. `W` is the state of everything outside.
pub mod Steps
use kanna_pa.Prelude.{
  ℕ, zero, suc, ◌+◌, String, ◌≡◌, Bool, true, false, ◌&&◌, ◌||◌, not, Option, none, some, List, [],
  ◌∷◌, ◌++◌, map, length, any_of, leb, ◌=ₛ◌, if◌then◌else◌,
}
use kanna_pa.Prelude.Int.{ℤ, pos_part}
use kanna_pa.Value.{Value, obj, Fields}
use kanna_pa.Events.{
  AgentState, understanding, planning, selecting, executing, observing, checking, correcting,
  verifying, complete, failed, blocked, cancelled, Event, agent_state,
}
use kanna_pa.Tools.Result.{ToolResult, ToolError, fail, to_dict}
use kanna_pa.Tools.Registry.{
  Tool, Registry, Context, Services, Outcome, ok, tool_not_found, duplicate_name, invoke,
}
use kanna_pa.Planner.Plan.{PlanStep, Plan, PlanningError, Planned, planning_error}
use kanna_pa.Planner.Bindings.{resolve}
use kanna_pa.Planner.Validation.{validate_plan}
use kanna_pa.Memory.Plans.{
  PlanTable, PlanStatus, StepStatus, create, record_step_result, set_status,
}
use kanna_pa.Agent.Verifier.{Files, Reason, verify}

pub record AttemptRecord : Type 0 where
  pub attempt : ℕ
  pub args : Value
  pub result : ToolResult
  pub verification_errors : List Reason

pub record StepOutcome : Type 0 where
  pub step : PlanStep
  pub result : ToolResult
  pub attempts : ℕ
  pub history : List AttemptRecord

-- A planner may talk to a model, so its calls change the outside; revision is optional.
pub record Planner (W : Type 0) : Type 0 where
  pub create_plan : String → Registry W → W → Planned Plan × W
  pub revise_step : Option (PlanStep → List Reason → Registry W → W → Planned PlanStep × W)

-- What the loop uses of third parties beyond the registry's services. `is_cancelled` is what the
-- n-th look at the cancel event sees.
pub record LoopServices (W : Type 0) : Type 0 where
  pub registry_services : Services W
  pub files : Files W
  pub is_cancelled : ℕ → W → Bool
  pub describe_planning : PlanningError → String
  pub describe_reasons : List Reason → String

pub record LoopState (W : Type 0) : Type 0 where
  pub ctx : Context W
  pub plans : PlanTable
  pub polls : ℕ

-- What is left after the passes: the step as it was last tried, the history, its last record, and
-- the state.
pub record Passed (W : Type 0) : Type 0 where
  pub step : PlanStep
  pub history : List AttemptRecord
  pub last : AttemptRecord
  pub state : LoopState W

-- `terminal_errors`
abbrev pub terminal_errors : List String
terminal_errors =
    "approval_denied" ∷ "permission_denied" ∷ "sandbox_violation" ∷ "invalid_input"
    ∷ "invalid_output" ∷ []

abbrev pub no_reasons : List Reason → Bool
no_reasons [] = true
no_reasons (r ∷ rs) = false

-- s.endswith(t)
unfoldable pub ends_with : String → String → Bool
ends_with t String.[] = String.[] =ₛ t
ends_with t (String.◌∷◌ c s) = String.◌∷◌ c s =ₛ t || ends_with t s

-- No retry may follow: the tool has had its effect, or the error is final.
unfoldable pub is_final : ToolResult → Bool
unfolding ends_with
is_final r = r.success || (elim r.error [
  | none ↦ false
  | some e ↦ any_of (λ c. c =ₛ e.code) terminal_errors || ends_with "_unavailable" e.code
])

-- Nothing failed, or the failure is one that no retry may follow.
abbrev pub stops : AttemptRecord → Bool
stops r = no_reasons r.verification_errors || is_final r.result

abbrev pub passed :
    {W : Type 0} → PlanStep → List AttemptRecord → AttemptRecord → LoopState W → Passed W
passed current history r st = record {
  step = current;
  history = history ++ r ∷ [];
  last = r;
  state = st;
}

module _ {W : Type 0} where
  unfoldable pub emit : AgentState → LoopState W → LoopState W
  emit s st = record st { ctx = record (st.ctx) { events = st.ctx.events ++ agent_state s ∷ [] } }

  abbrev pub note_cancel : Bool → LoopState W → LoopState W
  note_cancel true st = emit cancelled st
  note_cancel false st = st

  module _ (sv : LoopServices W) where
    -- `cancel is not None and cancel.is_set()`
    unfoldable pub poll : LoopState W → Bool × LoopState W
    poll st = (sv.is_cancelled st.polls st.ctx.world, record st { polls = st.polls + 1 })

    -- `verification_failed` in place of a success that did not hold up.
    unfoldable pub final_result : AttemptRecord → ToolResult
    final_result r =
        if not (no_reasons r.verification_errors) && r.result.success
        then record (r.result) {
          success = false;
          error = some (record {
            code = "verification_failed";
            message = sv.describe_reasons r.verification_errors;
            details = Fields.end;
          });
        }
        else r.result

    module _ (registry : Registry W) where
      -- One pass: the call, its check, and its record.
      unfoldable pub attempt_once :
          ℕ → PlanStep → LoopState W → Outcome (AttemptRecord × LoopState W)
      unfolding emit
      attempt_once n current st =
          let started = emit executing st in
          elim (invoke sv.registry_services registry current.tool_name current.args started.ctx) [
            | tool_not_found ↦ tool_not_found
            | duplicate_name ↦ duplicate_name
            | ok (result, ctx') ↦
                let done = emit checking (emit observing (record started { ctx = ctx' })) in
                ok (
                  record {
                    attempt = n;
                    args = current.args;
                    result = result;
                    verification_errors = verify sv.files done.ctx.world current result;
                  },
                  done,
                )
          ]

      module _ (planner : Planner W) where
        unfoldable pub revise : PlanStep → List Reason → LoopState W → PlanStep × LoopState W
        revise step reasons st = elim planner.revise_step [
          | none ↦ (step, st)
          | some f ↦
              let (revised, w) = f step reasons registry st.ctx.world in
              let after = record st { ctx = record (st.ctx) { world = w } } in
              elim revised [
                | Planned.ok r ↦ (record step { args = r.args }, after)
                | planning_error e ↦ (step, after)
              ]
        ]

        unfoldable pub correct : PlanStep → AttemptRecord → LoopState W → PlanStep × LoopState W
        unfolding revise emit
        correct current r st =
            let (next, revised) = revise current r.verification_errors st in
            (next, emit correcting revised)

        module _ (max_corrections : ℤ) where
          -- `if attempt <= self.max_corrections`
          unfoldable pub next_try :
              ℕ → PlanStep → AttemptRecord → LoopState W → PlanStep × LoopState W
          unfolding correct
          next_try n current r st =
              if leb n (pos_part max_corrections) then correct current r st else (current, st)

          -- The `for` loop of `_run_step`; `left` counts the passes that `range` has behind this one.
          unfoldable pub attempts :
              ℕ → ℕ → PlanStep → List AttemptRecord → LoopState W → Outcome (Passed W)
          unfolding attempt_once is_final poll next_try emit
          attempts zero n current history st = elim (attempt_once n current st) [
            | tool_not_found ↦ tool_not_found
            | duplicate_name ↦ duplicate_name
            | ok (r, done) ↦
                if stops r
                then ok (passed current history r done)
                else ok (passed current history r (note_cancel (poll done).0 (poll done).1))
          ]
          attempts (suc left) n current history st = elim (attempt_once n current st) [
            | tool_not_found ↦ tool_not_found
            | duplicate_name ↦ duplicate_name
            | ok (r, done) ↦
                let (stopped, polled) = poll done in
                let (next, revised) = next_try n current r polled in
                let rest = attempts left (n + 1) next (history ++ r ∷ []) revised in
                if stops r
                then ok (passed current history r done)
                else if stopped
                then ok (passed current history r (emit cancelled polled))
                else rest
          ]

          unfoldable pub run_step : PlanStep → LoopState W → Outcome (StepOutcome × LoopState W)
          unfolding attempts final_result
          run_step step st = elim (attempts (pos_part max_corrections) 1 step [] st) [
            | tool_not_found ↦ tool_not_found
            | duplicate_name ↦ duplicate_name
            | ok p ↦ ok (
              record {
                step = p.step;
                result = final_result p.last;
                attempts = length p.history;
                history = p.history;
              },
              emit verifying p.state,
            )
          ]
