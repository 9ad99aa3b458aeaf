-- ===== src/Agent/Run.antt =====
-- core/agent/loop.py: `AgentLoop.run`, over the single steps of `Loop`.
pub mod Outcomes
pub mod Total
use kanna_pa.Prelude.{
  ℕ, zero, suc, ◌+◌, String, ◌≡◌, Bool, true, false, ◌&&◌, ◌||◌, not, Option, none, some, List, [],
  ◌∷◌, ◌++◌, map, length, any_of, leb, ◌=ₛ◌, if◌then◌else◌,
}
use kanna_pa.Prelude.Int.{ℤ, pos_part}
use kanna_pa.Value.{Value, obj, Fields}
use kanna_pa.Events.{
  AgentState, understanding, planning, selecting, executing, observing, checking, correcting,
  verifying, complete, failed, blocked, cancelled, Event, agent_state,
}
use kanna_pa.Tools.Result.{ToolResult, ToolError, fail, to_dict}
use kanna_pa.Tools.Registry.{
  Tool, Registry, Context, Services, Outcome, ok, tool_not_found, duplicate_name, invoke,
}
use kanna_pa.Planner.Plan.{PlanStep, Plan, PlanningError, Planned, planning_error, is_type_error}
use kanna_pa.Planner.Bindings.{resolve}
use kanna_pa.Planner.Validation.{validate_plan}
use kanna_pa.Memory.Plans.{
  PlanTable, PlanStatus, StepStatus, create, record_step_result, set_status,
}
use kanna_pa.Agent.Verifier.{Files, Reason, verify}
use kanna_pa.Agent.Loop.{
  AttemptRecord, StepOutcome, Planner, LoopServices, LoopState, emit, poll, run_step,
}

pub record AgentRunResult : Type 0 where
  pub state : AgentState
  pub plan : Option Plan
  pub outcomes : List StepOutcome

-- What `run` comes to: its outcome, or the TypeError of a check of the plan, with the state it leaves.
pub data Ran (W : Type 0) : Type 0 where
  ended : Outcome (AgentRunResult × LoopState W) → Ran W
  type_error_escapes : LoopState W → Ran W

abbrev pub step_status : StepOutcome → StepStatus
step_status o = if o.result.success then StepStatus.ok else StepStatus.failed

module _ {W : Type 0} where
  unfoldable pub finish_run :
      ℕ
      → Plan
      → List StepOutcome
      → PlanStatus
      → AgentState
      → LoopState W
      → AgentRunResult × LoopState W
  unfolding emit
  finish_run id plan outcomes status state st = (
    record { state = state; plan = some plan; outcomes = outcomes },
    emit state (record st { plans = set_status st.plans id status }),
  )

  abbrev pub recorded : ℕ → ℕ → StepOutcome → LoopState W → LoopState W
  recorded id index o st = record st {
    plans = record_step_result st.plans id index (step_status o) (length o.history);
  }

module _ {W : Type 0} (sv : LoopServices W) (registry : Registry W) (planner : Planner W)
    (max_corrections : ℤ) where
  -- The `try` block of `run`: the references are resolved, and the step runs.
  unfoldable pub bind_and_run :
      List StepOutcome → PlanStep → LoopState W → Outcome (StepOutcome × LoopState W)
  unfolding run_step
  bind_and_run outcomes step st = elim (resolve step.args (map (λ o. to_dict o.result) outcomes)) [
    | planning_error e ↦ ok (
      record {
        step = step;
        result = fail "binding_failed" (sv.describe_planning e);
        attempts = 0;
        history = [];
      },
      st,
    )
    | Planned.ok args ↦
        run_step sv registry planner max_corrections (record step { args = args }) st
  ]

  -- The `for` loop of `run`.
  unfoldable pub run_steps :
      ℕ
      → Plan
      → ℕ
      → List PlanStep
      → List StepOutcome
      → LoopState W
      → Outcome (AgentRunResult × LoopState W)
  unfolding bind_and_run finish_run poll
  run_steps id plan index [] outcomes st =
      ok (finish_run id plan outcomes PlanStatus.complete complete st)
  run_steps id plan index (step ∷ steps) outcomes st =
      let (stopped, polled) = poll sv st in
      if stopped
      then ok (finish_run id plan outcomes PlanStatus.cancelled cancelled polled)
      else (elim (bind_and_run outcomes step polled) [
        | tool_not_found ↦ tool_not_found
        | duplicate_name ↦ duplicate_name
        | ok (o, done) ↦
            let kept = recorded id index o done in
            let rest = run_steps id plan (index + 1) steps (outcomes ++ o ∷ []) kept in
            let (stopped', polled') = poll sv kept in
            if o.result.success
            then rest
            else if stopped'
            then ok (finish_run id plan (outcomes ++ o ∷ []) PlanStatus.cancelled cancelled polled')
            else ok (finish_run id plan (outcomes ++ o ∷ []) PlanStatus.failed failed polled')
      ])

  unfoldable pub make_plan : String → LoopState W → Planned Plan × LoopState W
  unfolding validate_plan emit
  make_plan request st =
      let asked = emit planning (emit understanding st) in
      let (planned, w) = planner.create_plan request registry asked.ctx.world in
      let after = record asked { ctx = record (asked.ctx) { world = w } } in
      elim planned [
        | planning_error e ↦ (planning_error e, after)
        | Planned.ok plan ↦ elim (validate_plan sv.registry_services.re_match registry plan.steps) [
          | none ↦ (Planned.ok plan, after)
          | some e ↦ (planning_error e, after)
        ]
      ]

  -- `except PlanningError`, which lets a TypeError through.
  abbrev pub unplanned : PlanningError → LoopState W → Ran W
  unplanned e asked =
      if is_type_error e
      then type_error_escapes asked
      else ended (ok (record { state = blocked; plan = none; outcomes = [] }, emit blocked asked))

  unfoldable pub run : String → Option String → LoopState W → Ran W
  unfolding make_plan run_steps emit
  run request session st =
      let (planned, asked) = make_plan request st in
      elim planned [
        | planning_error e ↦ unplanned e asked
        | Planned.ok plan ↦
            let selected = emit selecting asked in
            let (id, plans) = create selected.plans plan session in
            ended (run_steps id plan 0 plan.steps [] (record selected { plans = plans }))
      ]
