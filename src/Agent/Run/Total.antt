-- ===== src/Agent/Run/Total.antt =====
-- Runs and tools that are not registered: `run` and `_run_step` of core/agent/loop.py.
use kanna_pa.Prelude.{
  ℕ, zero, suc, ◌+◌, String, ◌≡◌, refl, sym, subst, Bool, Option, none, some, List, [], ◌∷◌, ◌++◌,
  All, map, arith, if_ind, Option-cases, inl, inr,
}
use kanna_pa.Prelude.Int.{ℤ, pos_part}
use kanna_pa.Value.{Value}
use kanna_pa.Events.{planning, understanding}
use kanna_pa.Tools.Result.{to_dict}
use kanna_pa.Tools.Registry.{
  Tool, Registry, Outcome, ok, tool_not_found, duplicate_name, find_tool, get_tool, invoke,
}
use kanna_pa.Planner.Plan.{PlanStep, Plan, PlanningError, Planned, planning_error, is_type_error}
use kanna_pa.Planner.Bindings.{resolve, ◌and_then◌}
use kanna_pa.Planner.Validation.{validate_step, validate_steps, validate_plan}
use kanna_pa.Agent.Loop.{
  AttemptRecord, StepOutcome, Planner, LoopServices, LoopState, emit, poll, stops, next_try,
  attempt_once, attempts, run_step,
}
use kanna_pa.Agent.Loop.Steps.{IsTried, run_step-IsTried, next_try-SameTask}
use kanna_pa.Agent.Run.{
  bind_and_run, recorded, run_steps, make_plan, run, Ran, ended, type_error_escapes,
}

abbrev pub Returns : {A : Type 0} → Outcome A → Type 0
Returns (ok a) = Unit
Returns duplicate_name = ⊥
Returns tool_not_found = ⊥

pub returned_value : {A : Type 0} (o : Outcome A) → Returns o → (a : A) × (o ≡ ok a)
returned_value (ok a) r = (a, refl)
returned_value duplicate_name r = absurd r
returned_value tool_not_found r = absurd r

-- The step's tool is registered.
abbrev Known : {W : Type 0} → Registry W → PlanStep → Type 0
Known {W} registry step = (t : Tool W) × (find_tool step.tool_name registry.tools ≡ some t)

module _ {W : Type 0} (sv : LoopServices W) (registry : Registry W) where
  attempt_once-Returns :
      (n : ℕ) (current : PlanStep) (st : LoopState W)
      → Known registry current
      → Returns (attempt_once sv registry n current st)
  unfolding attempt_once invoke get_tool
  attempt_once-Returns n current st (t, found) = rw (found, attempt_once, invoke, get_tool) tt

  module _ (planner : Planner W) (max_corrections : ℤ) where
    next_try-Known :
        (n : ℕ) (current : PlanStep) (r : AttemptRecord) (st : LoopState W)
        → Known registry current
        → Known registry (next_try sv registry planner max_corrections n current r st).0
    next_try-Known n current r st (t, found) =
        let same = next_try-SameTask sv registry planner max_corrections n current r st in
        (t, subst (λ name. find_tool name registry.tools ≡ some t) (sym same.tool) found)

    attempts-Returns :
        (left n : ℕ) (current : PlanStep) (history : List AttemptRecord) (st : LoopState W)
        → Known registry current
        → Returns (attempts sv registry planner max_corrections left n current history st)
    unfolding attempts
    attempts-Returns zero n current history st known =
        let ((r, done), e) =
          returned_value (attempt_once sv registry n current st)
            (attempt_once-Returns n current st known) in
        rw (e, attempts) (if_ind Returns (stops r) (λ _. tt) (λ _. tt))
    attempts-Returns (suc left) n current history st known =
        let ((r, done), e) =
          returned_value (attempt_once sv registry n current st)
            (attempt_once-Returns n current st known) in
        let (stopped, polled) = poll sv done in
        let (next, revised) = next_try sv registry planner max_corrections n current r polled in
        rw (e, attempts)
          (if_ind Returns (stops r) (λ _. tt)
            (λ _.
              if_ind Returns stopped (λ _. tt)
                (λ _.
                  attempts-Returns left (n + 1) next (history ++ r ∷ []) revised
                    (next_try-Known n current r polled known))))

    run_step-Returns :
        (step : PlanStep) (st : LoopState W)
        → Known registry step
        → Returns (run_step sv registry planner max_corrections step st)
    unfolding run_step
    run_step-Returns step st known =
        let (p, e) =
          returned_value
            (attempts sv registry planner max_corrections (pos_part max_corrections) 1 step [] st)
            (attempts-Returns (pos_part max_corrections) 1 step [] st known) in
        rw (e, run_step) tt

    bind_and_run-cases :
        (outcomes : List StepOutcome) (step : PlanStep) (st : LoopState W) (p : Planned Value)
        → resolve step.args (map (λ o. to_dict o.result) outcomes) ≡ p
        → Known registry step
        → Returns (bind_and_run sv registry planner max_corrections outcomes step st)
    unfolding bind_and_run
    bind_and_run-cases outcomes step st (planning_error x) e known = rw (e, bind_and_run) tt
    bind_and_run-cases outcomes step st (Planned.ok args) e known =
        rw (e, bind_and_run) (run_step-Returns (record step { args = args }) st known)

    run_steps-Returns :
        (id : ℕ) (plan : Plan) (index : ℕ) (steps : List PlanStep) (outcomes : List StepOutcome)
        (st : LoopState W)
        → All (Known registry) steps
        → Returns (run_steps sv registry planner max_corrections id plan index steps outcomes st)
    unfolding run_steps
    run_steps-Returns id plan index [] outcomes st known = tt
    run_steps-Returns id plan index (step ∷ steps) outcomes st known =
        let (stopped, polled) = poll sv st in
        let ((o, done), e) =
          returned_value (bind_and_run sv registry planner max_corrections outcomes step polled)
            (bind_and_run-cases outcomes step polled _ refl known.0) in
        let kept : LoopState W = recorded id index o done in
        rw (e, run_steps)
          (if_ind Returns stopped (λ _. tt)
            (λ _.
              if_ind Returns o.result.success
                (λ _. run_steps-Returns id plan (index + 1) steps (outcomes ++ o ∷ []) kept known.1)
                (λ _. if_ind Returns (poll sv kept).0 (λ _. tt) (λ _. tt))))

    -- A step whose tool is registered comes to an outcome. It is tried at most once more than there
    -- are corrections, and only the arguments may change between the tries. A try is repeated only
    -- after a failed check of a call that did not succeed and whose error is not final. A success that
    -- is reported is the last call's own result, and its postconditions were checked and held.
    pub run_step-tries :
        (step : PlanStep) (st : LoopState W) (t : Tool W)
        → find_tool step.tool_name registry.tools ≡ some t
        → (x : StepOutcome × LoopState W) × (run_step sv registry planner max_corrections step st
            ≡ ok x)
          × IsTried sv registry planner max_corrections step x.0
    run_step-tries step st t found =
        let ((o, after), e) = returned_value _ (run_step-Returns step st (t, found)) in
        ((o, after), e, run_step-IsTried sv registry planner max_corrections step st o after e)

and_then-head : (a b : Option PlanningError) → (a and_then b) ≡ none → (a ≡ none) × (b ≡ none)
and_then-head a b h = ground arith

module _ {W : Type 0} (re_match : String → String → Bool) (registry : Registry W) where
  validate_step-Known :
      (i : ℕ) (step : PlanStep)
      → validate_step re_match registry i step ≡ none
      → Known registry step
  unfolding validate_step
  validate_step-Known i step h = elim (Option-cases (find_tool step.tool_name registry.tools)) [
    | inl absent ↦ absurd (ground (arith, absent, h))
    | inr (t, found) ↦ (t, found)
  ]

  validate_steps-Known :
      (i : ℕ) (steps : List PlanStep)
      → validate_steps re_match registry i steps ≡ none
      → All (Known registry) steps
  unfolding validate_steps
  validate_steps-Known i [] h = tt
  validate_steps-Known i (s ∷ steps) h =
      let (first, rest) = and_then-head (validate_step re_match registry i s) _ h in
      (validate_step-Known i s first, validate_steps-Known (i + 1) steps rest)

  -- Every step of a validated plan names a registered tool.
  validate_plan-Known :
      (steps : List PlanStep)
      → validate_plan re_match registry steps ≡ none
      → All (Known registry) steps
  unfolding validate_plan
  validate_plan-Known [] h = tt
  validate_plan-Known (s ∷ steps) h = validate_steps-Known 0 (s ∷ steps) h

module _ {W : Type 0} (sv : LoopServices W) (registry : Registry W) (planner : Planner W)
    (max_corrections : ℤ) where
  make_plan-Known :
      (request : String) (st : LoopState W) (plan : Plan) (p : Planned Plan)
      → (planner.create_plan request registry (emit planning (emit understanding st)).ctx.world).0
        ≡ p
      → (make_plan sv registry planner max_corrections request st).0 ≡ Planned.ok plan
      → All (Known registry) plan.steps
  unfolding make_plan
  make_plan-Known request st plan (planning_error x) e h = absurd (ground (arith, e, h))
  make_plan-Known request st plan (Planned.ok q) e h =
      elim (Option-cases (validate_plan sv.registry_services.re_match registry q.steps)) [
        | inl valid ↦
            let same : q ≡ plan = ground (arith, e, valid, h) in
            subst (λ x. All (Known registry) x.steps) same
              (validate_plan-Known sv.registry_services.re_match registry q.steps valid)
        | inr (x, bad) ↦ absurd (ground (arith, e, bad, h))
      ]

  abbrev pub RunReturns : Ran W → Type 0
  RunReturns (ended o) = Returns o
  RunReturns (type_error_escapes after) = Unit

  -- Whatever a run comes to, it does not ask for an unknown tool.
  pub run-RunReturns :
      (request : String) (session : Option String) (st : LoopState W) (p : Planned Plan)
      → (make_plan sv registry planner max_corrections request st).0 ≡ p
      → RunReturns (run sv registry planner max_corrections request session st)
  unfolding run
  run-RunReturns request session st (planning_error x) e =
      rw (e, run) (if_ind RunReturns (is_type_error x) (λ _. tt) (λ _. tt))
  run-RunReturns request session st (Planned.ok plan) e =
      rw (e, run)
        (run_steps-Returns sv registry planner max_corrections _ plan 0 plan.steps [] _
          (make_plan-Known request st plan _ refl e))
