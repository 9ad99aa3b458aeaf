-- ===== src/Agent/Run/Outcomes.antt =====
-- What the result of a run says about its steps: `run` of core/agent/loop.py.
use mathlib.Core.List.{append_assoc, append-nil}
use kanna_pa.Prelude.{
  ℕ, suc, ◌+◌, String, ◌≡◌, refl, sym, ◌∙◌, ap, ◌⊎◌, inl, inr, true, false, Option, none, some,
  List, [], ◌∷◌, ◌++◌, length, map, arith, if_ind, Option-cases, false, Bool-cases, subst,
}
use kanna_pa.Prelude.Int.{ℤ}
use kanna_pa.Value.{Value}
use kanna_pa.Events.{complete, failed, cancelled, blocked}
use kanna_pa.Tools.Result.{to_dict}
use kanna_pa.Tools.Registry.{Registry, Outcome, OnOk, OnOk-map, ok, tool_not_found, duplicate_name}
use kanna_pa.Planner.Plan.{
  PlanStep, Plan, PlanningError, Planned, planning_error, type_error, is_type_error,
}
use kanna_pa.Planner.Bindings.{resolve}
use kanna_pa.Planner.Validation.{validate_plan}
use kanna_pa.Memory.Plans.{PlanStatus}
use kanna_pa.Agent.Verifier.{verify}
use kanna_pa.Agent.Loop.{StepOutcome, Planner, LoopServices, LoopState, emit, poll}
use kanna_pa.Agent.Loop.Steps.{SameTask, run_step-IsTried}
use kanna_pa.Agent.Run.Total.{Returns, run-RunReturns}
use kanna_pa.Agent.Run.{
  AgentRunResult, bind_and_run, finish_run, recorded, run_steps, make_plan, run, Ran, ended,
  type_error_escapes, unplanned,
}

module _ {W : Type 0} (sv : LoopServices W) (registry : Registry W) (planner : Planner W)
    (max_corrections : ℤ) where
  -- The outcome belongs to the step, is a success, and its postconditions were checked and held.
  pub record IsVerified (step : PlanStep) (o : StepOutcome) : Type 0 where
    pub same : SameTask o.step step
    pub success : o.result.success ≡ true
    pub when : W
    pub held : verify sv.files when o.step o.result ≡ []

  bind_and_run-IsVerified :
      (outcomes : List StepOutcome) (step : PlanStep) (st : LoopState W) (p : Planned Value)
      (o : StepOutcome) (after : LoopState W)
      → resolve step.args (map (λ q. to_dict q.result) outcomes) ≡ p
      → bind_and_run sv registry planner max_corrections outcomes step st ≡ ok (o, after)
      → o.result.success ≡ true
      → IsVerified step o
  unfolding bind_and_run
  bind_and_run-IsVerified outcomes step st (planning_error x) o after e h s =
      absurd (ground (arith, e, h, s))
  bind_and_run-IsVerified outcomes step st (Planned.ok args) o after e h s =
      let t =
        run_step-IsTried sv registry planner max_corrections (record step { args = args }) st o
          after (ground (arith, e, h)) in
      let (_, (w, held)) = t.checked s in
      record {
        same = record {
          tool = t.same.tool;
          expected = t.same.expected;
          description = t.same.description;
        };
        success = s;
        when = w;
        held = held;
      }

  -- Each outcome is the verified one of the step at its place.
  abbrev pub Each : List PlanStep → List StepOutcome → Type 0
  Each steps [] = Unit
  Each [] (o ∷ os) = ⊥
  Each (s ∷ steps) (o ∷ os) = IsVerified s o × Each steps os

  pub record Concludes (plan : Plan) (steps : List PlanStep) (outcomes : List StepOutcome)
      (result : AgentRunResult) : Type 0 where
    pub for_plan : result.plan ≡ some plan
    pub done : List StepOutcome
    pub each : Each steps done
    pub ending :
        (result.state ≡ complete)
          × (result.outcomes ≡ outcomes ++ done)
          × (length done ≡ length steps)
        ⊎ (result.state ≡ cancelled) × (result.outcomes ≡ outcomes ++ done)
        ⊎ ((o : StepOutcome) × (o.result.success ≡ false)
            × (result.outcomes ≡ outcomes ++ (done ++ o ∷ []))
            × ((result.state ≡ failed) ⊎ (result.state ≡ cancelled)))

  further :
      (plan : Plan) (step : PlanStep) (steps : List PlanStep) (outcomes : List StepOutcome)
      (o : StepOutcome) (result : AgentRunResult)
      → IsVerified step o
      → Concludes plan steps (outcomes ++ o ∷ []) result
      → Concludes plan (step ∷ steps) outcomes result
  further plan step steps outcomes o result v c = record {
    for_plan = c.for_plan;
    done = o ∷ c.done;
    each = (v, c.each);
    ending = elim c.ending [
      | inl (s, e, n) ↦ inl (s, e ∙ append_assoc outcomes (o ∷ []) c.done, ap suc n)
      | inr (inl (s, e)) ↦ inr (inl (s, e ∙ append_assoc outcomes (o ∷ []) c.done))
      | inr (inr (q, f, e, s)) ↦
          inr (inr (q, f, e ∙ append_assoc outcomes (o ∷ []) (c.done ++ q ∷ []), s))
    ];
  }

  cut_short :
      (plan : Plan) (steps : List PlanStep) (outcomes : List StepOutcome) (result : AgentRunResult)
      → result.plan ≡ some plan
      → result.state ≡ cancelled
      → result.outcomes ≡ outcomes
      → Concludes plan steps outcomes result
  cut_short plan steps outcomes result p s e = record {
    for_plan = p;
    done = [];
    each = tt;
    ending = inr (inl (s, e ∙ sym (append-nil outcomes)));
  }

  gone_wrong :
      (plan : Plan) (steps : List PlanStep) (outcomes : List StepOutcome) (o : StepOutcome)
      (result : AgentRunResult)
      → result.plan ≡ some plan
      → o.result.success ≡ false
      → result.outcomes ≡ outcomes ++ o ∷ []
      → (result.state ≡ failed) ⊎ (result.state ≡ cancelled)
      → Concludes plan steps outcomes result
  gone_wrong plan steps outcomes o result p f e s = record {
    for_plan = p;
    done = [];
    each = tt;
    ending = inr (inr (o, f, e, s));
  }

  after_step :
      (id : ℕ) (plan : Plan) (index : ℕ) (step : PlanStep) (steps : List PlanStep)
      (outcomes : List StepOutcome) (st : LoopState W) (b : Outcome (StepOutcome × LoopState W))
      → bind_and_run sv registry planner max_corrections outcomes step (poll sv st).1 ≡ b
      → ((o : StepOutcome) (kept : LoopState W)
          → OnOk
              (λ x. Concludes plan steps (outcomes ++ o ∷ []) x.0)
              (run_steps sv registry planner max_corrections id plan
                (index + 1)
                steps
                (outcomes ++ o ∷ [])
                kept))
      → OnOk
          (λ x. Concludes plan (step ∷ steps) outcomes x.0)
          (run_steps sv registry planner max_corrections id plan index (step ∷ steps) outcomes st)
  unfolding run_steps
  after_step id plan index step steps outcomes st b e ih = branches b e
    where
      Good : Outcome (AgentRunResult × LoopState W) → Type 0
      Good = OnOk (λ x. Concludes plan (step ∷ steps) outcomes x.0)

      stopped_first :
          Good (ok (finish_run id plan outcomes PlanStatus.cancelled cancelled (poll sv st).1))
      stopped_first = cut_short plan (step ∷ steps) outcomes _ refl refl refl

      branches :
          (b : Outcome (StepOutcome × LoopState W))
          → bind_and_run sv registry planner max_corrections outcomes step (poll sv st).1 ≡ b
          → Good (
              run_steps sv registry planner max_corrections id plan index
                (step ∷ steps)
                outcomes
                st)
      branches duplicate_name e =
          rw (e, run_steps) (if_ind Good (poll sv st).0 (λ _. stopped_first) (λ _. tt))
      branches tool_not_found e =
          rw (e, run_steps) (if_ind Good (poll sv st).0 (λ _. stopped_first) (λ _. tt))
      branches (ok (o, done)) e =
          let kept : LoopState W = recorded id index o done in
          rw (e, run_steps)
            (if_ind Good (poll sv st).0 (λ _. stopped_first)
              (λ _.
                if_ind Good o.result.success
                  (λ s.
                    OnOk-map (λ x. Concludes plan steps (outcomes ++ o ∷ []) x.0)
                      (λ x. Concludes plan (step ∷ steps) outcomes x.0) _
                      (λ x.
                        further plan step steps outcomes o x.0
                          (bind_and_run-IsVerified outcomes step (poll sv st).1 _ o done refl e s))
                      (ih o kept))
                  (λ f.
                    if_ind Good (poll sv kept).0
                      (λ _. gone_wrong plan (step ∷ steps) outcomes o _ refl f refl (inr refl))
                      (λ _. gone_wrong plan (step ∷ steps) outcomes o _ refl f refl (inl refl)))))

  run_steps-Concludes :
      (id : ℕ) (plan : Plan) (index : ℕ) (steps : List PlanStep) (outcomes : List StepOutcome)
      (st : LoopState W)
      → OnOk
          (λ x. Concludes plan steps outcomes x.0)
          (run_steps sv registry planner max_corrections id plan index steps outcomes st)
  unfolding run_steps
  run_steps-Concludes id plan index [] outcomes st = record {
    for_plan = refl;
    done = [];
    each = tt;
    ending = inl (refl, sym (append-nil outcomes), refl);
  }
  run_steps-Concludes id plan index (step ∷ steps) outcomes st =
      after_step id plan index step steps outcomes st _ refl
        (λ o kept. run_steps-Concludes id plan (index + 1) steps (outcomes ++ o ∷ []) kept)

  -- What the planner answers, and the state that it leaves.
  abbrev answer : String → LoopState W → Planned Plan × W
  answer request st = planner.create_plan request registry st.ctx.world

  abbrev validated : Plan → Option PlanningError
  validated plan = validate_plan sv.registry_services.re_match registry plan.steps

  -- There is no plan because of the error: the planner raised it, or the validation of its plan.
  abbrev pub Refused : String → LoopState W → PlanningError → Type 0
  Refused request st e =
      ((answer request st).0 ≡ planning_error e)
      ⊎ ((plan : Plan) × ((answer request st).0 ≡ Planned.ok plan) × (validated plan ≡ some e))

  abbrev pub Explains : String → LoopState W → Planned Plan → Type 0
  Explains request st (planning_error e) = Refused request st e
  Explains request st (Planned.ok plan) =
      ((answer request st).0 ≡ Planned.ok plan) × (validated plan ≡ none)

  -- No tool was called, nothing was logged or stored: only the planner may have changed the outside.
  pub record IsUntouched (request : String) (st after : LoopState W) : Type 0 where
    pub plans : after.plans ≡ st.plans
    pub log : after.ctx.log ≡ st.ctx.log
    pub world : after.ctx.world ≡ (answer request st).1

  -- What a run comes to: blocked, or a plan that was followed.
  abbrev pub Ends : String → LoopState W → AgentRunResult × LoopState W → Type 0
  Ends request st (result, after) =
      ((result.state ≡ blocked)
        × (result.plan ≡ none)
        × (result.outcomes ≡ [])
        × IsUntouched request st after
        × ((e : PlanningError) × (is_type_error e ≡ false) × Refused request st e))
      ⊎ ((plan : Plan) × Explains request st (Planned.ok plan)
          × Concludes plan plan.steps [] result)

  abbrev pub RunEnds : String → LoopState W → Ran W → Type 0
  RunEnds request st (ended (ok x)) = Ends request st x
  RunEnds request st (ended tool_not_found) = ⊥
  RunEnds request st (ended duplicate_name) = ⊥
  RunEnds request st (type_error_escapes after) =
      IsUntouched request st after × Refused request st type_error

  planned-cases :
      (request : String) (st : LoopState W) (p : Planned Plan)
      → (answer request st).0 ≡ p
      → IsUntouched request st (make_plan sv registry planner max_corrections request st).1
        × Explains request st (make_plan sv registry planner max_corrections request st).0
  unfolding make_plan
  planned-cases request st (planning_error e) h =
      rw (h, make_plan) (record { plans = refl; log = refl; world = refl }, inl h)
  planned-cases request st (Planned.ok plan) h = elim (Option-cases (validated plan)) [
    | inl valid ↦
        rw (h, make_plan, valid) (record { plans = refl; log = refl; world = refl }, (h, valid))
    | inr (e, bad) ↦
        rw (h, make_plan, bad)
          (record { plans = refl; log = refl; world = refl }, inr (plan, h, bad))
  ]

  eq_of_is_type_error : (e : PlanningError) → is_type_error e ≡ true → e ≡ type_error
  eq_of_is_type_error type_error h = refl
  eq_of_is_type_error PlanningError.no_steps h = cc
  eq_of_is_type_error PlanningError.malformed_reference h = cc
  eq_of_is_type_error PlanningError.forward_reference h = cc
  eq_of_is_type_error PlanningError.unresolved_reference h = cc
  eq_of_is_type_error PlanningError.unknown_postcondition h = cc
  eq_of_is_type_error (PlanningError.unknown_tool i) h = cc
  eq_of_is_type_error (PlanningError.args_not_object i) h = cc
  eq_of_is_type_error (PlanningError.invalid i x) h = cc
  eq_of_is_type_error (PlanningError.no_plan x) h = cc

  unplanned-RunEnds :
      (request : String) (st asked : LoopState W) (e : PlanningError)
      → IsUntouched request st asked
      → Refused request st e
      → RunEnds request st (unplanned sv registry planner max_corrections e asked)
  unfolding emit
  unplanned-RunEnds request st asked e same why = elim (Bool-cases (is_type_error e)) [
    | inl raised ↦ rw raised (same, subst (Refused request st) (eq_of_is_type_error e raised) why)
    | inr caught ↦ rw caught (
        inl (
          refl,
          refl,
          refl,
          record { plans = same.plans; log = same.log; world = same.world },
          (e, caught, why),
        ))
  ]

  followed :
      (request : String) (st : LoopState W) (plan : Plan)
      (o : Outcome (AgentRunResult × LoopState W))
      → Returns o
      → Explains request st (Planned.ok plan)
      → OnOk (λ x. Concludes plan plan.steps [] x.0) o
      → RunEnds request st (ended o)
  followed request st plan (ok x) r why c = inr (plan, why, c)
  followed request st plan tool_not_found r why c = absurd r
  followed request st plan duplicate_name r why c = absurd r

  run-cases :
      (request : String) (session : Option String) (st : LoopState W) (p : Planned Plan)
      → (make_plan sv registry planner max_corrections request st).0 ≡ p
      → RunEnds request st (run sv registry planner max_corrections request session st)
  unfolding run
  run-cases request session st (planning_error x) e =
      let (same, why) = planned-cases request st _ refl in
      rw (e, run) (unplanned-RunEnds request st _ x same (subst (Explains request st) e why))
  run-cases request session st (Planned.ok plan) e =
      let (same, why) = planned-cases request st _ refl in
      let returns = run-RunReturns sv registry planner max_corrections request session st _ e in
      rw (e, run)
        (followed request st plan _ (rw (e, run) at returns) (subst (Explains request st) e why)
          (run_steps-Concludes _ plan 0 plan.steps [] _))

  -- A run returns a result, unless the planner or the validation of its plan raises the TypeError of
  -- a OneOfSchema, which leaves the run; no unknown tool is asked for. In that case, and where the run
  -- is blocked by an error of the planner or of the validation, no tool was called and nothing was
  -- logged or stored. Else the run follows the planner's plan, which was validated: the outcomes are
  -- the successes of the first steps, in order, each for its step and with postconditions that were
  -- checked and held, and the state is complete only if these are all of the steps. At most one failed
  -- outcome stands behind them, and then the state is failed or cancelled.
  pub run-RunEnds :
      (request : String) (session : Option String) (st : LoopState W)
      → RunEnds request st (run sv registry planner max_corrections request session st)
  run-RunEnds request session st = run-cases request session st _ refl
