-- ===== src/Planner/RuleBased/Plans.antt =====
-- The plans of `RuleBasedPlanner.create_plan`.
use kanna_pa.Prelude.{
  String, ◌≡◌, refl, true, ◌&&◌, &&-eq_true, [], ◌∷◌, if_ind, Option-cases, inl, inr,
}
use kanna_pa.Value.{Fields}
use kanna_pa.Tools.Registry.{Registry, has_tool}
use kanna_pa.Planner.Plan.{PlanStep, Plan, Planned, ok, planning_error}
use kanna_pa.Planner.RuleBased.{
  Patterns, one_step, plan_read, plan_search, plan_list, plan_spend, create_plan,
}

module _ {W : Type 0} (registry : Registry W) where
  -- The plan is for the request, and has one step, whose tool is registered.
  pub record IsPlanned (request : String) (plan : Plan) : Type 0 where
    pub same_request : plan.request ≡ request
    pub step : PlanStep
    pub only : plan.steps ≡ step ∷ []
    pub registered : has_tool registry step.tool_name ≡ true

  abbrev pub WhenPlanned : String → Planned Plan → Type 0
  WhenPlanned request (ok plan) = IsPlanned request plan
  WhenPlanned request (planning_error e) = Unit

  one_step-IsPlanned :
      (request rationale tool : String) (args : Fields) (description : String)
      → has_tool registry tool ≡ true
      → IsPlanned request (one_step request rationale tool args description)
  one_step-IsPlanned request rationale tool args description h = record {
    same_request = refl;
    step = _;
    only = refl;
    registered = h;
  }

  module _ (patterns : Patterns) (request : String) where
    plan_read-WhenPlanned :
        (text : String) → WhenPlanned request (plan_read patterns registry request text)
    unfolding plan_read
    plan_read-WhenPlanned text = elim (Option-cases (patterns.read_file text)) [
      | inl e ↦ rw (e, plan_read) tt
      | inr (groups, e) ↦
          rw (e, plan_read)
            (if_ind (WhenPlanned request) (has_tool registry "fs_read_file")
              (λ h. one_step-IsPlanned request _ "fs_read_file" _ _ h) (λ _. tt))
    ]

    plan_search-WhenPlanned :
        (text : String) → WhenPlanned request (plan_search patterns registry request text)
    unfolding plan_search
    plan_search-WhenPlanned text = elim (Option-cases (patterns.search text)) [
      | inl e ↦ rw (e, plan_search) (plan_read-WhenPlanned text)
      | inr (groups, e) ↦
          rw (e, plan_search)
            (if_ind (WhenPlanned request) (has_tool registry "fs_search_files")
              (λ h. one_step-IsPlanned request _ "fs_search_files" _ _ h)
              (λ _. plan_read-WhenPlanned text))
    ]

    plan_list-WhenPlanned :
        (text : String) → WhenPlanned request (plan_list patterns registry request text)
    unfolding plan_list
    plan_list-WhenPlanned text = elim (Option-cases (patterns.list_dir text)) [
      | inl e ↦ rw (e, plan_list) (plan_search-WhenPlanned text)
      | inr (path, e) ↦
          rw (e, plan_list)
            (if_ind (WhenPlanned request) (has_tool registry "fs_list_directory")
              (λ h. one_step-IsPlanned request _ "fs_list_directory" _ _ h)
              (λ _. plan_search-WhenPlanned text))
    ]

    plan_spend-WhenPlanned :
        (text : String) → WhenPlanned request (plan_spend patterns registry request text)
    unfolding plan_spend
    plan_spend-WhenPlanned text =
        if_ind (WhenPlanned request)
          (patterns.finance_spend text && has_tool registry "finance_add_transaction")
          (λ h. one_step-IsPlanned request _ "finance_add_transaction" _ _ (&&-eq_true _ _ h).1)
          (λ _. plan_list-WhenPlanned text)

    -- A plan that is made for a request is for that request, and has exactly one step, whose tool is
    -- registered.
    pub create_plan-WhenPlanned : WhenPlanned request (create_plan patterns registry request)
    unfolding create_plan
    create_plan-WhenPlanned =
        if_ind (WhenPlanned request) (patterns.finance_query _ && has_tool registry "finance_query")
          (λ h. one_step-IsPlanned request _ "finance_query" _ _ (&&-eq_true _ _ h).1)
          (λ _. plan_spend-WhenPlanned _)
