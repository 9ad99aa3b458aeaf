-- ===== src/Planner/Model/Answers.antt =====
-- What can come of a model's answer: core/planner/llm_planner.py.
use kanna_pa.Prelude.{
  ℕ, ◌+◌, String, ◌≡◌, ◌≢◌, refl, sym, subst, Option, none, some, List, [], ◌∷◌, arith,
  Option-cases, inl, inr,
}
use kanna_pa.Value.{Value, null, bool, int, float, str, obj, arr, Items, nil, cons, Fields, get}
use kanna_pa.Tools.Schema.{ValidationError, validate}
use kanna_pa.Tools.Registry.{Tool, Registry, find_tool}
use kanna_pa.Planner.Plan.{PlanStep, PlanningError, Planned, ok, planning_error, unknown_tool}
use kanna_pa.Planner.Validation.{validate_step, validate_steps, validate_plan}
use kanna_pa.Planner.Model.{
  ModelServices, Made, planned, failed, unavailable, RawStep, Checked, fine, wrong, raw_steps,
  step_of, checked_by, wrong_by, check_named, check_name, and_later, check_raw, made_of, of_raw,
  of_steps, of_payload, json_in, of_answer, create_via_model, revised, with_args, of_revision,
  of_reply, revise_step,
}

-- A step that was accepted stands alone and validates.
abbrev Single : {W : Type 0} → ModelServices W → Registry W → ℕ → Checked → Type 0
Single sv registry i (fine steps) =
    (s : PlanStep) × (steps ≡ s ∷ []) × (validate_step sv.re_match registry i s ≡ none)
Single sv registry i (wrong e) = Unit

raw_steps-cons : (v : Value) (rest : Items) → raw_steps (cons v rest) ≢ some []
unfolding raw_steps
raw_steps-cons null rest = λ h. cc
raw_steps-cons (bool b) rest = λ h. cc
raw_steps-cons (int n) rest = λ h. cc
raw_steps-cons (float m k) rest = λ h. cc
raw_steps-cons (str s) rest = λ h. cc
raw_steps-cons (arr xs) rest = λ h. cc
raw_steps-cons (obj fs) rest = λ h. ground arith

module _ {W : Type 0} (sv : ModelServices W) (registry : Registry W) where
  checked_by-Single :
      (i : ℕ) (o : Option PlanningError) (s : PlanStep)
      → validate_step sv.re_match registry i s ≡ o
      → Single sv registry i (checked_by o s)
  checked_by-Single i none s e = (s, refl, e)
  checked_by-Single i (some x) s e = tt

  wrong_by-Single :
      (i : ℕ) (o : Option PlanningError) (v : Option ValidationError)
      → Single sv registry i (wrong_by o v i)
  wrong_by-Single i (some e) v = tt
  wrong_by-Single i none (some v) = tt
  wrong_by-Single i none none = tt

  check_named-Single :
      (i : ℕ) (name : String) (r : RawStep) (t : Tool W) (expected : Value)
      → find_tool name registry.tools ≡ some t
      → Single sv registry i (check_named sv registry i name r t expected)
  unfolding validate_step
  check_named-Single i name r t (obj fs) e =
      checked_by-Single i _ (step_of name r fs) (rw (e, validate_step) refl)
  check_named-Single i name r t null e = wrong_by-Single i _ _
  check_named-Single i name r t (bool b) e = wrong_by-Single i _ _
  check_named-Single i name r t (int n) e = wrong_by-Single i _ _
  check_named-Single i name r t (float m k) e = wrong_by-Single i _ _
  check_named-Single i name r t (str s) e = wrong_by-Single i _ _
  check_named-Single i name r t (arr xs) e = wrong_by-Single i _ _

  check_name-Single :
      (i : ℕ) (r : RawStep) (v : Value) → Single sv registry i (check_name sv registry i r v)
  check_name-Single i r (str name) = elim (Option-cases (find_tool name registry.tools)) [
    | inl e ↦
        let same : check_name sv registry i r (str name) ≡ wrong (unknown_tool i) =
          rw (e, check_name) refl in
        subst (Single sv registry i) (sym same) tt
    | inr (t, e) ↦
        let same : check_name sv registry i r (str name)
            ≡ check_named sv registry i name r t r.expected =
          rw (e, check_name) refl in
        subst (Single sv registry i) (sym same) (check_named-Single i name r t r.expected e)
  ]
  check_name-Single i r (obj fs) = tt
  check_name-Single i r (arr xs) = tt
  check_name-Single i r null = tt
  check_name-Single i r (bool b) = tt
  check_name-Single i r (int n) = tt
  check_name-Single i r (float m k) = tt

  -- What was accepted from step `i` on validates.
  abbrev Valid : ℕ → Checked → Type 0
  Valid i (fine steps) = validate_steps sv.re_match registry i steps ≡ none
  Valid i (wrong e) = Unit

  and_later-Valid :
      (i : ℕ) (here later : Checked)
      → Single sv registry i here
      → Valid (i + 1) later
      → Valid i (and_later sv registry here later)
  unfolding validate_steps
  and_later-Valid i (wrong e) later h k = tt
  and_later-Valid i (fine steps) (wrong e) h k = tt
  and_later-Valid i (fine steps) (fine more) (s, e, v) k = rw e (rw (v, validate_steps) k)

  check_raw-Valid : (i : ℕ) (rs : List RawStep) → Valid i (check_raw sv registry i rs)
  unfolding check_raw validate_steps
  check_raw-Valid i [] = refl
  check_raw-Valid i (r ∷ rs) =
      and_later-Valid i (check_name sv registry i r r.tool_name) (check_raw sv registry (i + 1) rs)
        (check_name-Single i r r.tool_name) (check_raw-Valid (i + 1) rs)

  -- A plan that validates, for the request.
  abbrev pub Usable : String → Made → Type 0
  Usable request (planned p) =
      (p.request ≡ request) × (validate_plan sv.re_match registry p.steps ≡ none)
  Usable request (failed e) = Unit
  Usable request unavailable = Unit

  made_of-Usable :
      (request rationale : String) (here later : Checked)
      → Single sv registry 0 here
      → Valid 1 later
      → Usable request (made_of sv registry request rationale (and_later sv registry here later))
  unfolding validate_plan validate_steps
  made_of-Usable request rationale (wrong e) later h k = tt
  made_of-Usable request rationale (fine steps) (wrong e) h k = tt
  made_of-Usable request rationale (fine steps) (fine more) (s, e, v) k =
      (refl, rw e (rw (v, validate_plan) k))

  of_raw-Usable :
      (request rationale : String) (o : Option (List RawStep))
      → o ≢ some []
      → Usable request (of_raw sv registry request rationale o)
  unfolding check_raw
  of_raw-Usable request rationale none h = tt
  of_raw-Usable request rationale (some []) h = absurd (h refl)
  of_raw-Usable request rationale (some (r ∷ rs)) h =
      made_of-Usable request rationale (check_name sv registry 0 r r.tool_name)
        (check_raw sv registry 1 rs) (check_name-Single 0 r r.tool_name) (check_raw-Valid 1 rs)

  of_steps-Usable :
      (request rationale : String) (o : Option Value)
      → Usable request (of_steps sv registry request rationale o)
  of_steps-Usable request rationale none = tt
  of_steps-Usable request rationale (some null) = tt
  of_steps-Usable request rationale (some (bool b)) = tt
  of_steps-Usable request rationale (some (int n)) = tt
  of_steps-Usable request rationale (some (float m k)) = tt
  of_steps-Usable request rationale (some (str s)) = tt
  of_steps-Usable request rationale (some (obj fs)) = tt
  of_steps-Usable request rationale (some (arr nil)) = tt
  of_steps-Usable request rationale (some (arr (cons v rest))) =
      of_raw-Usable request rationale (raw_steps (cons v rest)) (raw_steps-cons v rest)

  of_payload-Usable :
      (request : String) (o : Option Value) → Usable request (of_payload sv registry request o)
  of_payload-Usable request none = tt
  of_payload-Usable request (some null) = tt
  of_payload-Usable request (some (bool b)) = tt
  of_payload-Usable request (some (int n)) = tt
  of_payload-Usable request (some (float m k)) = tt
  of_payload-Usable request (some (str s)) = tt
  of_payload-Usable request (some (arr xs)) = tt
  of_payload-Usable request (some (obj fs)) = of_steps-Usable request _ (get "steps" fs)

  of_answer-Usable :
      (request : String) (o : Option String) → Usable request (of_answer sv registry request o)
  of_answer-Usable request none = tt
  of_answer-Usable request (some content) =
      of_payload-Usable request (json_in sv registry (sv.find_json content))

  -- Whatever the model answers, a plan that is made of it is for the request and passes
  -- `validate_plan`: its tools are registered, its arguments and postconditions fit their schemas.
  pub create_via_model-Usable :
      (request : String) (w : W) → Usable request (create_via_model sv registry request w).0
  unfolding create_via_model
  create_via_model-Usable request w =
      of_answer-Usable request (sv.complete (sv.plan_prompt registry) request w).0

  -- The step that was asked about, with other arguments that fit the schema of its tool.
  abbrev pub Revises : PlanStep → Planned PlanStep → Type 0
  Revises step (planning_error e) = Unit
  Revises step (ok r) =
      (r.tool_name ≡ step.tool_name)
      × (r.description ≡ step.description)
      × (r.expected ≡ step.expected)
      × ((t : Tool W) × (find_tool step.tool_name registry.tools ≡ some t)
          × (validate sv.re_match t.input_schema r.args ≡ none))

  module _ (step : PlanStep) (t : Tool W)
      (found : find_tool step.tool_name registry.tools ≡ some t) where
    revised-Revises :
        (fs : Fields) (o : Option ValidationError)
        → validate sv.re_match t.input_schema (obj fs) ≡ o
        → Revises step (revised sv registry step fs o)
    revised-Revises fs none e = (refl, refl, refl, (t, found, e))
    revised-Revises fs (some x) e = tt

    with_args-Revises : (o : Option Value) → Revises step (with_args sv registry step t o)
    with_args-Revises none = tt
    with_args-Revises (some null) = tt
    with_args-Revises (some (bool b)) = tt
    with_args-Revises (some (int n)) = tt
    with_args-Revises (some (float m k)) = tt
    with_args-Revises (some (str s)) = tt
    with_args-Revises (some (arr xs)) = tt
    with_args-Revises (some (obj fs)) = revised-Revises fs _ refl

    of_revision-Revises : (o : Option Value) → Revises step (of_revision sv registry step t o)
    of_revision-Revises none = tt
    of_revision-Revises (some null) = tt
    of_revision-Revises (some (bool b)) = tt
    of_revision-Revises (some (int n)) = tt
    of_revision-Revises (some (float m k)) = tt
    of_revision-Revises (some (str s)) = tt
    of_revision-Revises (some (arr xs)) = tt
    of_revision-Revises (some (obj fs)) = with_args-Revises (get "args" fs)

    of_reply-Revises : (o : Option String) → Revises step (of_reply sv registry step t o)
    of_reply-Revises none = tt
    of_reply-Revises (some content) =
        of_revision-Revises (json_in sv registry (sv.find_json content))

  -- Whatever the model answers, a revision keeps the tool, the description and the postconditions of
  -- the step; its tool is registered and its arguments fit the tool's schema.
  pub revise_step-Revises :
      (step : PlanStep) (reasons : List String) (w : W)
      → Revises step (revise_step sv registry step reasons w).0
  unfolding revise_step
  revise_step-Revises step reasons w =
      elim (Option-cases (find_tool step.tool_name registry.tools)) [
        | inl e ↦ subst (λ (r : Planned PlanStep × W). Revises step r.0) (sym (refused e)) tt
        | inr (t, e) ↦
            subst (λ (r : Planned PlanStep × W). Revises step r.0) (sym (asked t e))
              (of_reply-Revises step t e (answer t))
      ]
    where
      answer : Tool W → Option String
      answer t =
          (sv.complete (sv.revise_prompt t.input_schema) (sv.revise_request step reasons) w).0

      refused :
          find_tool step.tool_name registry.tools ≡ none
          → revise_step sv registry step reasons w ≡ (planning_error (unknown_tool 0), w)
      refused e = rw (e, revise_step) refl

      asked :
          (t : Tool W)
          → find_tool step.tool_name registry.tools ≡ some t
          → revise_step sv registry step reasons w ≡ (
            of_reply sv registry step t (answer t),
            (sv.complete (sv.revise_prompt t.input_schema) (sv.revise_request step reasons) w).1,
          )
      asked t e = rw (e, revise_step) refl
