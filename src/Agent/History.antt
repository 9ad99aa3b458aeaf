-- ===== src/Agent/History.antt =====
-- core/agent/history.py: `list_runs` over the plans and sessions. The rows of the plans stand newest
-- first; an id of a session is a number here and its text in the plan.
use kanna_pa.Prelude.{
  ℕ, zero, suc, ◌≤◌, String, Bool, true, false, Option, none, some, List, [], ◌∷◌, length, arith,
  ◌=ₛ◌, if◌then◌else◌, All, if_ind, Bool-cases, inl, inr,
}
use kanna_pa.Value.{str, end, Fields, get, or_null, eq_value}
use kanna_pa.Memory.Plans.{PlanStatus, StepStatus, StepRow, PlanRow, PlanTable}
use kanna_pa.Memory.Sessions.{Session, SessionTable}

pub record RunSummary : Type 0 where
  pub id : ℕ
  pub session_id : Option String
  pub request : String
  pub status : PlanStatus
  pub step_count : ℕ
  pub failed_step_count : ℕ

abbrev is_failed : StepStatus → Bool
is_failed StepStatus.failed = true
is_failed _ = false

unfoldable pub count_failed : List StepRow → ℕ
count_failed [] = 0
count_failed (r ∷ rows) = if is_failed r.status then suc (count_failed rows) else count_failed rows

unfoldable pub summary_of : PlanRow → RunSummary
unfolding count_failed
summary_of p = record {
  id = p.id;
  session_id = p.session_id;
  request = p.request;
  status = p.status;
  step_count = length p.steps;
  failed_step_count = count_failed p.steps;
}

unfoldable pub first_plans : ℕ → List PlanRow → List PlanRow
first_plans zero rows = []
first_plans (suc n) [] = []
first_plans (suc n) (p ∷ rows) = p ∷ first_plans n rows

-- `show_id` is the text of a session's id.
module _ (show_id : ℕ → String) where
  unfoldable pub metadata_of : Option String → List Session → Fields
  metadata_of none sessions = end
  metadata_of (some i) [] = end
  metadata_of (some i) (s ∷ sessions) =
      let rest = metadata_of (some i) sessions in if show_id s.id =ₛ i then s.metadata else rest

  abbrev pub is_from : Option String → List Session → PlanRow → Bool
  is_from none sessions p = true
  is_from (some source) sessions p =
      eq_value (or_null (get "source" (metadata_of p.session_id sessions))) (str source)

  unfoldable pub summaries : Option String → List Session → List PlanRow → List RunSummary
  unfolding summary_of metadata_of
  summaries source sessions [] = []
  summaries source sessions (p ∷ rows) =
      let rest = summaries source sessions rows in
      if is_from source sessions p then summary_of p ∷ rest else rest

  -- `list_runs`: the limit counts the plans of all sources.
  unfoldable pub list_runs : Option String → ℕ → PlanTable → SessionTable → List RunSummary
  unfolding summaries first_plans
  list_runs source limit plans t = summaries source t.sessions (first_plans limit plans.rows)

count_failed-bound : (rows : List StepRow) → count_failed rows ≤ length rows
unfolding count_failed
count_failed-bound [] = omega arith
count_failed-bound (r ∷ rows) = ground (arith, count_failed-bound rows)

first_plans-bound : (n : ℕ) (rows : List PlanRow) → length (first_plans n rows) ≤ n
unfolding first_plans
first_plans-bound zero rows = omega arith
first_plans-bound (suc n) [] = omega arith
first_plans-bound (suc n) (p ∷ rows) = omega (arith, first_plans-bound n rows)

-- A run that is listed has no more failed steps than steps.
abbrev IsCounted : RunSummary → Type 0
IsCounted x = x.failed_step_count ≤ x.step_count

module _ (show_id : ℕ → String) (source : Option String) (sessions : List Session) where
  summaries-IsCounted :
      (rows : List PlanRow) → All IsCounted (summaries show_id source sessions rows)
  unfolding summaries summary_of
  summaries-IsCounted [] = tt
  summaries-IsCounted (p ∷ rows) =
      if_ind (All IsCounted) (is_from show_id source sessions p)
        (λ _. (count_failed-bound p.steps, summaries-IsCounted rows))
        (λ _. summaries-IsCounted rows)

  summaries-bound :
      (rows : List PlanRow) → length (summaries show_id source sessions rows) ≤ length rows
  unfolding summaries
  summaries-bound [] = omega arith
  summaries-bound (p ∷ rows) = elim (Bool-cases (is_from show_id source sessions p)) [
    | inl mine ↦ rw mine (omega (arith, summaries-bound rows))
    | inr other ↦ rw other (omega (arith, summaries-bound rows))
  ]

-- At most as many runs are listed as asked for, and none has more failed steps than steps.
pub list_runs-IsCounted :
    (show_id : ℕ → String) (source : Option String) (limit : ℕ) (plans : PlanTable)
    (t : SessionTable)
    → (length (list_runs show_id source limit plans t) ≤ limit)
      × All IsCounted (list_runs show_id source limit plans t)
unfolding list_runs
list_runs-IsCounted show_id source limit plans t =
    let bound = first_plans-bound limit plans.rows in
    let kept = summaries-bound show_id source t.sessions (first_plans limit plans.rows) in
    (omega arith, summaries-IsCounted show_id source t.sessions (first_plans limit plans.rows))
