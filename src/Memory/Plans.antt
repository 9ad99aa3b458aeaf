-- ===== src/Memory/Plans.antt =====
-- core/memory/repositories/plans.py: the tables `plans` and `plan_steps`. The random ids are
-- numbers that are given once; the times of the rows are left out.
use kanna_pa.Prelude.{
  ℕ, zero, suc, ◌+◌, String, Option, none, some, List, [], ◌∷◌, map, ◌==◌, if◌then◌else◌,
}
use kanna_pa.Planner.Plan.{PlanStep, Plan}

pub data PlanStatus : Type 0 where
  in_progress complete failed cancelled : PlanStatus

pub data StepStatus : Type 0 where
  pending ok failed : StepStatus

-- The rows of one plan's steps stand in the plan's row, in the order of `step_index`.
pub record StepRow : Type 0 where
  pub tool_name : String
  pub status : StepStatus
  pub attempts : ℕ

pub record PlanRow : Type 0 where
  pub id : ℕ
  pub session_id : Option String
  pub request : String
  pub status : PlanStatus
  pub steps : List StepRow

pub record PlanTable : Type 0 where
  pub rows : List PlanRow
  pub next_id : ℕ

abbrev pub pending_row : PlanStep → StepRow
pending_row s = record { tool_name = s.tool_name; status = StepStatus.pending; attempts = 0 }

unfoldable pub create : PlanTable → Plan → Option String → ℕ × PlanTable
create t plan session =
    let row : PlanRow = record {
      id = t.next_id;
      session_id = session;
      request = plan.request;
      status = in_progress;
      steps = map pending_row plan.steps;
    } in
    (t.next_id, record { rows = row ∷ t.rows; next_id = t.next_id + 1 })

-- `UPDATE … WHERE id = ?`
unfoldable pub update_row : (PlanRow → PlanRow) → ℕ → List PlanRow → List PlanRow
update_row f i [] = []
update_row f i (r ∷ rows) = (if r.id == i then f r else r) ∷ update_row f i rows

unfoldable pub update_step : ℕ → StepStatus → ℕ → List StepRow → List StepRow
update_step i status attempts [] = []
update_step zero status attempts (r ∷ rows) =
    record r { status = status; attempts = attempts } ∷ rows
update_step (suc i) status attempts (r ∷ rows) = r ∷ update_step i status attempts rows

unfoldable pub record_step_result : PlanTable → ℕ → ℕ → StepStatus → ℕ → PlanTable
unfolding update_row update_step
record_step_result t plan i status attempts = record t {
  rows = update_row (λ r. record r { steps = update_step i status attempts r.steps }) plan t.rows;
}

unfoldable pub set_status : PlanTable → ℕ → PlanStatus → PlanTable
unfolding update_row
set_status t plan status = record t {
  rows = update_row (λ r. record r { status = status }) plan t.rows;
}

unfoldable pub find_row : ℕ → List PlanRow → Option PlanRow
find_row i [] = none
find_row i (r ∷ rows) = if r.id == i then some r else find_row i rows

unfoldable pub get : PlanTable → ℕ → Option PlanRow
unfolding find_row
get t i = find_row i t.rows
