-- ===== src/Memory/Tasks.antt =====
-- core/memory/repositories/tasks.py and core/tasks/service.py. The random ids are numbers that are
-- given once; the times of the rows are left out.
pub mod Statuses
use kanna_pa.Prelude.{
  ℕ, ◌+◌, String, Bool, true, false, Option, none, some, List, [], ◌∷◌, ◌++◌, ◌==◌, ◌=ₛ◌, any_of,
  if◌then◌else◌,
}

pub record TaskRecord : Type 0 where
  pub id : ℕ
  pub title : String
  pub description : Option String
  pub status : String
  pub project : Option String
  pub due_date : Option String

pub record TaskTable : Type 0 where
  pub rows : List TaskRecord
  pub next_id : ℕ

pub data Result (A : Type 0) : Type 0 where
  ok : A → Result A
  value_error : Result A

-- `_STATUSES`
abbrev pub statuses : List String
statuses = "pending" ∷ "in_progress" ∷ "completed" ∷ "cancelled" ∷ []

unfoldable pub create_task :
    String → Option String → Option String → Option String → TaskTable → TaskRecord × TaskTable
create_task title description project due_date t =
    let row : TaskRecord = record {
      id = t.next_id;
      title = title;
      description = description;
      status = "pending";
      project = project;
      due_date = due_date;
    } in
    (row, record { rows = t.rows ++ row ∷ []; next_id = t.next_id + 1 })

unfoldable pub update_status : ℕ → String → List TaskRecord → List TaskRecord
update_status id status [] = []
update_status id status (r ∷ rows) =
    let rest = update_status id status rows in
    if r.id == id then record r { status = status } ∷ rest else r ∷ rest

unfoldable pub set_task_status : ℕ → String → TaskTable → Result TaskTable
unfolding update_status
set_task_status id status t =
    if any_of (λ s. s =ₛ status) statuses
    then ok (record t { rows = update_status id status t.rows })
    else value_error

-- TaskService
abbrev pub start_task : ℕ → TaskTable → Result TaskTable
start_task id t = set_task_status id "in_progress" t

abbrev pub complete_task : ℕ → TaskTable → Result TaskTable
complete_task id t = set_task_status id "completed" t

abbrev pub cancel_task : ℕ → TaskTable → Result TaskTable
cancel_task id t = set_task_status id "cancelled" t

unfoldable pub find_task : ℕ → List TaskRecord → Option TaskRecord
find_task i [] = none
find_task i (r ∷ rows) = if r.id == i then some r else find_task i rows

unfoldable pub get_task : ℕ → TaskTable → Option TaskRecord
unfolding find_task
get_task i t = find_task i t.rows
