-- ===== src/Memory/Tasks/Statuses.antt =====
-- What a change of a task's status does: `set_status` of core/memory/repositories/tasks.py.
use kanna_pa.Prelude.{
  ℕ, ◌≡◌, ◌⊎◌, inl, inr, refl, arith, String, false, Option, none, some, List, [], ◌∷◌, ◌==◌, ◌=ₛ◌,
  any_of, if◌then◌else◌, Bool-cases,
}
use kanna_pa.Memory.Tasks.{
  TaskRecord, TaskTable, ok, value_error, statuses, update_status, set_task_status, find_task,
  get_task,
}

abbrev pub with_status : String → Option TaskRecord → Option TaskRecord
with_status status none = none
with_status status (some r) = some (record r { status = status })

find_task-update_status :
    (i j : ℕ) (status : String) (rows : List TaskRecord)
    → find_task j (update_status i status rows)
      ≡ (if i == j then with_status status (find_task j rows) else find_task j rows)
unfolding find_task update_status
find_task-update_status i j status [] = ground arith
find_task-update_status i j status (r ∷ rows) =
    ground (arith, find_task-update_status i j status rows)

-- A status that is none of the four is refused. Another one is given to the task with that id if
-- there is one, whose other fields stay as they were, and every other id finds what it found before.
pub get_task-set_task_status :
    (i : ℕ) (status : String) (t : TaskTable)
    → ((any_of (λ s. s =ₛ status) statuses ≡ false) × (set_task_status i status t ≡ value_error))
      ⊎ ((t' : TaskTable) × (set_task_status i status t ≡ ok t')
          × ((j : ℕ)
              → get_task j t'
                ≡ (if i == j then with_status status (get_task j t) else get_task j t)))
unfolding set_task_status get_task
get_task-set_task_status i status t = elim (Bool-cases (any_of (λ s. s =ₛ status) statuses)) [
  | inl known ↦ inr (
    record t { rows = update_status i status t.rows },
    rw (known, set_task_status) refl,
    (λ j. find_task-update_status i j status t.rows),
  )
  | inr unknown ↦ inl (unknown, rw (unknown, set_task_status) refl)
]
