-- ===== src/Scheduler/Tick.antt =====
-- automation/scheduler/scheduler.py and store.py: the tables of schedules and jobs, and `tick`.
-- A statement on the tables commits by itself, so what a tick wrote before it raises stays. The
-- callback is a parameter that acts on a world of its own and not on the two tables.
pub mod Quiet
pub mod Again
use kanna_pa.Prelude.{
  ℕ, ◌==◌, String, Bool, true, false, Option, none, some, List, [], ◌∷◌, ◌=ₛ◌, ◌&&◌, if◌then◌else◌,
  ltb, ◌++◌,
}
use kanna_pa.Scheduler.Schedule.{
  Schedule, Config, Computed, ok, value_error, zero_division_error, runtime_error, compute_next_run,
  is_due,
}

pub data JobStatus : Type 0 where
  succeeded failed skipped : JobStatus

pub record Job : Type 0 where
  pub schedule_id : ℕ
  pub status : JobStatus
  pub ran_at : ℕ

pub record Store : Type 0 where
  pub schedules : List Schedule
  pub jobs : List Job

pub record Outcome : Type 0 where
  pub schedule_id : ℕ
  pub name : String
  pub status : JobStatus

-- What the callback does: it returns a result whose "state" may be missing, or raises.
pub data Called : Type 0 where
  returned : (state : Option String) → Called
  raised : Called

unfoldable pub active_schedules : List Schedule → List Schedule
active_schedules [] = []
active_schedules (s ∷ rest) =
    let kept = active_schedules rest in if s.active then s ∷ kept else kept

abbrev pub latest : Option ℕ → ℕ → ℕ
latest none t = t
latest (some u) t = if ltb u t then t else u

-- SELECT ran_at … ORDER BY ran_at DESC LIMIT 1
unfoldable pub last_run_at : ℕ → List Job → Option ℕ
last_run_at id [] = none
last_run_at id (j ∷ rest) =
    let last = last_run_at id rest in
    if j.schedule_id == id then some (latest last j.ran_at) else last

-- UPDATE schedules … WHERE id = ?
unfoldable pub update : ℕ → (Schedule → Schedule) → List Schedule → List Schedule
update id f [] = []
update id f (s ∷ rest) = let tail = update id f rest in if s.id == id then f s ∷ tail else s ∷ tail

unfoldable pub set_next_run_at : ℕ → Option ℕ → Store → Store
unfolding update
set_next_run_at id next store = record {
  schedules =
      update id
        (λ s. record {
          id = s.id;
          name = s.name;
          config = s.config;
          active = s.active;
          next_run_at = next;
        })
        store.schedules;
  jobs = store.jobs;
}

unfoldable pub set_active : ℕ → Bool → Store → Store
unfolding update
set_active id active store = record {
  schedules =
      update id
        (λ s. record {
          id = s.id;
          name = s.name;
          config = s.config;
          active = active;
          next_run_at = s.next_run_at;
        })
        store.schedules;
  jobs = store.jobs;
}

abbrev pub record_job : ℕ → JobStatus → ℕ → Store → Store
record_job id status ran_at store = record {
  schedules = store.schedules;
  jobs = record { schedule_id = id; status = status; ran_at = ran_at } ∷ store.jobs;
}

abbrev pub status_of : Called → JobStatus
status_of (returned none) = succeeded
status_of (returned (some state)) = if state =ₛ "complete" then succeeded else failed
status_of raised = failed

abbrev pub reschedule : ℕ → Option ℕ → Store → Store
reschedule id none store = set_active id false (set_next_run_at id none store)
reschedule id (some t) store = set_next_run_at id (some t) store

-- A tick that ends, or that raises on the way; either way with what is written so far.
pub record Progress (W : Type 0) : Type 0 where
  pub store : Store
  pub world : W
  pub outcomes : List Outcome

pub data Ticked (W : Type 0) : Type 0 where
  ended : Progress W → Ticked W
  escaped : Progress W → Ticked W

-- A tick before its first schedule.
abbrev pub start : {W : Type 0} → Store → W → Progress W
start store w = record { store = store; world = w; outcomes = [] }

module _ {W : Type 0} (on_due : Option (Schedule → W → Called × W)) (now : ℕ) where
  abbrev pub call : Schedule → W → JobStatus × W
  call s w = elim on_due [ none ↦ (skipped, w) | some f ↦ (status_of ((f s w).0), (f s w).1) ]

  -- What follows the job's record: the next run from this one, and the outcome.
  abbrev pub settle : Schedule → JobStatus → Progress W → Computed (Option ℕ) → Ticked W
  settle s status p (ok next) = ended (record {
    store = reschedule s.id next p.store;
    world = p.world;
    outcomes = p.outcomes ++ (record { schedule_id = s.id; name = s.name; status = status } ∷ []);
  })
  settle s status p value_error = escaped p
  settle s status p zero_division_error = escaped p
  settle s status p runtime_error = escaped p

  unfoldable pub run_due : Schedule → Progress W → Ticked W
  unfolding compute_next_run set_next_run_at set_active
  run_due s p =
      let called = call s p.world in
      settle s (called.0)
        (record {
          store = record_job s.id (called.0) now p.store;
          world = called.1;
          outcomes = p.outcomes;
        })
        (compute_next_run s.config now (some now))

  abbrev pub visit_if : Schedule → Progress W → Computed Bool → Ticked W
  visit_if s p (ok true) = run_due s p
  visit_if s p (ok false) = ended p
  visit_if s p value_error = escaped p
  visit_if s p zero_division_error = escaped p
  visit_if s p runtime_error = escaped p

  unfoldable pub visit : Schedule → Progress W → Ticked W
  unfolding run_due is_due last_run_at
  visit s p = visit_if s p (is_due s now (last_run_at s.id p.store.jobs))

  unfoldable pub visit_all : List Schedule → Progress W → Ticked W
  visit_all [] p = ended p
  visit_all (s ∷ rest) p = elim (visit s p) [ ended q ↦ visit_all rest q | escaped q ↦ escaped q ]

  unfoldable pub tick : Store → W → Ticked W
  unfolding visit_all active_schedules
  tick store w = visit_all (active_schedules store.schedules) (start store w)
