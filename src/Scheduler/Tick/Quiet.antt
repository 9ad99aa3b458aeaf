-- ===== src/Scheduler/Tick/Quiet.antt =====
-- What a tick leaves behind: `Scheduler.tick` run again at the same time.
use kanna_pa.Prelude.{
  ℕ, ◌≤◌, ◌≡◌, ◌≢◌, refl, sym, subst, arith, ◌==◌, Bool, true, false, Option, none, some, List, [],
  ◌∷◌, ◌++◌, if_ind, All,
}
use kanna_pa.Scheduler.Schedule.{
  Schedule, Config, Computed, ok, value_error, zero_division_error, runtime_error, compute_next_run,
  is_due, arrived,
}
use kanna_pa.Scheduler.Schedule.Advance.{Waits, compute_next_run-later, arrived-later}
use kanna_pa.Scheduler.Tick.{
  Job, JobStatus, Store, Called, Progress, Ticked, ended, escaped, latest, last_run_at, update,
  set_next_run_at, set_active, record_job, reschedule, call, settle, run_due, visit_if, visit,
  visit_all,
}

-- A schedule's last run is not before a time.
abbrev Ran : ℕ → Option ℕ → Type 0
Ran now none = ⊥
Ran now (some t) = now ≤ t

-- A schedule with this id and configuration has nothing to do, given the jobs.
abbrev pub IsQuiet : ℕ → List Job → ℕ → Config → Type 0
IsQuiet now jobs id config =
    arrived now (compute_next_run config now (last_run_at id jobs)) ≢ ok true

Ran-IsQuiet :
    (now : ℕ) (config : Config) (last : Option ℕ)
    → Waits config
    → Ran now last
    → arrived now (compute_next_run config now last) ≢ ok true
Ran-IsQuiet now config none w r = absurd r
Ran-IsQuiet now config (some t) w r =
    arrived-later (compute_next_run config now (some t)) now t
      (λ next. compute_next_run-later config now t next w) r

latest-Ran : (now : ℕ) (last : Option ℕ) → now ≤ latest last now
latest-Ran now none = omega arith
latest-Ran now (some u) = ground arith

-- Jobs that are recorded at the time of the tick leave a quiet schedule quiet.
record-IsQuiet :
    (now : ℕ) (jobs : List Job) (j : Job) (id : ℕ) (config : Config)
    → Waits config
    → j.ran_at ≡ now
    → IsQuiet now jobs id config
    → IsQuiet now (j ∷ jobs) id config
unfolding last_run_at
record-IsQuiet now jobs j id config w at q = if_ind P (j.schedule_id == id) (λ e. ran) (λ e. q)
  where
    P : Option ℕ → Type 0
    P last = arrived now (compute_next_run config now last) ≢ ok true

    recent : Ran now (some (latest (last_run_at id jobs) j.ran_at))
    recent = rw at (latest-Ran now (last_run_at id jobs))

    ran : P (some (latest (last_run_at id jobs) j.ran_at))
    ran = Ran-IsQuiet now config (some (latest (last_run_at id jobs) j.ran_at)) w recent

-- The job that is recorded for a schedule makes it quiet.
own-IsQuiet :
    (now : ℕ) (jobs : List Job) (j : Job) (config : Config)
    → Waits config
    → j.ran_at ≡ now
    → IsQuiet now (j ∷ jobs) j.schedule_id config
unfolding last_run_at
own-IsQuiet now jobs j config w at =
    Ran-IsQuiet now config (last_run_at j.schedule_id (j ∷ jobs)) w recent
  where
    last :
        last_run_at j.schedule_id (j ∷ jobs)
        ≡ some (latest (last_run_at j.schedule_id jobs) j.ran_at)
    last = ground arith

    recent : Ran now (last_run_at j.schedule_id (j ∷ jobs))
    recent = rw last (rw at (latest-Ran now (last_run_at j.schedule_id jobs)))

-- A row of the table after a tick, and the row that it was.
pub record IsRow (old new : Schedule) : Type 0 where
  pub id : new.id ≡ old.id
  pub config : new.config ≡ old.config
  pub active : new.active ≡ true → old.active ≡ true

pub data AreRows : List Schedule → List Schedule → Type 0 where
  done : AreRows [] []
  row :
      {s s' : Schedule} {l l' : List Schedule}
      → IsRow s s'
      → AreRows l l'
      → AreRows (s ∷ l) (s' ∷ l')

update-AreRows :
    (id : ℕ) (f : Schedule → Schedule) (a b : List Schedule)
    → ((old s : Schedule) → IsRow old s → IsRow old (f s))
    → AreRows a b
    → AreRows a (update id f b)
unfolding update
update-AreRows id f [] [] keeps done = done
update-AreRows id f [] (t ∷ b) keeps r = elim r [ ]
update-AreRows id f (s ∷ a) [] keeps r = elim r [ ]
update-AreRows id f (s ∷ a) (t ∷ b) keeps (row r rest) =
    if_ind (AreRows (s ∷ a)) (t.id == id)
      (λ e. row (keeps s t r) (update-AreRows id f a b keeps rest))
      (λ e. row r (update-AreRows id f a b keeps rest))

next-AreRows :
    (id : ℕ) (next : Option ℕ) (a : List Schedule) (store : Store)
    → AreRows a store.schedules
    → AreRows a (set_next_run_at id next store).schedules
unfolding set_next_run_at
next-AreRows id next a store r =
    update-AreRows id
      (λ s. record {
        id = s.id;
        name = s.name;
        config = s.config;
        active = s.active;
        next_run_at = next;
      })
      a store.schedules (λ old s. λ e. record { id = e.id; config = e.config; active = e.active }) r

reschedule-AreRows :
    (id : ℕ) (next : Option ℕ) (a : List Schedule) (store : Store)
    → AreRows a store.schedules
    → AreRows a (reschedule id next store).schedules
unfolding set_next_run_at set_active
reschedule-AreRows id none a store r =
    update-AreRows id
      (λ s. record {
        id = s.id;
        name = s.name;
        config = s.config;
        active = false;
        next_run_at = s.next_run_at;
      })
      a (set_next_run_at id none store).schedules
      (λ old s. λ e. record { id = e.id; config = e.config; active = λ h. ground arith })
      (next-AreRows id none a store r)
reschedule-AreRows id (some t) a store r = next-AreRows id (some t) a store r

reschedule-jobs :
    (id : ℕ) (next : Option ℕ) (store : Store) → (reschedule id next store).jobs ≡ store.jobs
unfolding set_next_run_at set_active
reschedule-jobs id none store = refl
reschedule-jobs id (some t) store = refl

-- What a part of a tick leaves: the rows of the table it began with, and the quiet of the quiet.
pub record Leaves {W : Type 0} (now : ℕ) (table : List Schedule) (p q : Progress W) : Type 0 where
  pub rows : AreRows table p.store.schedules → AreRows table q.store.schedules
  pub quiet :
      (id : ℕ) (config : Config)
      → Waits config
      → IsQuiet now p.store.jobs id config
      → IsQuiet now q.store.jobs id config

-- What holds of a tick that ends.
abbrev pub WhenEnded : {W : Type 0} → Ticked W → (Progress W → Type 0) → Type 0
WhenEnded (ended q) P = P q
WhenEnded (escaped q) P = Unit

abbrev Settled : {W : Type 0} → ℕ → List Schedule → Schedule → Progress W → Progress W → Type 0
Settled now table s p q = Leaves now table p q × IsQuiet now q.store.jobs s.id s.config

module _ {W : Type 0} (on_due : Option (Schedule → W → Called × W)) (now : ℕ)
    (table : List Schedule) where
  settle-Settled :
      (s : Schedule) (status : JobStatus) (p : Progress W) (w : W) (r : Computed (Option ℕ))
      → Waits s.config
      → WhenEnded
          (settle on_due now s status
            (record {
              store = record_job s.id status now p.store;
              world = w;
              outcomes = p.outcomes;
            })
            r)
          (Settled now table s p)
  settle-Settled s status p w (ok next) waits = (leaves, own)
    where
      store : Store
      store = record_job s.id status now p.store

      j : Job
      j = record { schedule_id = s.id; status = status; ran_at = now }

      after :
          (id : ℕ) (config : Config)
          → IsQuiet now (j ∷ p.store.jobs) id config
          → IsQuiet now (reschedule s.id next store).jobs id config
      after id config q =
          subst (λ js. IsQuiet now js id config) (sym (reschedule-jobs s.id next store)) q

      leaves : Leaves {W = W} now table p (record {
        store = reschedule s.id next store;
        world = w;
        outcomes =
            p.outcomes ++ (record { schedule_id = s.id; name = s.name; status = status } ∷ []);
      })
      leaves = record {
        rows = λ r. reschedule-AreRows s.id next table store r;
        quiet = λ id config ws q.
            after id config (record-IsQuiet now p.store.jobs j id config ws refl q);
      }

      own : IsQuiet now (reschedule s.id next store).jobs s.id s.config
      own = after s.id s.config (own-IsQuiet now p.store.jobs j s.config waits refl)
  settle-Settled s status p w value_error waits = tt
  settle-Settled s status p w zero_division_error waits = tt
  settle-Settled s status p w runtime_error waits = tt

  visit_if-Settled :
      (s : Schedule) (p : Progress W) (r : Computed Bool)
      → Waits s.config
      → (r ≡ ok false → IsQuiet now p.store.jobs s.id s.config)
      → WhenEnded (visit_if on_due now s p r) (Settled now table s p)
  unfolding run_due
  visit_if-Settled s p (ok true) w h =
      let called = call on_due now s p.world in
      settle-Settled s (called.0) p (called.1) (compute_next_run s.config now (some now)) w
  visit_if-Settled s p (ok false) w h =
      (record { rows = λ r. r; quiet = λ id config w q. q }, h refl)
  visit_if-Settled s p value_error w h = tt
  visit_if-Settled s p zero_division_error w h = tt
  visit_if-Settled s p runtime_error w h = tt

  visit-Settled :
      (s : Schedule) (p : Progress W)
      → Waits s.config
      → s.active ≡ true
      → WhenEnded (visit on_due now s p) (Settled now table s p)
  unfolding visit
  visit-Settled s p w a = visit_if-Settled s p (is_due s now (last_run_at s.id p.store.jobs)) w idle
    where
      idle :
          is_due s now (last_run_at s.id p.store.jobs) ≡ ok false
          → IsQuiet now p.store.jobs s.id s.config
      idle e due =
          let d : is_due s now (last_run_at s.id p.store.jobs) ≡ ok true = rw (a, is_due) due in
          ground arith

  -- Every schedule that is visited is quiet at the end.
  abbrev pub AllSettled : List Schedule → Progress W → Progress W → Type 0
  AllSettled l p q = Leaves now table p q × All (λ s. IsQuiet now q.store.jobs s.id s.config) l

  pub visit_all-Settled :
      (l : List Schedule) (p : Progress W)
      → All (λ s. Waits s.config) l
      → All (λ s. s.active ≡ true) l
      → WhenEnded (visit_all on_due now l p) (AllSettled l p)
  unfolding visit_all
  visit_all-Settled [] p w a = (record { rows = λ r. r; quiet = λ id config ws q. q }, tt)
  visit_all-Settled (s ∷ rest) p w a =
      go (visit on_due now s p) (visit-Settled s p w.0 a.0) (λ q. visit_all-Settled rest q w.1 a.1)
    where
      join :
          (q r : Progress W)
          → Settled now table s p q
          → AllSettled rest q r
          → AllSettled (s ∷ rest) p r
      join q r (f, own) (g, others) = (
        record {
          rows = λ x. g.rows (f.rows x);
          quiet = λ id config ws x. g.quiet id config ws (f.quiet id config ws x);
        },
        (g.quiet s.id s.config w.0 own, others),
      )

      through :
          (q : Progress W) (t : Ticked W)
          → Settled now table s p q
          → WhenEnded t (AllSettled rest q)
          → WhenEnded t (AllSettled (s ∷ rest) p)
      through q (ended r) f g = join q r f g
      through q (escaped r) f g = tt

      go :
          (t : Ticked W)
          → WhenEnded t (Settled now table s p)
          → ((q : Progress W) → WhenEnded (visit_all on_due now rest q) (AllSettled rest q))
          → WhenEnded
              (elim t [ ended q ↦ visit_all on_due now rest q | escaped q ↦ escaped q ])
              (AllSettled (s ∷ rest) p)
      go (ended q) f ih = through q (visit_all on_due now rest q) f (ih q)
      go (escaped q) f ih = tt
