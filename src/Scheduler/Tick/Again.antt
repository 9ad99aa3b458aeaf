-- ===== src/Scheduler/Tick/Again.antt =====
-- A tick run again at the same time, `Scheduler.tick`.
use kanna_pa.Prelude.{
  ℕ, ◌≡◌, ◌≢◌, refl, sym, subst, arith, Bool, true, false, Option, List, [], ◌∷◌, if◌then◌else◌,
  ◌⊎◌, inl, inr, if_ind, All,
}
use kanna_pa.Scheduler.Schedule.{
  Schedule, Config, Computed, ok, value_error, zero_division_error, runtime_error, is_due,
}
use kanna_pa.Scheduler.Schedule.Advance.{Waits}
use kanna_pa.Scheduler.Tick.{
  Store, Called, Progress, ended, escaped, active_schedules, start, last_run_at, visit_if, visit,
  visit_all, tick,
}
use kanna_pa.Scheduler.Tick.Quiet.{
  IsQuiet, WhenEnded, AllSettled, AreRows, done, row, visit_all-Settled,
}

active_schedules-active : (l : List Schedule) → All (λ s. s.active ≡ true) (active_schedules l)
unfolding active_schedules
active_schedules-active [] = tt
active_schedules-active (s ∷ rest) =
    if_ind (All (λ s. s.active ≡ true)) s.active (λ e. (e, active_schedules-active rest))
      (λ e. active_schedules-active rest)

-- The schedules that are active after a tick were active before it.
active_rows :
    (P : ℕ → Config → Type 0) (a b : List Schedule)
    → AreRows a b
    → All (λ s. P s.id s.config) (active_schedules a)
    → All (λ s. P s.id s.config) (active_schedules b)
unfolding active_schedules
active_rows P [] [] done h = tt
active_rows P [] (t ∷ b) r h = elim r [ ]
active_rows P (s ∷ a) [] r h = elim r [ ]
active_rows P (s ∷ a) (t ∷ b) (row r rest) h =
    if_ind (All (λ s. P s.id s.config)) t.active
      (λ e.
        let old = active-old s (active_schedules a) (r.active e) h in
        (
          subst (λ i. P i t.config) (sym r.id) (subst (P s.id) (sym r.config) old.0),
          active_rows P a b rest old.1,
        ))
      (λ e. active_rows P a b rest (tail-old s.active s (active_schedules a) h))
  where
    Holds : List Schedule → Type 0
    Holds = All (λ x. P x.id x.config)

    tail-old :
        (c : Bool) (x : Schedule) (l : List Schedule) → Holds (if c then x ∷ l else l) → Holds l
    tail-old true x l k = k.1
    tail-old false x l k = k

    active-old :
        (x : Schedule) (l : List Schedule)
        → x.active ≡ true
        → Holds (if x.active then x ∷ l else l)
        → P x.id x.config × Holds l
    active-old x l e k = subst (λ c. Holds (if c then x ∷ l else l)) e k

AreRows-self : (l : List Schedule) → AreRows l l
AreRows-self [] = done
AreRows-self (s ∷ l) = row (record { id = refl; config = refl; active = λ h. h }) (AreRows-self l)

quiet-visit_if :
    {W : Type 0} (on_due : Option (Schedule → W → Called × W)) (now : ℕ) (s : Schedule)
    (p : Progress W) (r : Computed Bool)
    → r ≢ ok true
    → (visit_if on_due now s p r ≡ ended p) ⊎ (visit_if on_due now s p r ≡ escaped p)
quiet-visit_if on_due now s p (ok true) h = absurd (h refl)
quiet-visit_if on_due now s p (ok false) h = inl refl
quiet-visit_if on_due now s p value_error h = inr refl
quiet-visit_if on_due now s p zero_division_error h = inr refl
quiet-visit_if on_due now s p runtime_error h = inr refl

quiet-visit :
    {W : Type 0} (on_due : Option (Schedule → W → Called × W)) (now : ℕ) (s : Schedule)
    (p : Progress W)
    → IsQuiet now p.store.jobs s.id s.config
    → (visit on_due now s p ≡ ended p) ⊎ (visit on_due now s p ≡ escaped p)
unfolding visit is_due
quiet-visit on_due now s p q =
    quiet-visit_if on_due now s p (is_due s now (last_run_at s.id p.store.jobs)) idle
  where
    idle : is_due s now (last_run_at s.id p.store.jobs) ≢ ok true
    idle = if_ind (λ r. r ≢ ok true) s.active (λ e. q) (λ e. λ h. ground arith)

quiet-visit_all :
    {W : Type 0} (on_due : Option (Schedule → W → Called × W)) (now : ℕ) (l : List Schedule)
    (p : Progress W)
    → All (λ s. IsQuiet now p.store.jobs s.id s.config) l
    → (visit_all on_due now l p ≡ ended p) ⊎ (visit_all on_due now l p ≡ escaped p)
unfolding visit_all
quiet-visit_all on_due now [] p h = inl refl
quiet-visit_all on_due now (s ∷ rest) p h =
    go (quiet-visit on_due now s p h.0) (quiet-visit_all on_due now rest p h.1)
  where
    go :
        (visit on_due now s p ≡ ended p) ⊎ (visit on_due now s p ≡ escaped p)
        → (visit_all on_due now rest p ≡ ended p) ⊎ (visit_all on_due now rest p ≡ escaped p)
        → (visit_all on_due now (s ∷ rest) p ≡ ended p)
          ⊎ (visit_all on_due now (s ∷ rest) p ≡ escaped p)
    go (inl e) ih = rw (e, visit_all) ih
    go (inr e) ih = inr (rw (e, visit_all) refl)

-- When a tick ends, and every active interval schedule waits at least a second, a tick of the tables
-- it leaves at the same time calls no callback, records no job, changes no row and reports no outcome,
-- whether it ends or raises.
pub tick-again :
    {W : Type 0} (on_due : Option (Schedule → W → Called × W)) (now : ℕ) (store : Store) (w w' : W)
    (p : Progress W)
    → All (λ s. Waits s.config) (active_schedules store.schedules)
    → tick on_due now store w ≡ ended p
    → (tick on_due now p.store w' ≡ ended (start p.store w'))
      ⊎ (tick on_due now p.store w' ≡ escaped (start p.store w'))
unfolding tick
tick-again on_due now store w w' p waits h =
    quiet-visit_all on_due now (active_schedules p.store.schedules) (start p.store w') (
      active_rows (IsQuiet now p.store.jobs) store.schedules p.store.schedules
        (settled.0.rows (AreRows-self store.schedules)) settled.1)
  where
    settled :
        AllSettled on_due now store.schedules (active_schedules store.schedules) (start store w) p
    settled =
        subst
          (λ t. WhenEnded t (
            AllSettled on_due now store.schedules (active_schedules store.schedules)
              (start store w)))
          h
          (visit_all-Settled on_due now store.schedules (active_schedules store.schedules)
            (start store w) waits (active_schedules-active store.schedules))
