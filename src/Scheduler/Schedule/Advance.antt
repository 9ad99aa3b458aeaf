-- ===== src/Scheduler/Schedule/Advance.antt =====
-- What a recorded run does to the next one: `compute_next_run` with a last run.
use kanna_pa.Prelude.{
  ℕ, zero, suc, ◌+◌, ◌*◌, ◌≤◌, ◌<◌, ◌≡◌, ◌≢◌, if◌then◌else◌, refl, sym, ◌∙◌, Bool, true, false,
  Option, none, some, arith,
}
use kanna_pa.Scheduler.Schedule.{
  WeeklyConfig, Config, once, interval, weekly, unreadable, Computed, ok, value_error,
  zero_division_error, runtime_error, Verdict, hit, miss, crash, verdict, combine, search_day,
  search_start, and_combine, next_weekly, compute_next_run, Schedule, is_due, arrived, date_of,
}

-- An interval schedule waits at least a second.
abbrev pub Waits : Config → Type 0
Waits (once run_at) = Unit
Waits (interval seconds anchor) = 0 < seconds
Waits (weekly c) = Unit
Waits unreadable = Unit

search_day-from : (c : WeeklyConfig) (n start d : ℕ) → search_day c n start ≡ ok d → start ≤ d
unfolding search_day
search_day-from c zero start d h = ground arith
search_day-from c (suc n) start d h = go (verdict c start) refl (search_day-from c n (start + 1) d)
  where
    found : verdict c start ≡ hit → ok d ≡ ok start
    found e = sym h ∙ rw (e, search_day) refl

    onward : verdict c start ≡ miss → search_day c n (start + 1) ≡ ok d
    onward e = rw (e, search_day) refl ∙ h

    go :
        (v : Verdict)
        → verdict c start ≡ v
        → (search_day c n (start + 1) ≡ ok d → start + 1 ≤ d)
        → start ≤ d
    go hit e rest = let p = found e in ground arith
    go miss e rest = let p = rest (onward e) in omega arith
    go crash e rest = let p : zero_division_error ≡ ok d = rw (e, search_day) refl ∙ h in cc

later_day :
    (c : WeeklyConfig) (last d next : ℕ)
    → date_of last + 1 ≤ d
    → and_combine c (ok d) ≡ ok (some next)
    → last < next
unfolding combine
later_day c last d next le h = ground arith

weekly-later :
    (c : WeeklyConfig) (r : Computed ℕ) (last next : ℕ)
    → ((d : ℕ) → r ≡ ok d → date_of last + 1 ≤ d)
    → and_combine c r ≡ ok (some next)
    → last < next
weekly-later c (ok d) last next from h = later_day c last d next (from d refl) h
weekly-later c value_error last next from h = absurd (ground arith)
weekly-later c zero_division_error last next from h = absurd (ground arith)
weekly-later c runtime_error last next from h = absurd (ground arith)

-- The next run that is computed from a last run is later than that run, whatever the kind of the
-- schedule, where an interval schedule waits at least a second.
pub compute_next_run-later :
    (config : Config) (now last next : ℕ)
    → Waits config
    → compute_next_run config now (some last) ≡ ok (some next)
    → last < next
unfolding compute_next_run next_weekly
compute_next_run-later (once run_at) now last next w h = absurd (ground arith)
compute_next_run-later (interval seconds none) now last next w h = ground arith
compute_next_run-later (interval seconds (some anchor)) now last next w h = ground arith
compute_next_run-later (weekly c) now last next w h =
    weekly-later c (search_day c (c.every_n_weeks * 7 + 8) (search_start now (some last))) last next
      (search_day-from c (c.every_n_weeks * 7 + 8) (search_start now (some last))) h
compute_next_run-later unreadable now last next w h = absurd (ground arith)

pub arrived-later :
    (r : Computed (Option ℕ)) (now last : ℕ)
    → ((next : ℕ) → r ≡ ok (some next) → last < next)
    → now ≤ last
    → arrived now r ≢ ok true
arrived-later (ok none) now last later le h = ground arith
arrived-later (ok (some t)) now last later le h = let p = later t refl in ground arith
arrived-later value_error now last later le h = ground arith
arrived-later zero_division_error now last later le h = ground arith
arrived-later runtime_error now last later le h = ground arith

-- A schedule whose last run was at a time or later is not due at that time, where an interval
-- schedule waits at least a second.
pub is_due-ran :
    (s : Schedule) (now last : ℕ) → Waits s.config → now ≤ last → is_due s now (some last) ≢ ok true
unfolding is_due
is_due-ran s now last w le = go s.active
  where
    go :
        (b : Bool)
        → (if b then arrived now (compute_next_run s.config now (some last)) else ok false)
          ≢ ok true
    go true =
        arrived-later (compute_next_run s.config now (some last)) now last
          (λ next. compute_next_run-later s.config now last next w) le
    go false = λ h. ground arith
