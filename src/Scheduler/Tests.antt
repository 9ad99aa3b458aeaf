-- ===== src/Scheduler/Tests.antt =====
-- Weekly and interval schedules around the days 7 to 21.
use kanna_pa.Prelude.{ℕ, ◌+◌, ◌*◌, ◌≡◌, ◌≢◌, ◌⊎◌, refl, arith, true, none, some, [], ◌∷◌}
use kanna_pa.Scheduler.Schedule.{
  WeeklyConfig, interval, weekly, ok, runtime_error, Schedule, compute_next_run, is_due, day_length,
  search_start,
}
use kanna_pa.Scheduler.Schedule.Weekly.{
  IsCalendar, IsFirst, at_time, next_weekly-IsFirst, next_weekly-far_anchor,
}
use kanna_pa.Scheduler.Schedule.Advance.{is_due-ran}
use kanna_pa.Scheduler.Tick.{
  Store, succeeded, Called, returned, Progress, ended, escaped, start, tick, visit,
}
use kanna_pa.Scheduler.Tick.Again.{tick-again}

abbrev mondays : WeeklyConfig
mondays = record { weekday = 0; hour = 9; minute = 0; every_n_weeks = 2; anchor_date = 8 }

mondays-IsCalendar : IsCalendar mondays
mondays-IsCalendar = record {
  weekday = omega arith;
  hour = omega arith;
  minute = omega arith;
  weeks = omega arith;
}

next_weekly-IsFirst_example :
    (d : ℕ) × (compute_next_run (weekly mondays) (10 * day_length) none
      ≡ ok (some (at_time mondays d)))
    × IsFirst mondays (search_start (10 * day_length) none) d
next_weekly-IsFirst_example =
    next_weekly-IsFirst mondays (10 * day_length) none mondays-IsCalendar (omega arith)

abbrev far_off : WeeklyConfig
far_off = record { weekday = 0; hour = 9; minute = 0; every_n_weeks = 1; anchor_date = 40 }

abbrev far_schedule : Schedule
far_schedule = record {
  id = 1;
  name = "far";
  config = weekly far_off;
  active = true;
  next_run_at = none;
}

next_weekly-far_anchor_example :
    (compute_next_run (weekly far_off) (10 * day_length) none ≡ runtime_error)
    × (is_due far_schedule (10 * day_length) none ≡ runtime_error)
next_weekly-far_anchor_example =
    next_weekly-far_anchor far_off far_schedule (10 * day_length) none (omega arith) (omega arith)
      refl refl

abbrev each_minute : Schedule
each_minute = record {
  id = 1;
  name = "ping";
  config = interval 60 none;
  active = true;
  next_run_at = none;
}

is_due-ran_example : is_due each_minute 5 (some 5) ≢ ok true
is_due-ran_example = is_due-ran each_minute 5 5 (omega arith) (omega arith)

abbrev one_schedule : Store
one_schedule = record { schedules = each_minute ∷ []; jobs = [] }

abbrev ping : Schedule → ℕ → Called × ℕ
ping s w = (returned none, w + 1)

abbrev pinged : Progress ℕ
pinged = record {
  store = record {
    schedules =
        record {
          id = 1;
          name = "ping";
          config = interval 60 none;
          active = true;
          next_run_at = some (5 + 60 * 1000000);
        }
        ∷ [];
    jobs = record { schedule_id = 1; status = succeeded; ran_at = 5 } ∷ [];
  };
  world = 1;
  outcomes = record { schedule_id = 1; name = "ping"; status = succeeded } ∷ [];
}

tick-again_example :
    (tick (some ping) 5 pinged.store 0 ≡ ended (start pinged.store 0))
    ⊎ (tick (some ping) 5 pinged.store 0 ≡ escaped (start pinged.store 0))
unfolding tick visit
tick-again_example = tick-again (some ping) 5 one_schedule 0 0 pinged (omega arith) refl
