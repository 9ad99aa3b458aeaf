-- ===== src/Scheduler/Schedule.antt =====
-- automation/scheduler/schedule.py. A date is its ordinal (`date.toordinal`), a datetime the number
-- of microseconds from the start of day 0. A config is kept as it is read; one whose text `int` or
-- `fromisoformat` rejects is `unreadable`. Counts in a config are not negative.
pub mod Weekly
pub mod Advance
use kanna_pa.Prelude.{
  ℕ, zero, suc, ◌+◌, ◌-◌, ◌*◌, ◌/◌, ◌%◌, String, Bool, true, false, ◌&&◌, Option, none, some, ltb,
  leb, ◌==◌, if◌then◌else◌,
}

abbrev pub day_length : ℕ
day_length = 24 * 60 * 60 * 1000000

abbrev pub date_of : ℕ → ℕ
date_of t = t / day_length

-- date.weekday(): Monday is 0
abbrev pub weekday_of : ℕ → ℕ
weekday_of d = (d + 6) % 7

pub record WeeklyConfig : Type 0 where
  pub weekday : ℕ
  pub hour : ℕ
  pub minute : ℕ
  pub every_n_weeks : ℕ
  pub anchor_date : ℕ

pub data Config : Type 0 where
  once : (run_at : ℕ) → Config
  interval : (seconds : ℕ) → (anchor : Option ℕ) → Config
  weekly : WeeklyConfig → Config
  unreadable : Config

pub data Computed {ℓ} (A : Type ℓ) : Type ℓ where
  ok : A → Computed A
  value_error zero_division_error runtime_error : Computed A

pub record Schedule : Type 0 where
  pub id : ℕ
  pub name : String
  pub config : Config
  pub active : Bool
  pub next_run_at : Option ℕ

pub data Verdict : Type 0 where
  hit miss crash : Verdict

-- The tests of the loop body on one candidate; a remainder by zero raises.
unfoldable pub verdict : WeeklyConfig → ℕ → Verdict
verdict c d =
    if weekday_of d == c.weekday
    then (if ltb d c.anchor_date
        then miss
        else if c.every_n_weeks == 0
        then crash
        else if ((d - c.anchor_date) / 7) % c.every_n_weeks == 0
        then hit
        else miss)
    else miss

-- datetime.combine(candidate, time(hour, minute))
unfoldable pub combine : WeeklyConfig → ℕ → Computed ℕ
combine c d =
    if ltb c.hour 24 && ltb c.minute 60
    then ok (d * day_length + (c.hour * 60 + c.minute) * 60000000)
    else value_error

-- The bounded search, from a candidate, for so many days.
unfoldable pub search_day : WeeklyConfig → ℕ → ℕ → Computed ℕ
search_day c zero d = runtime_error
search_day c (suc n) d = elim (verdict c d) [
  | hit ↦ ok d
  | crash ↦ zero_division_error
  | miss ↦ search_day c n (d + 1)
]

abbrev pub search_start : ℕ → Option ℕ → ℕ
search_start now none = date_of now
search_start now (some last) = date_of last + 1

abbrev pub and_combine : WeeklyConfig → Computed ℕ → Computed (Option ℕ)
and_combine c (ok d) = elim (combine c d) [
  | ok t ↦ ok (some t)
  | value_error ↦ value_error
  | zero_division_error ↦ zero_division_error
  | runtime_error ↦ runtime_error
]
and_combine c value_error = value_error
and_combine c zero_division_error = zero_division_error
and_combine c runtime_error = runtime_error

unfoldable pub next_weekly : WeeklyConfig → ℕ → Option ℕ → Computed (Option ℕ)
unfolding search_day combine
next_weekly c now last =
    and_combine c (search_day c (c.every_n_weeks * 7 + 8) (search_start now last))

unfoldable pub compute_next_run : Config → ℕ → Option ℕ → Computed (Option ℕ)
unfolding next_weekly
compute_next_run (once run_at) now none = ok (some run_at)
compute_next_run (once run_at) now (some last) = ok none
compute_next_run (interval seconds none) now none = ok (some now)
compute_next_run (interval seconds (some anchor)) now none = ok (some anchor)
compute_next_run (interval seconds anchor) now (some last) = ok (some (last + seconds * 1000000))
compute_next_run (weekly c) now last = next_weekly c now last
compute_next_run unreadable now last = value_error

-- next_run is not None and next_run <= now
abbrev pub arrived : ℕ → Computed (Option ℕ) → Computed Bool
arrived now (ok none) = ok false
arrived now (ok (some t)) = ok (leb t now)
arrived now value_error = value_error
arrived now zero_division_error = zero_division_error
arrived now runtime_error = runtime_error

unfoldable pub is_due : Schedule → ℕ → Option ℕ → Computed Bool
unfolding compute_next_run
is_due s now last = if s.active then arrived now (compute_next_run s.config now last) else ok false
