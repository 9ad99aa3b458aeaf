-- ===== src/Scheduler/Schedule/Weekly.antt =====
-- The search for the next day of a weekly schedule: `_next_weekly`.
use native.Mathlib.Nat.{mul-mod_left}
use kanna_pa.Prelude.{
  ℕ, zero, suc, ◌⊎◌, inl, inr, Bool-cases, ◌∙◌, sym, subst, ◌+◌, ◌-◌, ◌*◌, ◌/◌, ◌%◌, ◌≤◌, ◌<◌, ◌≡◌,
  ◌≢◌, refl, true, Option, some, arith, ltb,
}
use kanna_pa.Scheduler.Schedule.{
  WeeklyConfig, weekday_of, ok, runtime_error, Verdict, hit, miss, crash, verdict, search_day,
  search_start, next_weekly, and_combine, combine, compute_next_run, is_due, weekly, Schedule,
  day_length,
}

-- The days on which the schedule fires: the weekday, in every n-th week counted from the anchor.
pub record IsOccurrence (c : WeeklyConfig) (d : ℕ) : Type 0 where
  pub day : weekday_of d ≡ c.weekday
  pub since : c.anchor_date ≤ d
  pub week : ((d - c.anchor_date) / 7) % c.every_n_weeks ≡ 0

IsOccurrence-hit :
    (c : WeeklyConfig) (d : ℕ) → 0 < c.every_n_weeks → IsOccurrence c d → verdict c d ≡ hit
unfolding verdict
IsOccurrence-hit c d n o = ground arith

hit-IsOccurrence : (c : WeeklyConfig) (d : ℕ) → verdict c d ≡ hit → IsOccurrence c d
unfolding verdict
hit-IsOccurrence c d h = ground arith

no_crash : (c : WeeklyConfig) (d : ℕ) → 0 < c.every_n_weeks → verdict c d ≢ crash
unfolding verdict
no_crash c d n h = ground arith

-- The first occurrence from a day on.
pub record IsFirst (c : WeeklyConfig) (start d : ℕ) : Type 0 where
  pub from : start ≤ d
  pub occurs : IsOccurrence c d
  pub none_before : (e : ℕ) → start ≤ e → e < d → ¬ IsOccurrence c e

search_day-hit : (c : WeeklyConfig) (n d : ℕ) → verdict c d ≡ hit → search_day c (suc n) d ≡ ok d
unfolding search_day
search_day-hit c n d h = rw (h, search_day) refl

search_day-miss :
    (c : WeeklyConfig) (n d : ℕ)
    → verdict c d ≡ miss
    → search_day c (suc n) d ≡ search_day c n (d + 1)
unfolding search_day
search_day-miss c n d h = rw (h, search_day) refl

miss-not-IsOccurrence :
    (c : WeeklyConfig) (d : ℕ) → 0 < c.every_n_weeks → verdict c d ≡ miss → ¬ IsOccurrence c d
miss-not-IsOccurrence c d pos m o = let h = IsOccurrence-hit c d pos o in cc

IsFirst-self : (c : WeeklyConfig) (d : ℕ) → IsOccurrence c d → IsFirst c d d
IsFirst-self c d o = record {
  from = omega arith;
  occurs = o;
  none_before = λ e. λ le. λ lt. absurd (omega arith);
}

eq_or_later : (a b : ℕ) → a ≤ b → (a ≡ b) ⊎ (a + 1 ≤ b)
eq_or_later a b le = elim (Bool-cases (ltb a b)) [
  | inl e ↦ inr (ground arith)
  | inr e ↦ inl (ground arith)
]

IsFirst-miss :
    (c : WeeklyConfig) (start d : ℕ)
    → ¬ IsOccurrence c start
    → IsFirst c (start + 1) d
    → IsFirst c start d
IsFirst-miss c start d skipped f = record {
  from = let h = f.from in omega arith;
  occurs = f.occurs;
  none_before = λ e. λ le. λ lt. λ o. elim (eq_or_later start e le) [
    | inl p ↦ skipped (subst (IsOccurrence c) (sym p) o)
    | inr p ↦ f.none_before e p lt o
  ];
}

search_day-IsFirst :
    (c : WeeklyConfig) (n start d : ℕ)
    → 0 < c.every_n_weeks
    → start ≤ d
    → d < start + n
    → IsOccurrence c d
    → (e : ℕ) × (search_day c n start ≡ ok e) × IsFirst c start e
search_day-IsFirst c zero start d pos le lt o = absurd (omega arith)
search_day-IsFirst c (suc n) start d pos le lt o =
    go (verdict c start) refl
      (λ h. search_day-IsFirst c n (start + 1) d pos (later h) (omega arith) o)
  where
    Found : ℕ → ℕ → Type 0
    Found m from = (e : ℕ) × (search_day c m from ≡ ok e) × IsFirst c from e

    later : verdict c start ≡ miss → start + 1 ≤ d
    later m = elim (eq_or_later start d le) [
      | inl p ↦ absurd (miss-not-IsOccurrence c start pos m (subst (IsOccurrence c) (sym p) o))
      | inr p ↦ p
    ]

    found : verdict c start ≡ miss → Found n (start + 1) → Found (suc n) start
    found m (e, q, f) = (
      e,
      search_day-miss c n start m ∙ q,
      IsFirst-miss c start e (miss-not-IsOccurrence c start pos m) f,
    )

    go :
        (v : Verdict)
        → verdict c start ≡ v
        → (verdict c start ≡ miss → Found n (start + 1))
        → Found (suc n) start
    go hit h rest =
        (start, search_day-hit c n start h, IsFirst-self c start (hit-IsOccurrence c start h))
    go miss h rest = found h (rest h)
    go crash h rest = absurd (no_crash c start pos h)

search_day-none :
    (c : WeeklyConfig) (n start : ℕ)
    → 0 < c.every_n_weeks
    → ((d : ℕ) → start ≤ d → d < start + n → ¬ IsOccurrence c d)
    → search_day c n start ≡ runtime_error
unfolding search_day
search_day-none c zero start pos h = refl
search_day-none c (suc n) start pos h =
    go (verdict c start) refl
      (search_day-none c n (start + 1) pos (λ d. λ le. λ lt. h d (omega arith) (omega arith)))
  where
    go :
        (v : Verdict)
        → verdict c start ≡ v
        → search_day c n (start + 1) ≡ runtime_error
        → search_day c (suc n) start ≡ runtime_error
    go hit e rest = absurd (h start (omega arith) (omega arith) (hit-IsOccurrence c start e))
    go miss e rest = search_day-miss c n start e ∙ rest
    go crash e rest = absurd (no_crash c start pos e)

-- The multiple of n that follows a count of weeks.
abbrev next_multiple : ℕ → ℕ → ℕ
next_multiple n q = (q / n + 1) * n

next_multiple-bounds : (n q : ℕ) → 0 < n → (q < next_multiple n q) × (next_multiple n q ≤ q + n)
next_multiple-bounds n q pos = grind arith

-- The scheduled weekday in the week that starts at a day.
abbrev in_week : WeeklyConfig → ℕ → ℕ
in_week c base = base + (c.weekday + 7 - weekday_of base) % 7

in_week-IsOccurrence :
    (c : WeeklyConfig) (k : ℕ)
    → c.weekday < 7
    → k % c.every_n_weeks ≡ 0
    → IsOccurrence c (in_week c (c.anchor_date + k * 7))
in_week-IsOccurrence c k wd m = record { day = omega arith; since = omega arith; week = week }
  where
    weeks : (in_week c (c.anchor_date + k * 7) - c.anchor_date) / 7 ≡ k
    weeks = omega arith

    week : ((in_week c (c.anchor_date + k * 7) - c.anchor_date) / 7) % c.every_n_weeks ≡ 0
    week = rw weeks m

-- A configuration whose fields are those of a calendar.
pub record IsCalendar (c : WeeklyConfig) : Type 0 where
  pub weekday : c.weekday < 7
  pub hour : c.hour < 24
  pub minute : c.minute < 60
  pub weeks : 0 < c.every_n_weeks

search_weeks :
    (c : WeeklyConfig) (start : ℕ)
    → IsCalendar c
    → c.anchor_date ≤ start
    → (e : ℕ) × (search_day c (c.every_n_weeks * 7 + 8) start ≡ ok e) × IsFirst c start e
search_weeks c start v le =
    let q = (start - c.anchor_date) / 7 in
    let k = next_multiple c.every_n_weeks q in
    let wd = v.weekday in
    let bounds = next_multiple-bounds c.every_n_weeks q v.weeks in
    search_day-IsFirst c (c.every_n_weeks * 7 + 8) start (in_week c (c.anchor_date + k * 7)) v.weeks
      (omega arith) (omega arith)
      (in_week-IsOccurrence c k v.weekday (mul-mod_left (q / c.every_n_weeks + 1) c.every_n_weeks))

-- The time of day of a configuration, on a day.
abbrev pub at_time : WeeklyConfig → ℕ → ℕ
at_time c d = d * day_length + (c.hour * 60 + c.minute) * 60000000

and_combine-ok :
    (c : WeeklyConfig) (d : ℕ) → IsCalendar c → and_combine c (ok d) ≡ ok (some (at_time c d))
unfolding combine
and_combine-ok c d v = let h = v.hour in let m = v.minute in ground arith

-- On a calendar's configuration whose anchor is not after the first day searched, the search never
-- fails: the next run is at the configured time on the first day, from the day of `now` or from the
-- day after the last run, that is the configured weekday in an n-th week since the anchor.
pub next_weekly-IsFirst :
    (c : WeeklyConfig) (now : ℕ) (last : Option ℕ)
    → IsCalendar c
    → c.anchor_date ≤ search_start now last
    → (d : ℕ) × (compute_next_run (weekly c) now last ≡ ok (some (at_time c d)))
      × IsFirst c (search_start now last) d
unfolding compute_next_run next_weekly
next_weekly-IsFirst c now last v le = go (search_weeks c (search_start now last) v le)
  where
    go :
        ((e : ℕ) × (search_day c (c.every_n_weeks * 7 + 8) (search_start now last) ≡ ok e)
          × IsFirst c (search_start now last) e)
        → (d : ℕ) × (compute_next_run (weekly c) now last ≡ ok (some (at_time c d)))
          × IsFirst c (search_start now last) d
    go (e, q, f) = (e, rw (q) (and_combine-ok c e v), f)

-- When the anchor lies beyond the days that are searched, the weekly schedule has no next run and the
-- computation raises, and so does the test whether an active schedule with that configuration is due.
pub next_weekly-far_anchor :
    (c : WeeklyConfig) (s : Schedule) (now : ℕ) (last : Option ℕ)
    → 0 < c.every_n_weeks
    → search_start now last + (c.every_n_weeks * 7 + 8) ≤ c.anchor_date
    → s.config ≡ weekly c
    → s.active ≡ true
    → (compute_next_run (weekly c) now last ≡ runtime_error) × (is_due s now last ≡ runtime_error)
unfolding compute_next_run next_weekly is_due
next_weekly-far_anchor c s now last pos far e a = (nothing, rw (e, a, nothing_found) refl)
  where
    nothing_found : search_day c (c.every_n_weeks * 7 + 8) (search_start now last) ≡ runtime_error
    nothing_found =
        search_day-none c (c.every_n_weeks * 7 + 8) (search_start now last) pos
          (λ d. λ le. λ lt. λ o. let h = o.since in omega arith)

    nothing : compute_next_run (weekly c) now last ≡ runtime_error
    nothing = rw nothing_found refl
