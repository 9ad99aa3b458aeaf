-- ===== src/Finance/Periods/Bounds.antt =====
-- Where the dates of sentences lie: finance/nlp.py.
use kanna_pa.Prelude.{ℕ, zero, suc, ◌+◌, ◌-◌, ◌≤◌, ◌<◌, String, ◌&&◌, not, arith, if_ind}
use kanna_pa.Finance.Recurring.{Date, days_in_month, order}
use kanna_pa.Finance.Recurring.Calendar.{IsDate, days_in_month-bounds}
use kanna_pa.Finance.Categories.{text_contains}
use kanna_pa.Finance.Periods.{
  Language, previous_day, days_before, first_of_month, bounds_of, period_bounds,
}

-- A date of the calendar that is not after `last`, and at most `n` years before it.
pub record UpTo (n : ℕ) (last d : Date) : Type 0 where
  pub real : IsDate d
  pub not_later : order d ≤ order last
  pub near : last.year ≤ d.year + n

module _ (last : Date) (old : 8 ≤ last.year) where
  previous_day-UpTo :
      (n : ℕ) (d : Date) → n < 8 → UpTo n last d → UpTo (n + 1) last (previous_day d)
  unfolding previous_day days_in_month
  previous_day-UpTo n d small v =
      let m = v.real.month in
      let k = v.real.day in
      let le = v.not_later in
      let near = v.near in
      let before = days_in_month-bounds d.year (d.month - 1) in
      record {
        real = record { month = ground arith; day = ground arith };
        not_later = ground arith;
        near = ground arith;
      }

  days_before-UpTo : (n : ℕ) → n < 8 → IsDate last → UpTo n last (days_before last n)
  unfolding days_before
  days_before-UpTo zero small v = record { real = v; not_later = omega arith; near = omega arith }
  days_before-UpTo (suc n) small v =
      let w =
        previous_day-UpTo n (days_before last n) (omega arith)
          (days_before-UpTo n (omega arith) v) in
      record { real = w.real; not_later = w.not_later; near = omega (arith, w.near) }

-- A period of dates of the calendar, in order, that ends no later than today.
pub record IsPeriod (today : Date) (p : Date × Date) : Type 0 where
  pub first : IsDate p.0
  pub last : IsDate p.1
  pub ordered : order p.0 ≤ order p.1
  pub past : order p.1 ≤ order today

module _ (l : Language) (today : Date) (v : IsDate today) (old : 8 ≤ today.year) where
  to_today : (d : Date) → IsDate d → order d ≤ order today → IsPeriod today (d, today)
  to_today d w le = record { first = w; last = v; ordered = le; past = omega arith }

  first-IsDate : (d : Date) → IsDate d → IsDate (first_of_month d)
  first-IsDate d w =
      let b = days_in_month-bounds d.year d.month in
      record { month = w.month; day = (omega arith, omega (arith, b)) }

  first-le : (d : Date) → IsDate d → order (first_of_month d) ≤ order d
  first-le d w = omega (arith, w.day)

  this_month : IsPeriod today (first_of_month today, today)
  this_month = to_today (first_of_month today) (first-IsDate today v) (first-le today v)

  before_month : UpTo 1 (first_of_month today) (previous_day (first_of_month today))
  before_month =
      previous_day-UpTo (first_of_month today) old 0 (first_of_month today) (omega arith)
        (record { real = first-IsDate today v; not_later = omega arith; near = omega arith })

  last_month :
      IsPeriod today
        (first_of_month (previous_day (first_of_month today)), previous_day (first_of_month today))
  last_month =
      let d = previous_day (first_of_month today) in
      let u = before_month in
      record {
        first = first-IsDate d u.real;
        last = u.real;
        ordered = first-le d u.real;
        past = omega (arith, u.not_later, first-le today v);
      }

  this_year : IsPeriod today (record today { month = 1; day = 1 }, today)
  this_year =
      let b = days_in_month-bounds today.year 1 in
      to_today (record today { month = 1; day = 1 })
        (record { month = omega arith; day = (omega arith, omega (arith, b)) })
        (omega (arith, v.month, v.day))

  yesterday : IsPeriod today (previous_day today, previous_day today)
  yesterday =
      let u =
        previous_day-UpTo today old 0 today (omega arith)
          (record { real = v; not_later = omega arith; near = omega arith }) in
      record { first = u.real; last = u.real; ordered = omega arith; past = u.not_later }

  -- Whatever a question says, the period that it is answered for consists of dates of the calendar,
  -- begins no later than it ends, and ends no later than today.
  pub period_bounds-IsPeriod :
      (text : String) → l.weekday today < 7 → IsPeriod today (period_bounds l today text)
  unfolding period_bounds bounds_of
  period_bounds-IsPeriod text week =
      let lower = l.lower text in
      let u = days_before-UpTo today old (l.weekday today) (omega arith) v in
      if_ind (IsPeriod today) (text_contains "this week" lower)
        (λ _. to_today (days_before today (l.weekday today)) u.real u.not_later)
        (λ _.
          if_ind (IsPeriod today) (text_contains "last month" lower) (λ _. last_month)
            (λ _.
              if_ind (IsPeriod today)
                (text_contains "month" lower && not (text_contains "last" lower)) (λ _. this_month)
                (λ _.
                  if_ind (IsPeriod today) (text_contains "this year" lower) (λ _. this_year)
                    (λ _.
                      if_ind (IsPeriod today) (text_contains "today" lower)
                        (λ _. to_today today v (omega arith))
                        (λ _.
                          if_ind (IsPeriod today) (text_contains "yesterday" lower) (λ _. yesterday)
                            (λ _. this_month))))))
