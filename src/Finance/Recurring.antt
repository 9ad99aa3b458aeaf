-- ===== src/Finance/Recurring.antt =====
-- finance/recurring.py. A date is a year, a month and a day of the proleptic Gregorian calendar; its
-- end, the year 9999, is left out.
pub mod Calendar
use kanna_pa.Prelude.{
  ℕ, zero, suc, ◌+◌, ◌-◌, ◌*◌, ◌/◌, ◌%◌, min, String, Bool, true, false, ◌&&◌, ◌||◌, not, Option,
  none, some, ◌==◌, ltb, ◌=ₛ◌, if◌then◌else◌, List, [], ◌∷◌, any_of,
}

pub record Date : Type 0 where
  pub year : ℕ
  pub month : ℕ
  pub day : ℕ

unfoldable pub is_leap : ℕ → Bool
is_leap y = y % 4 == 0 && (not (y % 100 == 0) || y % 400 == 0)

-- calendar.monthrange(year, month)[1]
unfoldable pub days_in_month : ℕ → ℕ → ℕ
unfolding is_leap
days_in_month y m =
    if m == 2
    then (if is_leap y then 29 else 28)
    else if m == 4 || m == 6 || m == 9 || m == 11
    then 30
    else 31

unfoldable pub add_months : Date → ℕ → Date
add_months d months =
    let month_index = d.month - 1 + months in
    let year = d.year + month_index / 12 in
    let month = month_index % 12 + 1 in
    record { year = year; month = month; day = min d.day (days_in_month year month) }

-- d + timedelta(days=1)
unfoldable pub next_day : Date → Date
next_day d =
    if ltb d.day (days_in_month d.year d.month)
    then record d { day = d.day + 1 }
    else if ltb d.month 12
    then record { year = d.year; month = d.month + 1; day = 1 }
    else record { year = d.year + 1; month = 1; day = 1 }

unfoldable pub add_days : Date → ℕ → Date
add_days d zero = d
add_days d (suc n) = next_day (add_days d n)

-- frequency in _FREQUENCIES
unfoldable pub is_frequency : String → Bool
is_frequency f = any_of (λ g. g =ₛ f) ("daily" ∷ "weekly" ∷ "biweekly" ∷ "monthly" ∷ "yearly" ∷ [])

abbrev pub of_frequency : Date → String → Option Date
of_frequency d frequency =
    if "daily" =ₛ frequency
    then some (add_days d 1)
    else if "weekly" =ₛ frequency
    then some (add_days d 7)
    else if "biweekly" =ₛ frequency
    then some (add_days d 14)
    else if "monthly" =ₛ frequency
    then some (add_months d 1)
    else if "yearly" =ₛ frequency
    then some (add_months d 12)
    else none

-- None stands for the ValueError of an unknown frequency.
unfoldable pub next_occurrence : Date → String → Option Date
next_occurrence d frequency = if is_frequency frequency then of_frequency d frequency else none

-- The order of dates, as that of their texts: a year counts 16 months of 32 days.
abbrev pub order : Date → ℕ
order d = (d.year * 16 + d.month) * 32 + d.day
