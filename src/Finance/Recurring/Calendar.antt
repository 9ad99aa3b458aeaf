-- ===== src/Finance/Recurring/Calendar.antt =====
-- Where the dates of recurring expenses lie: finance/recurring.py.
use kanna_pa.Prelude.{
  ℕ, zero, suc, ◌+◌, ◌-◌, ◌/◌, ◌%◌, ◌≤◌, ◌<◌, ◌≡◌, refl, String, true, false, Option, none, some,
  arith, ◌=ₛ◌, if_ind, Bool-cases, inl, inr, ◌⊎◌,
}
use kanna_pa.Finance.Recurring.{
  order, is_frequency, of_frequency, Date, days_in_month, add_months, next_day, add_days,
  next_occurrence,
}

pub record IsDate (d : Date) : Type 0 where
  pub month : (1 ≤ d.month) × (d.month ≤ 12)
  pub day : (1 ≤ d.day) × (d.day ≤ days_in_month d.year d.month)

pub days_in_month-bounds : (y m : ℕ) → (28 ≤ days_in_month y m) × (days_in_month y m ≤ 31)
unfolding days_in_month
days_in_month-bounds y m = ground arith

next_day-IsDate : (d : Date) → IsDate d → IsDate (next_day d) × (order d < order (next_day d))
unfolding next_day
next_day-IsDate d v =
    let bounds = days_in_month-bounds d.year d.month in
    let next = days_in_month-bounds d.year (d.month + 1) in
    let first = days_in_month-bounds (d.year + 1) 1 in
    (record { month = ground arith; day = ground arith }, ground arith)

add_days-IsDate :
    (d : Date) (n : ℕ) → IsDate d → IsDate (add_days d n) × (order d + n ≤ order (add_days d n))
unfolding add_days
add_days-IsDate d zero v = (v, omega arith)
add_days-IsDate d (suc n) v =
    let (w, le) = add_days-IsDate d n v in
    let (x, lt) = next_day-IsDate (add_days d n) w in (x, omega (arith, le, lt))

add_months-IsDate :
    (d : Date) (n : ℕ)
    → IsDate d
    → 0 < n
    → IsDate (add_months d n) × (order d < order (add_months d n))
unfolding add_months
add_months-IsDate d n v pos =
    let month_index = d.month - 1 + n in
    let old = days_in_month-bounds d.year d.month in
    let new = days_in_month-bounds (d.year + month_index / 12) (month_index % 12 + 1) in
    let m = v.month in
    let k = v.day in (record { month = omega arith; day = omega arith }, omega arith)

-- A date of the calendar after the one it is counted from.
abbrev pub Follows : Date → Option Date → Type 0
Follows d none = ⊥
Follows d (some next) = IsDate next × (order d < order next)

add_days-Follows : (d : Date) (n : ℕ) → IsDate d → Follows d (some (add_days d (suc n)))
add_days-Follows d n v = let (w, le) = add_days-IsDate d (suc n) v in (w, omega (arith, le))

of_frequency-Follows :
    (d : Date) (f : String) → IsDate d → is_frequency f ≡ true → Follows d (of_frequency d f)
unfolding is_frequency
of_frequency-Follows d f v known =
    if_ind (Follows d) ("daily" =ₛ f) (λ _. add_days-Follows d 0 v)
      (λ a.
        if_ind (Follows d) ("weekly" =ₛ f) (λ _. add_days-Follows d 6 v)
          (λ b.
            if_ind (Follows d) ("biweekly" =ₛ f) (λ _. add_days-Follows d 13 v)
              (λ c.
                if_ind (Follows d) ("monthly" =ₛ f) (λ _. add_months-IsDate d 1 v (omega arith))
                  (λ e.
                    if_ind (Follows d) ("yearly" =ₛ f) (λ _. add_months-IsDate d 12 v (omega arith))
                      (λ g. absurd (ground (arith, a, b, c, e, g, known)))))))

-- For a date of the calendar, the next occurrence is a date of the calendar after it where the
-- frequency is one of the five, and any other frequency is refused.
pub next_occurrence-Follows :
    (d : Date) (frequency : String)
    → IsDate d
    → ((is_frequency frequency ≡ true) × Follows d (next_occurrence d frequency))
      ⊎ ((is_frequency frequency ≡ false) × (next_occurrence d frequency ≡ none))
unfolding next_occurrence
next_occurrence-Follows d frequency v = elim (Bool-cases (is_frequency frequency)) [
  | inl known ↦ inl (known, rw known (of_frequency-Follows d frequency v known))
  | inr unknown ↦ inr (unknown, rw unknown refl)
]
