-- ===== src/Finance/Tests.antt =====
-- Amounts, dates and totals at concrete values.
use kanna_pa.Prelude.{
  String, ◌=ₛ◌, if◌then◌else◌, ℕ, ◌≡◌, ◌⊎◌, ◌≤◌, ◌<◌, refl, arith, true, false, some, none, List,
  [], ◌∷◌,
}
use kanna_pa.Prelude.Int.{pos, negsuc}
use kanna_pa.Finance.Money.{
  Money, ok, invalid_operation, exponent_for, Decimal, precision_limit, signed, quantized,
  from_decimal,
}
use kanna_pa.Finance.Money.Rounding.{IsRounded, from_decimal-IsRounded}
use kanna_pa.Finance.Recurring.{Date, is_frequency, next_occurrence, add_months, days_in_month}
use kanna_pa.Finance.Recurring.Calendar.{IsDate, Follows, next_occurrence-Follows}
use kanna_pa.Finance.Models.{Transaction, RecurringExpense}
use kanna_pa.Finance.Service.{Ledger, due, materialize, applied, value_error, apply_due_recurring}
use kanna_pa.Finance.Service.Owed.{owed}
use kanna_pa.Finance.Service.Applies.{Applies, apply_due_recurring-Applies}

abbrev half_a_cent : Decimal
half_a_cent = record { is_negative = true; coefficient = 12345; places = 3 }

-- An upper case for the currencies of the tests.
abbrev upper : String → String
upper s = if s =ₛ "jpy" then "JPY" else s

half_away :
    from_decimal upper half_a_cent "USD"
    ≡ ok (record { amount_minor = negsuc 1234; currency = "USD" })
unfolding from_decimal quantized exponent_for
half_away = refl

no_minor_units :
    from_decimal upper half_a_cent "jpy"
    ≡ ok (record { amount_minor = negsuc 11; currency = "JPY" })
unfolding from_decimal quantized exponent_for
no_minor_units = refl

from_decimal-IsRounded_example :
    (units : ℕ) × IsRounded half_a_cent (exponent_for upper "jpy") units
    × (((precision_limit ≤ units) × (from_decimal upper half_a_cent "jpy" ≡ invalid_operation))
        ⊎ ((units < precision_limit)
            × (from_decimal upper half_a_cent "jpy"
                ≡ ok (record { amount_minor = signed true units; currency = upper "jpy" }))))
from_decimal-IsRounded_example = from_decimal-IsRounded upper half_a_cent "jpy"

abbrev ten_rupees : Money
ten_rupees = record { amount_minor = pos 1000; currency = "INR" }

abbrev end_of_january : Date
end_of_january = record { year = 2024; month = 1; day = 31 }

rolls_over :
    next_occurrence end_of_january "monthly" ≡ some (record { year = 2024; month = 2; day = 29 })
unfolding next_occurrence is_frequency add_months days_in_month
rolls_over = refl

end_of_january-IsDate : IsDate end_of_january
unfolding days_in_month
end_of_january-IsDate = record { month = omega arith; day = omega arith }

next_occurrence-Follows_example :
    ((is_frequency "monthly" ≡ true)
      × Follows end_of_january (next_occurrence end_of_january "monthly"))
    ⊎ ((is_frequency "monthly" ≡ false) × (next_occurrence end_of_january "monthly" ≡ none))
next_occurrence-Follows_example =
    next_occurrence-Follows end_of_january "monthly" end_of_january-IsDate

abbrev pub in_rupees : Transaction
in_rupees = record {
  amount_minor = pos 5;
  currency = "INR";
  occurred_at = end_of_january;
  category_id = none;
  merchant = none;
  description = none;
  source = "manual";
  notes = none;
}

abbrev in_dollars : Transaction
in_dollars = record in_rupees { amount_minor = pos 7; currency = "USD" }

abbrev spent : List Transaction
spent = in_rupees ∷ in_dollars ∷ []

abbrev rent : RecurringExpense
rent = record {
  id = 1;
  description = "rent";
  amount_minor = pos 900;
  currency = "INR";
  frequency = "monthly";
  next_occurrence = end_of_january;
  category_id = none;
  active = true;
}

abbrev ledger : Ledger
ledger = record { transactions = []; recurring = rent ∷ [] }

monthly_known : is_frequency "monthly" ≡ true
unfolding is_frequency
monthly_known = refl

abbrev paused : RecurringExpense
paused = record rent { id = 2; active = false }

abbrev two_rows : Ledger
two_rows = record { transactions = []; recurring = rent ∷ paused ∷ [] }

rent_only : owed end_of_january (rent ∷ paused ∷ []) ≡ rent ∷ []
unfolding owed
rent_only = refl

apply_due_recurring-Applies_example :
    (created : List Transaction) × (after : Ledger) × (apply_due_recurring end_of_january two_rows
      ≡ applied created after)
    × Applies end_of_january two_rows after created
apply_due_recurring-Applies_example =
    apply_due_recurring-Applies end_of_january two_rows ((refl, tt), (tt, tt))
      (
        λ h. record { date = end_of_january-IsDate; known = monthly_known },
        (λ h. record { date = end_of_january-IsDate; known = monthly_known }, tt),
      )

abbrev quarterly : RecurringExpense
quarterly = record rent { frequency = "quarterly" }

unknown_frequency :
    apply_due_recurring end_of_january (record { transactions = []; recurring = quarterly ∷ [] })
    ≡ value_error (record { transactions = materialize quarterly ∷ []; recurring = quarterly ∷ [] })
unfolding apply_due_recurring due is_frequency next_occurrence
unknown_frequency = refl
