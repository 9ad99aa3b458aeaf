-- ===== src/Finance/Reports.antt =====
-- finance/analytics.py and the queries of finance/service.py: summaries, budgets and alerts. A percentage
-- is not a float but the fraction of two amounts.
pub mod Budgets
use kanna_pa.Prelude.{
  ℕ, suc, ◌*◌, String, Bool, true, false, ◌&&◌, ◌||◌, not, Option, none, some, List, [], ◌∷◌, ◌++◌,
  length, map, sorted, leb, ◌==◌, ◌=ₛ◌, if◌then◌else◌,
}
use kanna_pa.Prelude.Int.{ℤ, pos, ◌+ℤ◌, ◌-ℤ◌, ◌*ℤ◌, ltb_ℤ, leb_ℤ, eqb_ℤ}
use kanna_pa.Finance.Money.{Money}
use kanna_pa.Finance.Recurring.{Date, order}
use kanna_pa.Finance.Models.{Category, Transaction, Budget}
use kanna_pa.Finance.Analytics.{group_by_currency}
use kanna_pa.Finance.Categories.{Catalog, find_category, find_category_for_keyword}
use kanna_pa.Finance.Books.{Books, Query, Sql, search}
use kanna_pa.Finance.Imports.Statement.{present}

pub record PeriodSummary : Type 0 where
  pub start_date : Date
  pub end_date : Date
  pub totals_by_currency : List Money
  pub by_category : List (String × List Money)
  pub transaction_count : ℕ

-- The rows that every report asks for.
abbrev pub all_rows : Date → Date → Option ℕ → Option String → Query
all_rows first last category currency = record {
  start_date = some first;
  end_date = some last;
  category_id = category;
  currency = currency;
  merchant_contains = none;
  text_contains = none;
  limit = 100000;
}

-- category_names.get(tx.category_id, "Uncategorized")
unfoldable pub category_name : List Category → Option ℕ → String
unfolding find_category
category_name rows none = "Uncategorized"
category_name rows (some id) = elim (find_category id rows) [
  | none ↦ "Uncategorized"
  | some row ↦ row.name
]

-- by_category_tx[name].append(tx)
unfoldable pub append_to :
    String → Transaction → List (String × List Transaction) → List (String × List Transaction)
append_to name tx [] = (name, tx ∷ []) ∷ []
append_to name tx ((n, txs) ∷ groups) =
    let rest = append_to name tx groups in
    if n =ₛ name then (n, txs ++ tx ∷ []) ∷ groups else (n, txs) ∷ rest

unfoldable pub by_category_from :
    List Category
    → List (String × List Transaction)
    → List Transaction
    → List (String × List Transaction)
unfolding append_to category_name
by_category_from rows groups [] = groups
by_category_from rows groups (tx ∷ txs) =
    by_category_from rows (append_to (category_name rows tx.category_id) tx groups) txs

unfoldable pub grouped : List (String × List Transaction) → List (String × List Money)
unfolding group_by_currency
grouped [] = []
grouped ((name, txs) ∷ rest) = (name, group_by_currency txs) ∷ grouped rest

module _ (sql : Sql) where
  unfoldable pub period_summary : Date → Date → Option String → Books → PeriodSummary
  unfolding search group_by_currency by_category_from grouped
  period_summary first last currency b =
      let txs = search sql (all_rows first last none currency) b.transactions in
      record {
        start_date = first;
        end_date = last;
        totals_by_currency = group_by_currency txs;
        by_category = grouped (by_category_from b.catalog.categories [] txs);
        transaction_count = length txs;
      }

  unfoldable pub category_total : ℕ → Date → Date → Option String → Books → List Money
  unfolding search group_by_currency
  category_total category first last currency b =
      group_by_currency (search sql (all_rows first last (some category) currency) b.transactions)

  -- The summary of `_run_query` where the hint names a category.
  abbrev category_summary : Category → Date → Date → Option String → Books → PeriodSummary
  category_summary row first last currency b =
      let totals = category_total row.id first last currency b in
      record {
        start_date = first;
        end_date = last;
        totals_by_currency = totals;
        by_category = (if row.name =ₛ "" then "Uncategorized" else row.name, totals) ∷ [];
        transaction_count =
            length (search sql (all_rows first last (some row.id) currency) b.transactions);
      }

  abbrev summary_for : Option Category → Date → Date → Option String → Books → PeriodSummary
  summary_for none first last currency b = period_summary first last currency b
  summary_for (some row) first last currency b = category_summary row first last currency b

  -- `FinanceService._run_query`: a query is its bounds, its hint and its currency.
  unfoldable pub run_query :
      (String → String) → Date → Date → Option String → Option String → Books → PeriodSummary
  unfolding period_summary category_total search find_category_for_keyword
  run_query lower first last hint currency b = elim (present hint) [
    | none ↦ period_summary first last currency b
    | some text ↦ summary_for (find_category_for_keyword lower text b.catalog) first last currency b
  ]

-- The percentage is that of `spent` in the amount of the budget.
pub record BudgetStatus : Type 0 where
  pub budget : Budget
  pub spent : ℤ
  pub remaining : ℤ
  pub exceeded : Bool

abbrev pub total : List Transaction → ℤ
total [] = pos 0
total (tx ∷ txs) = tx.amount_minor +ℤ total txs

abbrev earlier : Date → Date → Date
earlier a b = if leb (order a) (order b) then a else b

-- min(budget.end_date or as_of_date, as_of_date)
abbrev pub last_day : Option Date → Date → Date
last_day none as_of = earlier as_of as_of
last_day (some end_date) as_of = earlier end_date as_of

abbrev pub budget_rows : Budget → Date → Query
budget_rows g as_of =
    all_rows g.start_date (last_day g.end_date as_of) g.category_id (some g.currency)

-- status.percent_used >= threshold, by whole percents; it is 0.0 where the amount is 0
abbrev pub reaches : ℤ → ℤ → ℕ → Bool
reaches spent amount threshold =
    if eqb_ℤ amount (pos 0)
    then leb threshold 0
    else if ltb_ℤ (pos 0) amount
    then leb_ℤ (pos threshold *ℤ amount) (pos 100 *ℤ spent)
    else leb_ℤ (pos 100 *ℤ spent) (pos threshold *ℤ amount)

-- ORDER BY start_date DESC
abbrev later_start : Budget → Budget → Bool
later_start g h = leb (order h.start_date) (order g.start_date)

-- `BudgetRepository.list` without a category
unfoldable pub list_budgets : Books → List Budget
unfolding sorted
list_budgets b = sorted later_start b.budgets

module _ (sql : Sql) (as_of : Date) (b : Books) where
  unfoldable pub budget_status : Budget → BudgetStatus
  unfolding search
  budget_status g =
      let spent = total (search sql (budget_rows g as_of) b.transactions) in
      record {
        budget = g;
        spent = spent;
        remaining = g.amount_minor -ℤ spent;
        exceeded = ltb_ℤ g.amount_minor spent;
      }

  abbrev pub is_alert : ℕ → BudgetStatus → Bool
  is_alert threshold s = s.exceeded || reaches s.spent s.budget.amount_minor threshold

  unfoldable pub alerts_of : ℕ → List Budget → List BudgetStatus
  unfolding budget_status
  alerts_of threshold [] = []
  alerts_of threshold (g ∷ budgets) =
      let rest = alerts_of threshold budgets in
      if is_alert threshold (budget_status g) then budget_status g ∷ rest else rest

  unfoldable pub spending_alerts : ℕ → List BudgetStatus
  unfolding alerts_of list_budgets
  spending_alerts threshold = alerts_of threshold (list_budgets b)

  -- `FinanceService.budget_report`
  unfoldable pub budget_report : List BudgetStatus
  unfolding budget_status list_budgets
  budget_report = map budget_status (list_budgets b)
