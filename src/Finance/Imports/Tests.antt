-- ===== src/Finance/Imports/Tests.antt =====
-- Categories, imports, budgets and periods at concrete values.
use kanna_pa.Prelude.{◌≡◌, refl, true, false, none, some, List, [], ◌∷◌, arith, ◌=ₛ◌, if◌then◌else◌}
use kanna_pa.Prelude.Int.{pos}
use kanna_pa.Planner.RuleBased.{strip_text}
use kanna_pa.Finance.Money.{exponent_for, quantized, from_decimal}
use kanna_pa.Finance.Money.Parse.{Texts, money, parse}
use kanna_pa.Finance.Recurring.{Date, days_in_month}
use kanna_pa.Finance.Recurring.Calendar.{IsDate}
use kanna_pa.Finance.Models.{Budget}
use kanna_pa.Finance.Categories.{
  Catalog, get_or_create, find_category_for_keyword, ensure_default_categories,
}
use kanna_pa.Finance.Categories.Named.{Chosen, find_category_for_keyword-Chosen}
use kanna_pa.Finance.Dates.{normalize_date}
use kanna_pa.Finance.Books.{Books, Sql}
use kanna_pa.Finance.Imports.{Library, default_column_map, CsvRow, import_csv}
use kanna_pa.Finance.Imports.Again.{Accounts, import_csv-Accounts, IsRepeat, import_csv-IsRepeat}
use kanna_pa.Finance.Periods.{Language, period_bounds}
use kanna_pa.Finance.Periods.Bounds.{IsPeriod, period_bounds-IsPeriod}

abbrev leap_day : Date
leap_day = record { year = 2024; month = 2; day = 29 }

abbrev no_catalog : Catalog
no_catalog = record { categories = []; rules = []; next_id = 0 }

abbrev seeded : Catalog
seeded = ensure_default_categories (λ s. s) no_catalog

find_category_for_keyword-Chosen_example :
    Chosen "pizza and coffee" seeded (find_category_for_keyword (λ s. s) "pizza and coffee" seeded)
find_category_for_keyword-Chosen_example =
    find_category_for_keyword-Chosen (λ s. s) "pizza and coffee" seeded

abbrev food_only : Catalog
food_only = record {
  categories = record { id = 0; name = "Food"; parent_category = none } ∷ [];
  rules = [];
  next_id = 1;
}

case_is_folded : (get_or_create "FOOD" food_only).1 ≡ food_only
unfolding get_or_create
case_is_folded = refl

abbrev plain_texts : Texts
plain_texts = record {
  upper = λ s. s;
  leading_code = λ t. none;
  find_amount = λ t. some t;
  decimal = λ t.
      if t =ₛ "12.50"
      then some (record { is_negative = false; coefficient = 1250; places = 2 })
      else none;
}

abbrev library : Library
library = record {
  texts = plain_texts;
  strptime = λ t f. if f =ₛ "%d/%m/%Y" then some leap_day else none;
  lower = λ s. s;
  digest = record { show_int = λ n. "n"; iso = λ d. "d"; sha256 = λ t. 0 };
}

dollars :
    parse plain_texts " $12.50" "INR" ≡ money (record { amount_minor = pos 1250; currency = "USD" })
unfolding parse strip_text from_decimal quantized exponent_for
dollars = refl

abbrev coffee : CsvRow
coffee column =
    if column =ₛ "date"
    then some " 29/02/2024 "
    else if column =ₛ "amount"
    then some "12.50"
    else if column =ₛ "category"
    then some "Food"
    else none

abbrev two_rows : List CsvRow
two_rows = coffee ∷ (λ column. none) ∷ []

abbrev empty_books : Books
empty_books = record { catalog = food_only; transactions = []; budgets = [] }

one_created :
    (import_csv library default_column_map "INR" "csv_import" two_rows empty_books).0.created ≡ 1
unfolding import_csv strip_text normalize_date from_decimal quantized exponent_for
one_created = refl

import_csv-Accounts_example :
    Accounts 2 [] (import_csv library default_column_map "INR" "csv_import" two_rows empty_books)
import_csv-Accounts_example =
    import_csv-Accounts library default_column_map "INR" "csv_import" two_rows empty_books

import_csv-IsRepeat_example :
    IsRepeat library default_column_map "INR" "csv_import"
      (import_csv library default_column_map "INR" "csv_import" two_rows empty_books)
      (import_csv library default_column_map "INR" "csv_import" two_rows
        (import_csv library default_column_map "INR" "csv_import" two_rows empty_books).1)
import_csv-IsRepeat_example =
    import_csv-IsRepeat library default_column_map "INR" "csv_import" two_rows empty_books

abbrev plain_sql : Sql
plain_sql = record { like = λ t v. true; higher_id = λ a b. true; upper = λ s. s }

abbrev food_budget : Budget
food_budget = record {
  id = 1;
  category_id = none;
  amount_minor = pos 1000;
  currency = "INR";
  period = "monthly";
  start_date = leap_day;
  end_date = none;
}

abbrev spent_books : Books
spent_books = (import_csv library default_column_map "INR" "csv_import" two_rows empty_books).1

abbrev plain_language : Language
plain_language = record {
  lower = λ s. s;
  weekday = λ d. 3;
  iso_date = λ s. none;
  days_ago = λ s. none;
  merchant = λ s. none;
  description = λ s. none;
  category = λ s. none;
  before_at = λ s. s;
  capitalised = λ s. s;
}

leap_day-IsDate : IsDate leap_day
unfolding days_in_month
leap_day-IsDate = record { month = omega arith; day = omega arith }

period_bounds-IsPeriod_example :
    IsPeriod leap_day (period_bounds plain_language leap_day "how much last month")
period_bounds-IsPeriod_example =
    period_bounds-IsPeriod plain_language leap_day leap_day-IsDate (omega arith)
      "how much last month" (omega arith)

last_month_bounds :
    period_bounds plain_language leap_day "how much last month"
    ≡ (record { year = 2024; month = 1; day = 1 }, record { year = 2024; month = 1; day = 31 })
unfolding period_bounds days_in_month
last_month_bounds = refl
