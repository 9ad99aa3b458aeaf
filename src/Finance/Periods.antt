-- ===== src/Finance/Periods.antt =====
-- finance/nlp.py. What the regular expressions find, `str.lower` and `date.weekday` are parameters;
-- the beginning of the calendar is left out.
pub mod Bounds
use Prim.Native.Char.{code}
use kanna_pa.Prelude.{
  ℕ, zero, suc, ◌+◌, ◌-◌, ◌%◌, String, ◌<>◌, Bool, true, false, ◌&&◌, ◌||◌, not, Option, none, some,
  List, [], ◌∷◌, any_of, ◌==◌, ltb, ◌=ₛ◌, if◌then◌else◌,
}
use kanna_pa.Planner.RuleBased.{strip_text}
use kanna_pa.Finance.Money.{Money}
use kanna_pa.Finance.Money.Parse.{Texts, Parsed, money, invalid_amount, escaped, parse}
use kanna_pa.Finance.Recurring.{Date, days_in_month}
use kanna_pa.Finance.Categories.{text_contains}
use kanna_pa.Finance.Entry.{TransactionDraft}

-- d - timedelta(days=1)
unfoldable pub previous_day : Date → Date
unfolding days_in_month
previous_day d =
    if ltb 1 d.day
    then record d { day = d.day - 1 }
    else if ltb 1 d.month
    then record { year = d.year; month = d.month - 1; day = days_in_month d.year (d.month - 1) }
    else record { year = d.year - 1; month = 12; day = 31 }

unfoldable pub days_before : Date → ℕ → Date
unfolding previous_day
days_before d zero = d
days_before d (suc n) = previous_day (days_before d n)

-- `_WEEKDAYS`
abbrev pub weekdays : List String
weekdays = "monday" ∷ "tuesday" ∷ "wednesday" ∷ "thursday" ∷ "friday" ∷ "saturday" ∷ "sunday" ∷ []

-- `iso_date` finds a text such as 2024-01-31, whatever its numbers; `days_ago` the number of days;
-- `merchant`, `description` and `category` the first groups of their expressions; `before_at` takes
-- off what stands behind " at "; `capitalised` sets the first letter in upper case.
pub record Language : Type 0 where
  pub lower : String → String
  pub weekday : Date → ℕ
  pub iso_date : String → Option String
  pub days_ago : String → Option ℕ
  pub merchant : String → Option String
  pub description : String → Option String
  pub category : String → Option String
  pub before_at : String → String
  pub capitalised : String → String

-- A date as it was written, or one that was counted from today.
pub data Day : Type 0 where
  written : String → Day
  counted : Date → Day

-- d.replace(day=1)
abbrev pub first_of_month : Date → Date
first_of_month d = record d { day = 1 }

module _ (l : Language) (today : Date) where
  -- (today.weekday() - i) % 7
  abbrev pub days_since : ℕ → ℕ
  days_since i = (l.weekday today + 7 - i) % 7

  -- The loop over the weekdays, from number `i` on.
  unfoldable pub find_weekday : ℕ → List String → String → Date
  unfolding text_contains days_before
  find_weekday i [] lower = today
  find_weekday i (name ∷ names) lower =
      let rest = find_weekday (i + 1) names lower in
      if text_contains ("last " <> name) lower
      then days_before today (if days_since i == 0 then 7 else days_since i)
      else if text_contains name lower
      then days_before today (days_since i)
      else rest

  abbrev relative_day : String → Date
  relative_day lower =
      if text_contains "yesterday" lower
      then days_before today 1
      else if text_contains "today" lower
      then today
      else elim (l.days_ago lower) [
        | some n ↦ days_before today n
        | none ↦ find_weekday 0 weekdays lower
      ]

  -- `_extract_date`
  unfoldable pub extract_date : String → Day
  unfolding text_contains days_before find_weekday
  extract_date text = elim (l.iso_date text) [
    | some raw ↦ written raw
    | none ↦ counted (relative_day (l.lower text))
  ]

  -- `_period_bounds`
  unfoldable pub bounds_of : String → Date × Date
  unfolding text_contains days_before previous_day
  bounds_of lower =
      if text_contains "this week" lower
      then (days_before today (l.weekday today), today)
      else if text_contains "last month" lower
      then (
        first_of_month (previous_day (first_of_month today)),
        previous_day (first_of_month today),
      )
      else if text_contains "month" lower && not (text_contains "last" lower)
      then (first_of_month today, today)
      else if text_contains "this year" lower
      then (record today { month = 1; day = 1 }, today)
      else if text_contains "today" lower
      then (today, today)
      else if text_contains "yesterday" lower
      then (previous_day today, previous_day today)
      else (first_of_month today, today)

  unfoldable pub period_bounds : String → Date × Date
  unfolding bounds_of
  period_bounds text = bounds_of (l.lower text)

-- text.rstrip(chars), for the characters of `marks`
abbrev is_mark : List ℕ → ℕ → Bool
is_mark marks n = any_of (λ m. m == n) marks

unfoldable pub rstrip : List ℕ → String → String
rstrip marks String.[] = String.[]
rstrip marks (String.◌∷◌ c s) =
    let rest = rstrip marks s in
    if is_mark marks (code c) && rest =ₛ "" then String.[] else String.◌∷◌ c rest

abbrev pub full_stop_comma : List ℕ
full_stop_comma = b'.' ∷ b',' ∷ []

abbrev pub cleaned : List ℕ → Option String → Option String
cleaned marks none = none
cleaned marks (some t) = some (rstrip marks (strip_text t))

abbrev described : Language → Option String → Option String
described l none = none
described l (some t) =
    let text = strip_text (l.before_at t) in some (if text =ₛ "" then text else l.capitalised text)

-- description or merchant
abbrev either_text : Option String → Option String → Option String
either_text none other = other
either_text (some t) other = if t =ₛ "" then other else some t

-- The draft of a sentence, with the date as it was found.
pub data Drafted : Type 0 where
  drafted : (occurred_at : Day) → (Date → TransactionDraft) → Drafted
  no_amount invalid_operation : Drafted

module _ (l : Language) (t : Texts) where
  abbrev draft_with : Money → Option String → Option String → Date → TransactionDraft
  draft_with m merchant description day = record {
    amount_minor = m.amount_minor;
    currency = m.currency;
    occurred_at = day;
    description = description;
    merchant = merchant;
    category_hint = either_text description merchant;
  }

  abbrev of_amount : String → Date → Parsed → Drafted
  of_amount text today invalid_amount = no_amount
  of_amount text today escaped = invalid_operation
  of_amount text today (money m) = drafted (extract_date l today text) (
      draft_with m (cleaned full_stop_comma (l.merchant text))
        (described l (cleaned full_stop_comma (l.description text))))

  unfoldable pub parse_transaction : String → String → Date → Drafted
  unfolding parse extract_date rstrip strip_text
  parse_transaction text default_currency today =
      of_amount text today (parse t text default_currency)

-- Words that stand for no category.
abbrev pub no_category : List String
no_category = "this" ∷ "that" ∷ "it" ∷ "everything" ∷ "all" ∷ []

pub record FinanceQuery : Type 0 where
  pub kind : String
  pub start_date : Date
  pub end_date : Date
  pub category_hint : Option String

abbrev kept_hint : Language → Option String → Option String
kept_hint l none = none
kept_hint l (some t) = if any_of (λ w. w =ₛ l.lower t) no_category then none else some t

abbrev kind_of : Option String → String
kind_of none = "period_summary"
kind_of (some t) = if t =ₛ "" then "period_summary" else "category_total"

unfoldable pub parse_query : Language → String → Date → FinanceQuery
unfolding period_bounds rstrip strip_text
parse_query l text today =
    let (first, last) = period_bounds l today text in
    let hint = kept_hint l (cleaned (b'?' ∷ b'.' ∷ b',' ∷ b'!' ∷ []) (l.category text)) in
    record { kind = kind_of hint; start_date = first; end_date = last; category_hint = hint }
