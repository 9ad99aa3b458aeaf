-- ===== src/Finance/Imports/Statement.antt =====
-- finance/imports/statement.py. What the provider reads off a statement is an argument, none where it
-- raises.
use kanna_pa.Prelude.{
  ℕ, ◌+◌, String, ◌<>◌, Bool, false, not, Option, none, some, List, [], ◌∷◌, ◌=ₛ◌, if◌then◌else◌,
}
use kanna_pa.Finance.Money.Parse.{Parsed, money, invalid_amount, escaped, parse}
use kanna_pa.Finance.Recurring.{Date}
use kanna_pa.Finance.Dates.{normalize_date}
use kanna_pa.Finance.Models.{Transaction}
use kanna_pa.Finance.Categories.{find_category_for_keyword}
use kanna_pa.Finance.Books.{Books}
use kanna_pa.Finance.Imports.{Library, ImportResult, no_result, with_error, store}

-- `StatementTransaction` and `StatementExtraction` of vision/document/base.py
pub record StatementTransaction : Type 0 where
  pub date_text : Option String
  pub description : Option String
  pub amount_text : Option String
  pub direction : Option String

pub record StatementExtraction : Type 0 where
  pub account_currency : Option String
  pub transactions : List StatementTransaction
  pub notes : String

-- A value that is None or an empty text counts as absent.
abbrev pub present : Option String → Option String
present none = none
present (some t) = if t =ₛ "" then none else some t

abbrev is_text : String → Option String → Bool
is_text t none = false
is_text t (some s) = s =ₛ t

-- What a row comes to before the tables are looked at; `raises` for an InvalidOperation that
-- `Money.parse` lets through.
pub data Reading : Type 0 where
  bad : String → Reading
  raises : Reading
  good : Transaction → Reading

-- The import came to its end, or was left by the exception with the tables as they are.
pub data Imported : Type 0 where
  done : ImportResult → Books → Imported
  raised : Books → Imported

module _ (lib : Library) (currency source : String) (today : Date) where
  -- The date of a row, and a note where it is not the row's own.
  abbrev pub dated : Option String → Date × Option String
  dated none = (today, some "no date found for this row; used today's date")
  dated (some text) = elim (normalize_date lib.strptime text) [
    | some day ↦ (day, none)
    | none ↦ (today, some ("could not parse statement date " <> text <> "; used today's date"))
  ]

  abbrev with_money : StatementTransaction → String → Parsed → Reading
  with_money row text (money m) =
      let (day, notes) = dated (present row.date_text) in
      good (record {
        amount_minor = m.amount_minor;
        currency = m.currency;
        occurred_at = day;
        category_id = none;
        merchant = none;
        description = row.description;
        source = source;
        notes = notes;
      })
  with_money row text invalid_amount = bad ("could not parse amount " <> text)
  with_money row text escaped = raises

  unfoldable pub read_statement_row : StatementTransaction → Reading
  unfolding parse normalize_date
  read_statement_row row =
      if is_text "credit" row.direction
      then bad "credit transaction — Kanna currently tracks spending only; not imported"
      else if not (is_text "debit" row.direction)
      then bad
          "transaction direction unclear — not imported, to avoid misrepresenting a credit as spend"
      else elim (present row.amount_text) [
        | none ↦ bad "missing amount"
        | some text ↦ with_money row text (parse lib.texts text currency)
      ]

  -- The category of the description, as it is known now.
  abbrev pub by_keyword : Option String → Transaction → Books → Transaction
  by_keyword none tx b = tx
  by_keyword (some text) tx b = elim (find_category_for_keyword lib.lower text b.catalog) [
    | none ↦ tx
    | some row ↦ record tx { category_id = some row.id }
  ]

  abbrev pub stored : Transaction → ImportResult × Books → ImportResult × Books
  stored tx (r, b) = store lib.digest (by_keyword (present tx.description) tx b) (r, b)

  unfoldable pub import_each : ℕ → List StatementTransaction → ImportResult × Books → Imported
  unfolding read_statement_row store find_category_for_keyword
  import_each n [] (r, b) = done r b
  import_each n (row ∷ rows) (r, b) = elim (read_statement_row row) [
    | bad text ↦ import_each (n + 1) rows (with_error n text r, b)
    | raises ↦ raised b
    | good tx ↦ import_each (n + 1) rows (stored tx (r, b))
  ]

abbrev pub or_text : Option String → String → String
or_text none d = d
or_text (some t) d = t

abbrev detail : String → String
detail notes = if notes =ₛ "" then "" else " (" <> notes <> ")"

-- `import_statement`, with the date of today resolved
unfoldable pub import_statement :
    Library → String → String → Date → Option StatementExtraction → Books → Imported
unfolding import_each
import_statement lib default_currency source today none b =
    done (with_error 0 "vision provider failed" no_result) b
import_statement lib default_currency source today (some x) b = elim (x.transactions) [
  | [] ↦
      done (with_error 0 ("no transactions found on the statement" <> detail x.notes) no_result) b
  | row ∷ rows ↦
      import_each lib (or_text (present x.account_currency) default_currency) source today 1
        (row ∷ rows) (no_result, b)
]
