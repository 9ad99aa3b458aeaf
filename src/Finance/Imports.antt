-- ===== src/Finance/Imports.antt =====
-- finance/imports: what the three ways of import share, and csv_import.py. The rows of a file are
-- those of `csv.DictReader`: the text in a column, if there is one. The raw row that an error carries
-- is left out.
pub mod Statement
pub mod Receipt
pub mod Again
pub mod Tests
use kanna_pa.Prelude.{
  ℕ, suc, ◌+◌, String, ◌<>◌, Bool, true, false, Option, none, some, List, [], ◌∷◌, ◌++◌, ◌=ₛ◌,
  if◌then◌else◌,
}
use kanna_pa.Planner.RuleBased.{strip_text}
use kanna_pa.Finance.Money.{
  Money, Result, ok, currency_mismatch, invalid_operation, Decimal, from_decimal,
}
use kanna_pa.Finance.Money.Parse.{Texts}
use kanna_pa.Finance.Recurring.{Date}
use kanna_pa.Finance.Dates.{normalize_date}
use kanna_pa.Finance.Models.{Category, Transaction}
use kanna_pa.Finance.Categories.{Catalog, get_or_create}
use kanna_pa.Finance.Books.{Books, Digest, content_hash, exists_with_hash, create_transaction}

-- What the imports use of the language: texts of numbers, dates and hashes.
pub record Library : Type 0 where
  pub texts : Texts
  pub strptime : String → String → Option Date
  pub lower : String → String
  pub digest : Digest

pub record ImportError : Type 0 where
  pub row_number : ℕ
  pub error : String

pub record ImportResult : Type 0 where
  pub created : ℕ
  pub skipped_duplicates : ℕ
  pub errors : List ImportError
  pub created_transactions : List Transaction

abbrev pub no_result : ImportResult
no_result = record { created = 0; skipped_duplicates = 0; errors = []; created_transactions = [] }

abbrev pub with_error : ℕ → String → ImportResult → ImportResult
with_error n text r = record r { errors = r.errors ++ record { row_number = n; error = text } ∷ [] }

abbrev pub with_duplicate : ImportResult → ImportResult
with_duplicate r = record r { skipped_duplicates = r.skipped_duplicates + 1 }

abbrev pub with_created : Transaction → ImportResult → ImportResult
with_created tx r = record r {
  created = r.created + 1;
  created_transactions = r.created_transactions ++ tx ∷ [];
}

-- The end of each import: the row is skipped if a row of the same hash is there, or created.
unfoldable pub store : Digest → Transaction → ImportResult × Books → ImportResult × Books
unfolding exists_with_hash content_hash
store g tx (r, b) =
    if exists_with_hash g
      (content_hash g tx.amount_minor tx.currency tx.occurred_at tx.merchant tx.description)
      b.transactions
    then (with_duplicate r, b)
    else (with_created tx r, create_transaction tx b)

-- `column_map`, with its defaults.
pub record ColumnMap : Type 0 where
  pub date : String
  pub amount : String
  pub description : String
  pub merchant : String
  pub category : String

abbrev pub default_column_map : ColumnMap
default_column_map = record {
  date = "date";
  amount = "amount";
  description = "description";
  merchant = "merchant";
  category = "category";
}

abbrev pub CsvRow : Type 0
CsvRow = String → Option String

-- (row.get(column) or "").strip(), and that or None
abbrev pub cell : CsvRow → String → String
cell row column = elim (row column) [ none ↦ "" | some text ↦ strip_text text ]

abbrev pub given : String → Option String
given text = if text =ₛ "" then none else some text

-- A row that can be stored, with the name of its category.
pub data Reading : Type 0 where
  bad : String → Reading
  good : Transaction → Option String → Reading

module _ (lib : Library) (columns : ColumnMap) (currency source : String) where
  abbrev with_money : CsvRow → Date → String → Result Money → Reading
  with_money row day text (ok m) =
      good
        (record {
          amount_minor = m.amount_minor;
          currency = m.currency;
          occurred_at = day;
          category_id = none;
          merchant = given (cell row columns.merchant);
          description = given (cell row columns.description);
          source = source;
          notes = none;
        })
        (given (cell row columns.category))
  with_money row day text currency_mismatch = bad ("unparseable amount: " <> text)
  with_money row day text invalid_operation = bad ("unparseable amount: " <> text)

  abbrev with_amount : CsvRow → Date → String → Option Decimal → Reading
  with_amount row day text none = bad ("unparseable amount: " <> text)
  with_amount row day text (some d) =
      with_money row day text (from_decimal lib.texts.upper d currency)

  abbrev with_date : CsvRow → String → String → Option Date → Reading
  with_date row date_text text none = bad ("unrecognized date format: " <> date_text)
  with_date row date_text text (some day) = with_amount row day text (lib.texts.decimal text)

  -- The part of a row's work that does not look at the tables.
  unfoldable pub read_row : CsvRow → Reading
  unfolding normalize_date strip_text
  read_row row =
      let date_text = cell row columns.date in
      let amount_text = cell row columns.amount in
      if date_text =ₛ ""
      then bad "missing date"
      else if amount_text =ₛ ""
      then bad "missing amount"
      else with_date row date_text amount_text (normalize_date lib.strptime date_text)

  -- category_id, with the category made if there is none of the name
  abbrev pub categorised : Option String → Transaction → Books → Transaction × Books
  categorised none tx b = (tx, b)
  categorised (some name) tx b =
      let (row, catalog) = get_or_create name b.catalog in
      (record tx { category_id = some row.id }, record b { catalog = catalog })

  abbrev pub store_reading : ℕ → Reading → ImportResult × Books → ImportResult × Books
  store_reading n (bad text) (r, b) = (with_error n text r, b)
  store_reading n (good tx name) (r, b) =
      let (row, b') = categorised name tx b in store lib.digest row (r, b')

  -- The loop, from the row number `n` on.
  unfoldable pub import_rows : ℕ → List CsvRow → ImportResult × Books → ImportResult × Books
  unfolding read_row store get_or_create
  import_rows n [] s = s
  import_rows n (row ∷ rows) s = import_rows (n + 1) rows (store_reading n (read_row row) s)

  -- `import_csv`; the header is row 1
  unfoldable pub import_csv : List CsvRow → Books → ImportResult × Books
  unfolding import_rows
  import_csv rows b = import_rows 2 rows (no_result, b)
