-- ===== src/Finance/Entry.antt =====
-- The entry of transactions, budgets and recurring expenses in finance/service.py. The message texts
-- are left out.
use kanna_pa.Prelude.{String, ℕ, true, Option, none, some, List, [], ◌∷◌, ◌++◌}
use kanna_pa.Prelude.Int.{ℤ}
use kanna_pa.Finance.Recurring.{Date}
use kanna_pa.Finance.Models.{Category, Transaction, Budget, RecurringExpense}
use kanna_pa.Finance.Categories.{Catalog, get_or_create, find_category_for_keyword}
use kanna_pa.Finance.Books.{Books, create_transaction, create_budget}
use kanna_pa.Finance.Imports.Statement.{present}

-- `TransactionDraft` of finance/nlp.py
pub record TransactionDraft : Type 0 where
  pub amount_minor : ℤ
  pub currency : String
  pub occurred_at : Date
  pub description : Option String
  pub merchant : Option String
  pub category_hint : Option String

-- `AddTransactionResult`
pub record Added : Type 0 where
  pub transaction : Transaction
  pub category_name : Option String

abbrev pub name_of : Option Category → Option String
name_of none = none
name_of (some row) = some row.name

abbrev pub id_of : Option Category → Option ℕ
id_of none = none
id_of (some row) = some row.id

-- A category that is named is made if need be; a hint only finds one.
unfoldable pub choose_category :
    (String → String) → Option String → Option String → Catalog → Option Category × Catalog
unfolding get_or_create find_category_for_keyword
choose_category lower (some name) hint c =
    let (row, made) = get_or_create name c in (some row, made)
choose_category lower none (some hint) c = (find_category_for_keyword lower hint c, c)
choose_category lower none none c = (none, c)

-- `FinanceService._add_transaction_from_draft`
unfoldable pub add_from_draft :
    (String → String)
    → TransactionDraft
    → String
    → Option String
    → Option String
    → Books
    → Added × Books
unfolding choose_category
add_from_draft lower draft source explicit notes b =
    let (category, catalog) =
      choose_category lower (present explicit) (present draft.category_hint) b.catalog in
    let tx : Transaction = record {
      amount_minor = draft.amount_minor;
      currency = draft.currency;
      occurred_at = draft.occurred_at;
      category_id = id_of category;
      merchant = draft.merchant;
      description = draft.description;
      source = source;
      notes = notes;
    } in
    (
      record { transaction = tx; category_name = name_of category },
      create_transaction tx (record b { catalog = catalog }),
    )

-- `FinanceService.add_transaction`
abbrev pub draft_of :
    ℤ → String → Date → Option String → Option String → Option String → TransactionDraft
draft_of amount currency day description merchant category_name = record {
  amount_minor = amount;
  currency = currency;
  occurred_at = day;
  description = description;
  merchant = merchant;
  category_hint = category_name;
}

unfoldable pub add_transaction :
    (String → String)
    → ℤ
    → String
    → Date
    → Option String
    → Option String
    → Option String
    → Option String
    → String
    → Books
    → Added × Books
unfolding add_from_draft
add_transaction lower amount currency day description merchant category_name notes source b =
    add_from_draft lower (draft_of amount currency day description merchant category_name) source
      category_name notes b

abbrev named_category : Option String → Catalog → Option ℕ × Catalog
named_category none c = (none, c)
named_category (some name) c = let (row, made) = get_or_create name c in (some row.id, made)

-- `FinanceService.set_budget`; `id` stands for the random one
unfoldable pub set_budget :
    ℕ → Option String → ℤ → String → String → Date → Option Date → Books → Budget × Books
unfolding get_or_create
set_budget id category_name amount currency period start_date end_date b =
    let (category, catalog) = named_category (present category_name) b.catalog in
    let row : Budget = record {
      id = id;
      category_id = category;
      amount_minor = amount;
      currency = currency;
      period = period;
      start_date = start_date;
      end_date = end_date;
    } in
    (row, create_budget row (record b { catalog = catalog }))

-- `FinanceService.add_recurring`, with the row that `RecurringRepository.create` stores
unfoldable pub add_recurring :
    ℕ
    → String
    → ℤ
    → String
    → String
    → Date
    → Option String
    → Catalog
    → List RecurringExpense
    → RecurringExpense × Catalog × List RecurringExpense
unfolding get_or_create
add_recurring id description amount currency frequency next_occurrence category_name c rows =
    let (category, catalog) = named_category (present category_name) c in
    let row : RecurringExpense = record {
      id = id;
      description = description;
      amount_minor = amount;
      currency = currency;
      frequency = frequency;
      next_occurrence = next_occurrence;
      category_id = category;
      active = true;
    } in
    (row, catalog, rows ++ row ∷ [])
