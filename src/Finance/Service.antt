-- ===== src/Finance/Service.antt =====
-- `apply_due_recurring` of finance/service.py over the tables of finance/repository.py. A statement
-- commits by itself, so what was written before an exception stays.
pub mod DueRows
pub mod Owed
pub mod Through
pub mod Kept
pub mod Applies
use kanna_pa.Prelude.{
  ℕ, String, Bool, ◌&&◌, Option, none, some, List, [], ◌∷◌, ◌++◌, ◌==◌, leb, if◌then◌else◌,
}
use kanna_pa.Finance.Recurring.{Date, order, next_occurrence}
use kanna_pa.Finance.Models.{Transaction, RecurringExpense}

pub record Ledger : Type 0 where
  pub transactions : List Transaction
  pub recurring : List RecurringExpense

-- WHERE active = 1 AND next_occurrence <= ?
abbrev pub is_due : Date → RecurringExpense → Bool
is_due as_of r = r.active && leb (order r.next_occurrence) (order as_of)

-- ORDER BY next_occurrence ASC; equal dates keep the order of the table
unfoldable pub insert_row : RecurringExpense → List RecurringExpense → List RecurringExpense
insert_row r [] = r ∷ []
insert_row r (q ∷ rows) =
    let rest = insert_row r rows in
    if leb (order r.next_occurrence) (order q.next_occurrence) then r ∷ q ∷ rows else q ∷ rest

unfoldable pub due : Date → List RecurringExpense → List RecurringExpense
unfolding insert_row
due as_of [] = []
due as_of (r ∷ rows) =
    let rest = due as_of rows in if is_due as_of r then insert_row r rest else rest

abbrev pub materialize : RecurringExpense → Transaction
materialize r = record {
  amount_minor = r.amount_minor;
  currency = r.currency;
  occurred_at = r.next_occurrence;
  category_id = r.category_id;
  merchant = none;
  description = some r.description;
  source = "recurring";
  notes = none;
}

-- UPDATE finance_recurring SET next_occurrence = ? WHERE id = ?
unfoldable pub update_next_occurrence : ℕ → Date → List RecurringExpense → List RecurringExpense
update_next_occurrence id d [] = []
update_next_occurrence id d (r ∷ rows) =
    let rest = update_next_occurrence id d rows in
    if r.id == id then record r { next_occurrence = d } ∷ rest else r ∷ rest

-- Either way with the tables as they are left.
pub data Applied : Type 0 where
  applied : (created : List Transaction) → Ledger → Applied
  value_error : Ledger → Applied

abbrev pub with_transaction : Transaction → Ledger → Ledger
with_transaction tx l = record l { transactions = l.transactions ++ tx ∷ [] }

-- The loop over the due rows.
unfoldable pub apply_rows : List RecurringExpense → List Transaction → Ledger → Applied
unfolding next_occurrence update_next_occurrence
apply_rows [] created l = applied created l
apply_rows (r ∷ rows) created l = elim (next_occurrence r.next_occurrence r.frequency) [
  | none ↦ value_error (with_transaction (materialize r) l)
  | some d ↦ apply_rows rows (created ++ materialize r ∷ []) (record {
    transactions = l.transactions ++ materialize r ∷ [];
    recurring = update_next_occurrence r.id d l.recurring;
  })
]

unfoldable pub apply_due_recurring : Date → Ledger → Applied
unfolding apply_rows due
apply_due_recurring as_of l = apply_rows (due as_of l.recurring) [] l
