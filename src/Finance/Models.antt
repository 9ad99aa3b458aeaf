-- ===== src/Finance/Models.antt =====
-- finance/models.py. The times of the rows, and the two fields of a transaction that nothing in the
-- program sets, are left out; the content hash of a row is computed where it is looked for.
use kanna_pa.Prelude.{ℕ, String, Bool, Option}
use kanna_pa.Prelude.Int.{ℤ}
use kanna_pa.Finance.Recurring.{Date}

pub record Category : Type 0 where
  pub id : ℕ
  pub name : String
  pub parent_category : Option ℕ

pub record Transaction : Type 0 where
  pub amount_minor : ℤ
  pub currency : String
  pub occurred_at : Date
  pub category_id : Option ℕ
  pub merchant : Option String
  pub description : Option String
  pub source : String
  pub notes : Option String

-- An expense whose `next_occurrence` is the text of a date.
pub record RecurringExpense : Type 0 where
  pub id : ℕ
  pub description : String
  pub amount_minor : ℤ
  pub currency : String
  pub frequency : String
  pub next_occurrence : Date
  pub category_id : Option ℕ
  pub active : Bool

pub record Budget : Type 0 where
  pub id : ℕ
  pub category_id : Option ℕ
  pub amount_minor : ℤ
  pub currency : String
  pub period : String
  pub start_date : Date
  pub end_date : Option Date
