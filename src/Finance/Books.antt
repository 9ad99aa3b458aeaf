-- ===== src/Finance/Books.antt =====
-- `TransactionRepository` and `BudgetRepository` of finance/repository.py, on the tables of the
-- finance subsystem. The hash of a row is computed from the row, which nothing changes later.
use kanna_pa.Prelude.{
  ℕ, zero, suc, String, ◌<>◌, Bool, true, false, ◌&&◌, ◌||◌, Option, none, some, List, [], ◌∷◌,
  ◌++◌, any_of, sorted, ◌==◌, leb, ltb, ◌=ₛ◌, if◌then◌else◌,
}
use kanna_pa.Prelude.Int.{ℤ}
use kanna_pa.Finance.Recurring.{Date, order}
use kanna_pa.Finance.Models.{Transaction, Budget}
use kanna_pa.Finance.Categories.{Catalog}

pub record Books : Type 0 where
  pub catalog : Catalog
  pub transactions : List Transaction
  pub budgets : List Budget

-- The decimal text of a number, the text of a date, and SHA-256.
pub record Digest : Type 0 where
  pub show_int : ℤ → String
  pub iso : Date → String
  pub sha256 : String → ℕ

-- merchant or ''
abbrev pub or_empty : Option String → String
or_empty none = ""
or_empty (some s) = s

-- The text that is hashed.
unfoldable pub hashed_text : Digest → ℤ → String → Date → Option String → Option String → String
hashed_text g amount currency occurred_at merchant description =
    g.show_int amount
    <> ("|"
        <> (currency
            <> ("|"
                <> (g.iso occurred_at
                    <> ("|" <> (or_empty merchant <> ("|" <> or_empty description)))))))

unfoldable pub content_hash : Digest → ℤ → String → Date → Option String → Option String → ℕ
unfolding hashed_text
content_hash g amount currency occurred_at merchant description =
    g.sha256 (hashed_text g amount currency occurred_at merchant description)

abbrev pub hash_of : Digest → Transaction → ℕ
hash_of g tx = content_hash g tx.amount_minor tx.currency tx.occurred_at tx.merchant tx.description

-- `TransactionRepository.exists_with_hash`
unfoldable pub exists_with_hash : Digest → ℕ → List Transaction → Bool
unfolding content_hash
exists_with_hash g h txs = any_of (λ tx. hash_of g tx == h) txs

-- `TransactionRepository.create`
abbrev pub create_transaction : Transaction → Books → Books
create_transaction tx b = record b { transactions = b.transactions ++ tx ∷ [] }

-- `BudgetRepository.create`
abbrev pub create_budget : Budget → Books → Books
create_budget row b = record b { budgets = b.budgets ++ row ∷ [] }

-- The arguments of `search`; None and an empty text are both none. A currency is in upper case.
pub record Query : Type 0 where
  pub start_date : Option Date
  pub end_date : Option Date
  pub category_id : Option ℕ
  pub currency : Option String
  pub merchant_contains : Option String
  pub text_contains : Option String
  pub limit : ℕ

-- A clause of the query holds if its argument is not given.
abbrev pub clause : {A : Type 0} → Option A → (A → Bool) → Bool
clause none test = true
clause (some a) test = test a

abbrev pub is_category : ℕ → Option ℕ → Bool
is_category id none = false
is_category id (some other) = other == id

-- SQLite's LIKE, the order of the random ids, and str.upper() are parameters.
pub record Sql : Type 0 where
  pub like : String → Option String → Bool
  pub higher_id : Transaction → Transaction → Bool
  pub upper : String → String

abbrev pub until : Option Date → Transaction → Bool
until d tx = clause d (λ last. leb (order tx.occurred_at) (order last))

abbrev pub since : Option Date → Transaction → Bool
since d tx = clause d (λ first. leb (order first) (order tx.occurred_at))

unfoldable pub fits : Sql → Query → Transaction → Bool
fits sql q tx =
    since q.start_date tx
    && until q.end_date tx
    && clause q.category_id (λ id. is_category id tx.category_id)
    && clause q.currency (λ c. tx.currency =ₛ sql.upper c)
    && clause q.merchant_contains (λ t. sql.like t tx.merchant)
    && clause q.text_contains
        (λ t. sql.like t tx.description || sql.like t tx.merchant || sql.like t tx.notes)

-- ORDER BY occurred_at DESC, id DESC
abbrev pub newer : Sql → Transaction → Transaction → Bool
newer sql a b =
    if order a.occurred_at == order b.occurred_at
    then sql.higher_id a b
    else ltb (order b.occurred_at) (order a.occurred_at)

unfoldable pub matching : Sql → Query → List Transaction → List Transaction
unfolding fits
matching sql q [] = []
matching sql q (tx ∷ txs) =
    let rest = matching sql q txs in if fits sql q tx then tx ∷ rest else rest

unfoldable pub first_rows : ℕ → List Transaction → List Transaction
first_rows zero txs = []
first_rows (suc n) [] = []
first_rows (suc n) (tx ∷ txs) = tx ∷ first_rows n txs

-- `TransactionRepository.search`
unfoldable pub search : Sql → Query → List Transaction → List Transaction
unfolding matching sorted first_rows
search sql q txs = first_rows q.limit (sorted (newer sql) (matching sql q txs))
