-- ===== src/Finance/Reports/Budgets.antt =====
-- What the status of a budget counts: finance/analytics.py.
use kanna_pa.Prelude.{
  ℕ, zero, suc, ◌≤◌, ◌≡◌, refl, ap, ◌∙◌, Bool, true, false, ◌&&◌, Option, none, some, leb, ◌==◌,
  ◌=ₛ◌, if◌then◌else◌, List, [], ◌∷◌, length, sorted, insert_by, arith, Bool-cases, inl, inr,
}
use kanna_pa.Prelude.Int.{ℤ, ◌+ℤ◌, ltb_ℤ, int_laws}
use kanna_pa.Finance.Recurring.{Date, order}
use kanna_pa.Finance.Models.{Transaction, Budget}
use kanna_pa.Finance.Books.{Books, Sql, Query, newer, matching, first_rows, search}
use kanna_pa.Finance.Reports.{total, BudgetStatus}

first_rows_all : (n : ℕ) (txs : List Transaction) → length txs ≤ n → first_rows n txs ≡ txs
unfolding first_rows
first_rows_all zero [] h = refl
first_rows_all zero (tx ∷ txs) h = absurd (omega arith)
first_rows_all (suc n) [] h = refl
first_rows_all (suc n) (tx ∷ txs) h = ap (◌∷◌ tx) (first_rows_all n txs (omega arith))

swap_add : (a b s : ℤ) → b +ℤ (a +ℤ s) ≡ a +ℤ (b +ℤ s)
swap_add a b s = omega int_laws

module _ (le : Transaction → Transaction → Bool) where
  total-insert_by :
      (tx : Transaction) (txs : List Transaction) → total (insert_by le tx txs) ≡ total (tx ∷ txs)
  unfolding insert_by
  total-insert_by tx [] = refl
  total-insert_by tx (q ∷ txs) = elim (Bool-cases (le tx q)) [
    | inl first ↦ rw first refl
    | inr later ↦ rw later (
        ap (◌+ℤ◌ q.amount_minor) (total-insert_by tx txs)
        ∙ swap_add tx.amount_minor q.amount_minor (total txs))
  ]

  length-insert_by :
      (tx : Transaction) (txs : List Transaction) → length (insert_by le tx txs) ≡ length (tx ∷ txs)
  unfolding insert_by
  length-insert_by tx [] = refl
  length-insert_by tx (q ∷ txs) = ground (arith, length-insert_by tx txs)

  total-sorted : (txs : List Transaction) → total (sorted le txs) ≡ total txs
  unfolding sorted
  total-sorted [] = refl
  total-sorted (tx ∷ txs) =
      total-insert_by tx (sorted le txs) ∙ ap (◌+ℤ◌ tx.amount_minor) (total-sorted txs)

  length-sorted : (txs : List Transaction) → length (sorted le txs) ≡ length txs
  unfolding sorted
  length-sorted [] = refl
  length-sorted (tx ∷ txs) = length-insert_by tx (sorted le txs) ∙ ap suc (length-sorted txs)

-- Up to its limit a search gives every row that fits, so its sum is that of all of them, whatever the
-- order of equal dates.
pub total-search :
    (sql : Sql) (q : Query) (txs : List Transaction)
    → length (matching sql q txs) ≤ q.limit
    → total (search sql q txs) ≡ total (matching sql q txs)
unfolding search
total-search sql q txs h =
    ap total (
      first_rows_all q.limit (sorted (newer sql) (matching sql q txs))
        (omega (arith, length-sorted (newer sql) (matching sql q txs))))
    ∙ total-sorted (newer sql) (matching sql q txs)

-- A transaction falls under a budget: it has the budget's category, if it has one, and its currency,
-- and its day is neither before the start nor after the end of the budget, nor after the day of the
-- report.
abbrev in_category : Option ℕ → Option ℕ → Bool
in_category none c = true
in_category (some id) none = false
in_category (some id) (some c) = c == id

abbrev not_after : Option Date → Date → Bool
not_after none day = true
not_after (some last) day = leb (order day) (order last)

abbrev falls_under : Sql → Budget → Date → Transaction → Bool
falls_under sql g as_of tx =
    in_category g.category_id tx.category_id
    && tx.currency =ₛ sql.upper g.currency
    && leb (order g.start_date) (order tx.occurred_at)
    && leb (order tx.occurred_at) (order as_of)
    && not_after g.end_date tx.occurred_at

unfoldable pub under : Sql → Budget → Date → List Transaction → List Transaction
under sql g as_of [] = []
under sql g as_of (tx ∷ txs) =
    let rest = under sql g as_of txs in if falls_under sql g as_of tx then tx ∷ rest else rest

-- What a status says of the transactions that fall under the budget.
pub record IsExact (sql : Sql) (as_of : Date) (b : Books) (g : Budget) (s : BudgetStatus)
    : Type 0 where
  pub spent : s.spent ≡ total (under sql g as_of b.transactions)
  pub remaining : s.remaining +ℤ s.spent ≡ g.amount_minor
  pub exceeded : s.exceeded ≡ ltb_ℤ g.amount_minor (total (under sql g as_of b.transactions))
