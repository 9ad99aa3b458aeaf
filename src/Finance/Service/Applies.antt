-- ===== src/Finance/Service/Applies.antt =====
-- What `apply_due_recurring` of finance/service.py leaves of each row of the table.
use mathlib.Core.List.{Memᴰ, Permᴰ}
use mathlib.Core.List.Memᴰ
use kanna_pa.Prelude.{
  ◌≡◌, refl, sym, ◌∙◌, subst, true, false, List, [], ◌∷◌, ◌++◌, map, ◌==◌, if◌then◌else◌, arith,
  All, Bool-cases, inl, inr,
}
use kanna_pa.Finance.Recurring.{Date}
use kanna_pa.Finance.Models.{Transaction, RecurringExpense}
use kanna_pa.Finance.Service.{Ledger, due, materialize, applied, apply_due_recurring}
use kanna_pa.Finance.Service.Owed.{is_owed, owed, IsAscending, due-IsAscending, due-owed}
use kanna_pa.Finance.Service.DueRows.{IsRegular, advance, apply_rows-applied}
use kanna_pa.Finance.Service.Through.{
  moved, Only, through, map_at, advance-through, through-owed, through-left,
}
use kanna_pa.Finance.Service.Kept.{due-All, All-intro, All-elim, due-mem}

-- The id is the table's primary key.
abbrev pub DistinctIds : List RecurringExpense → Type 0
DistinctIds [] = Unit
DistinctIds (r ∷ rows) =
    All (λ (q : RecurringExpense). (q.id == r.id) ≡ false) rows × DistinctIds rows

-- An owed row moves on by one period, any other stays.
abbrev pub moved_on : Date → RecurringExpense → RecurringExpense
moved_on as_of q = if is_owed as_of q then moved q else q

-- A key names one row.
only_row :
    (rows : List RecurringExpense)
    → DistinctIds rows
    → (q r : RecurringExpense) → Memᴰ q rows
    → Memᴰ r rows
    → (q.id == r.id) ≡ true
    → q ≡ r
only_row [] d q r m n e = absurd (Memᴰ.not-nil m)
only_row (s ∷ rows) (apart, d) q r m n e = elim (Memᴰ.cases_cons m) [
  | inl q_here ↦ elim (Memᴰ.cases_cons n) [
    | inl r_here ↦ q_here ∙ sym r_here
    | inr r_there ↦
        let differ = All-elim _ rows apart r r_there in
        let e' : (s.id == r.id) ≡ true =
          subst (λ (x : RecurringExpense). (x.id == r.id) ≡ true) q_here e in
        absurd (ground (arith, differ, e'))
  ]
  | inr q_there ↦ elim (Memᴰ.cases_cons n) [
    | inl r_here ↦
        let differ = All-elim _ rows apart q q_there in
        let e' : (q.id == s.id) ≡ true =
          subst (λ (x : RecurringExpense). (q.id == x.id) ≡ true) r_here e in
        absurd (ground (arith, differ, e'))
    | inr r_there ↦ only_row rows d q r q_there r_there e
  ]
]

advance-due :
    (as_of : Date) (rows : List RecurringExpense)
    → DistinctIds rows
    → advance (due as_of rows) rows ≡ map (moved_on as_of) rows
advance-due as_of rows d =
    advance-through (due as_of rows) rows
    ∙ map_at (through (due as_of rows)) (moved_on as_of) rows each
  where
    each : (q : RecurringExpense) → Memᴰ q rows → through (due as_of rows) q ≡ moved_on as_of q
    each q m =
        let only : Only q (due as_of rows) =
          due-All _ as_of rows (All-intro _ rows (λ r n h e. only_row rows d q r m n e)) in
        let now =
          due-All (λ (r : RecurringExpense). is_owed as_of r ≡ true) as_of rows
            (All-intro _ rows (λ r n h. h)) in
        elim (Bool-cases (is_owed as_of q)) [
          | inl e ↦ rw e (through-owed q (due as_of rows) only (due-mem as_of q rows m e))
          | inr e ↦ rw e (through-left as_of q (due as_of rows) only now e)
        ]

-- What is written for the owed expenses.
pub record Applies (as_of : Date) (before after : Ledger) (created : List Transaction)
    : Type 0 where
  pub rows : List RecurringExpense
  pub exact : Permᴰ rows (owed as_of before.recurring)
  pub ascending : IsAscending rows
  pub answered : created ≡ map materialize rows
  pub added : after.transactions ≡ before.transactions ++ map materialize rows
  pub advanced : after.recurring ≡ map (moved_on as_of) before.recurring

-- With distinct ids, and the owed rows (active, their date come) at calendar dates and of known
-- frequencies, `apply_due_recurring` succeeds. It adds to the transactions one of each owed row,
-- each once and in ascending order of their dates, answers these, moves each owed row of the table
-- on to the next date of its frequency, once, and leaves the other rows as they were.
pub apply_due_recurring-Applies :
    (as_of : Date) (l : Ledger)
    → DistinctIds l.recurring
    → All (λ (r : RecurringExpense). is_owed as_of r ≡ true → IsRegular r) l.recurring
    → (created : List Transaction) × (after : Ledger) × (apply_due_recurring as_of l
        ≡ applied created after)
      × Applies as_of l after created
unfolding apply_due_recurring
apply_due_recurring-Applies as_of l d regular =
    let rows = due as_of l.recurring in
    (
      map materialize rows,
      record {
        transactions = l.transactions ++ map materialize rows;
        recurring = advance rows l.recurring;
      },
      apply_rows-applied rows [] l (due-All IsRegular as_of l.recurring regular),
      record {
        rows = rows;
        exact = due-owed as_of l.recurring;
        ascending = due-IsAscending as_of l.recurring;
        answered = refl;
        added = refl;
        advanced = advance-due as_of l.recurring d;
      },
    )
