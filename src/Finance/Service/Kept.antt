-- ===== src/Finance/Service/Kept.antt =====
-- Which rows `RecurringRepository.due` of finance/repository.py keeps of the table.
use mathlib.Core.List.{Memᴰ}
use mathlib.Core.List.Memᴰ
use kanna_pa.Prelude.{
  ◌≡◌, refl, sym, ◌∙◌, subst, true, List, [], ◌∷◌, leb, All, Bool-cases, inl, inr,
}
use kanna_pa.Finance.Recurring.{Date, order}
use kanna_pa.Finance.Models.{RecurringExpense}
use kanna_pa.Finance.Service.{is_due, insert_row, due}
use kanna_pa.Finance.Service.Owed.{is_owed, is_due_owed, insert_row-All}

pub due-All :
    (P : RecurringExpense → Type 0) (as_of : Date) (rows : List RecurringExpense)
    → All (λ (r : RecurringExpense). is_owed as_of r ≡ true → P r) rows
    → All P (due as_of rows)
unfolding due
due-All P as_of [] all = tt
due-All P as_of (r ∷ rows) (first, all) = elim (Bool-cases (is_owed as_of r)) [
  | inl e ↦
      rw (is_due_owed as_of r ∙ e)
        (insert_row-All P r (due as_of rows) (first e) (due-All P as_of rows all))
  | inr e ↦ rw (is_due_owed as_of r ∙ e) (due-All P as_of rows all)
]

pub All-intro :
    (P : RecurringExpense → Type 0) (rows : List RecurringExpense)
    → ((r : RecurringExpense) → Memᴰ r rows → P r)
    → All P rows
All-intro P [] h = tt
All-intro P (r ∷ rows) h = (h r (Memᴰ.head refl), All-intro P rows (λ q m. h q (Memᴰ.tail m)))

pub All-elim :
    (P : RecurringExpense → Type 0) (rows : List RecurringExpense)
    → All P rows
    → (r : RecurringExpense) → Memᴰ r rows
    → P r
All-elim P [] all r m = absurd (Memᴰ.not-nil m)
All-elim P (q ∷ rows) (first, all) r m = elim (Memᴰ.cases_cons m) [
  | inl here ↦ subst P (sym here) first
  | inr there ↦ All-elim P rows all r there
]

insert_row-head : (r : RecurringExpense) (rows : List RecurringExpense) → Memᴰ r (insert_row r rows)
unfolding insert_row
insert_row-head r [] = Memᴰ.head refl
insert_row-head r (q ∷ rows) =
    elim (Bool-cases (leb (order r.next_occurrence) (order q.next_occurrence))) [
      | inl e ↦ rw e (Memᴰ.head refl)
      | inr e ↦ rw e (Memᴰ.tail (insert_row-head r rows))
    ]

insert_row-tail :
    (q r : RecurringExpense) (rows : List RecurringExpense)
    → Memᴰ q rows
    → Memᴰ q (insert_row r rows)
unfolding insert_row
insert_row-tail q r [] m = absurd (Memᴰ.not-nil m)
insert_row-tail q r (s ∷ rows) m =
    elim (Bool-cases (leb (order r.next_occurrence) (order s.next_occurrence))) [
      | inl e ↦ rw e (Memᴰ.tail m)
      | inr e ↦ rw e (elim (Memᴰ.cases_cons m) [
        | inl here ↦ Memᴰ.head here
        | inr there ↦ Memᴰ.tail (insert_row-tail q r rows there)
      ])
    ]

pub due-mem :
    (as_of : Date) (q : RecurringExpense) (rows : List RecurringExpense)
    → Memᴰ q rows
    → is_owed as_of q ≡ true
    → Memᴰ q (due as_of rows)
unfolding due
due-mem as_of q [] m h = absurd (Memᴰ.not-nil m)
due-mem as_of q (r ∷ rows) m h = elim (Memᴰ.cases_cons m) [
  | inl here ↦
      let now : is_due as_of r ≡ true =
        is_due_owed as_of r ∙ subst (λ (s : RecurringExpense). is_owed as_of s ≡ true) here h in
      rw now (Memᴰ.cast here (insert_row-head r (due as_of rows)))
  | inr there ↦
      let in_rest = due-mem as_of q rows there h in
      elim (Bool-cases (is_due as_of r)) [
        | inl e ↦ rw e (insert_row-tail q r (due as_of rows) in_rest)
        | inr e ↦ rw e in_rest
      ]
]
