-- ===== src/Finance/Service/Owed.antt =====
-- Which rows `RecurringRepository.due` of finance/repository.py selects, and in which order.
use mathlib.Core.List.{Permᴰ}
use mathlib.Core.List.Permᴰ
use kanna_pa.Prelude.{
  ℕ, ◌≤◌, ◌≡◌, refl, Bool, ◌&&◌, List, [], ◌∷◌, arith, leb, if◌then◌else◌, All, Bool-cases, inl,
  inr,
}
use kanna_pa.Finance.Recurring.{Date, order}
use kanna_pa.Finance.Models.{RecurringExpense}
use kanna_pa.Finance.Service.{is_due, insert_row, due}

-- An active expense whose date has come.
abbrev pub is_owed : Date → RecurringExpense → Bool
is_owed as_of r = leb (order r.next_occurrence) (order as_of) && r.active

unfoldable pub owed : Date → List RecurringExpense → List RecurringExpense
owed as_of [] = []
owed as_of (r ∷ rows) = let rest = owed as_of rows in if is_owed as_of r then r ∷ rest else rest

-- No row's date is before that of an earlier one.
abbrev pub IsAscending : List RecurringExpense → Type 0
IsAscending [] = Unit
IsAscending (r ∷ rows) =
    All (λ (q : RecurringExpense). order r.next_occurrence ≤ order q.next_occurrence) rows
    × IsAscending rows

pub is_due_owed : (as_of : Date) (r : RecurringExpense) → is_due as_of r ≡ is_owed as_of r
is_due_owed as_of r = ground arith

insert_row-Perm :
    (r : RecurringExpense) (rows : List RecurringExpense) → Permᴰ (insert_row r rows) (r ∷ rows)
unfolding insert_row
insert_row-Perm r [] = Permᴰ.refl (r ∷ [])
insert_row-Perm r (q ∷ rows) =
    elim (Bool-cases (leb (order r.next_occurrence) (order q.next_occurrence))) [
      | inl first ↦ rw first (Permᴰ.refl (r ∷ q ∷ rows))
      | inr later ↦
          rw later (Permᴰ.trans (Permᴰ.cons refl (insert_row-Perm r rows)) (Permᴰ.swap refl refl))
    ]

pub insert_row-All :
    (P : RecurringExpense → Type 0) (r : RecurringExpense) (rows : List RecurringExpense)
    → P r
    → All P rows
    → All P (insert_row r rows)
unfolding insert_row
insert_row-All P r [] h all = (h, tt)
insert_row-All P r (q ∷ rows) h (first, rest) =
    elim (Bool-cases (leb (order r.next_occurrence) (order q.next_occurrence))) [
      | inl here ↦ rw here (h, (first, rest))
      | inr later ↦ rw later (first, insert_row-All P r rows h rest)
    ]

weaker :
    (m n : ℕ) (rows : List RecurringExpense)
    → m ≤ n
    → All (λ (q : RecurringExpense). n ≤ order q.next_occurrence) rows
    → All (λ (q : RecurringExpense). m ≤ order q.next_occurrence) rows
weaker m n [] le all = tt
weaker m n (q ∷ rows) le (first, rest) = (omega arith, weaker m n rows le rest)

insert_row-IsAscending :
    (r : RecurringExpense) (rows : List RecurringExpense)
    → IsAscending rows
    → IsAscending (insert_row r rows)
unfolding insert_row
insert_row-IsAscending r [] h = (tt, tt)
insert_row-IsAscending r (q ∷ rows) (least, rest) =
    elim (Bool-cases (leb (order r.next_occurrence) (order q.next_occurrence))) [
      | inl here ↦
          let le : order r.next_occurrence ≤ order q.next_occurrence = ground (arith, here) in
          rw here ((le, weaker _ _ rows le least), (least, rest))
      | inr later ↦
          let le : order q.next_occurrence ≤ order r.next_occurrence = ground (arith, later) in
          rw later (insert_row-All _ r rows le least, insert_row-IsAscending r rows rest)
    ]

pub due-IsAscending : (as_of : Date) (rows : List RecurringExpense) → IsAscending (due as_of rows)
unfolding due
due-IsAscending as_of [] = tt
due-IsAscending as_of (r ∷ rows) = elim (Bool-cases (is_due as_of r)) [
  | inl e ↦ rw e (insert_row-IsAscending r (due as_of rows) (due-IsAscending as_of rows))
  | inr e ↦ rw e (due-IsAscending as_of rows)
]

-- Each expense that is owed is selected once, and no other.
pub due-owed :
    (as_of : Date) (rows : List RecurringExpense) → Permᴰ (due as_of rows) (owed as_of rows)
unfolding due owed
due-owed as_of [] = Permᴰ.nil
due-owed as_of (r ∷ rows) = rw (is_due_owed as_of r) (elim (Bool-cases (is_owed as_of r)) [
  | inl e ↦
      rw e
        (Permᴰ.trans (insert_row-Perm r (due as_of rows)) (Permᴰ.cons refl (due-owed as_of rows)))
  | inr e ↦ rw e (due-owed as_of rows)
])
