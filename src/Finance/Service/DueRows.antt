-- ===== src/Finance/Service/DueRows.antt =====
-- What `apply_due_recurring` of finance/service.py writes.
use mathlib.Core.List.{append_assoc, append-nil}
use kanna_pa.Prelude.{
  ◌≡◌, refl, ◌∙◌, subst, arith, true, false, none, some, List, [], ◌∷◌, ◌++◌, map, All,
  Option-cases, inl, inr, ◌⊎◌,
}
use kanna_pa.Finance.Recurring.{Date, is_frequency, next_occurrence}
use kanna_pa.Finance.Recurring.Calendar.{IsDate, Follows, next_occurrence-Follows}
use kanna_pa.Finance.Models.{Transaction, RecurringExpense}
use kanna_pa.Finance.Service.{Ledger, materialize, update_next_occurrence, applied, apply_rows}

-- The rows with each due row's id set to its next occurrence.
abbrev pub advance : List RecurringExpense → List RecurringExpense → List RecurringExpense
advance [] rows = rows
advance (r ∷ rs) rows = elim (next_occurrence r.next_occurrence r.frequency) [
  | none ↦ advance rs rows
  | some d ↦ advance rs (update_next_occurrence r.id d rows)
]

-- A row whose date is one of the calendar and whose frequency is known.
pub record IsRegular (r : RecurringExpense) : Type 0 where
  pub date : IsDate r.next_occurrence
  pub known : is_frequency r.frequency ≡ true

advances :
    (r : RecurringExpense)
    → IsRegular r
    → (d : Date) × (next_occurrence r.next_occurrence r.frequency ≡ some d)
advances r g =
    go (next_occurrence-Follows r.next_occurrence r.frequency g.date)
      (Option-cases (next_occurrence r.next_occurrence r.frequency))
  where
    go :
        ((is_frequency r.frequency ≡ true)
            × Follows r.next_occurrence (next_occurrence r.next_occurrence r.frequency))
          ⊎ ((is_frequency r.frequency ≡ false)
              × (next_occurrence r.next_occurrence r.frequency ≡ none))
        → (next_occurrence r.next_occurrence r.frequency ≡ none)
          ⊎ ((d : Date) × (next_occurrence r.next_occurrence r.frequency ≡ some d))
        → (d : Date) × (next_occurrence r.next_occurrence r.frequency ≡ some d)
    go (inr (unknown, e)) o = let k = g.known in absurd (ground (arith, k, unknown))
    go (inl (k, f)) (inr found) = found
    go (inl (k, f)) (inl e) = absurd (subst (Follows r.next_occurrence) e f)

pub apply_rows-applied :
    (rows : List RecurringExpense) (created : List Transaction) (l : Ledger)
    → All IsRegular rows
    → apply_rows rows created l
      ≡ applied (created ++ map materialize rows) (record {
        transactions = l.transactions ++ map materialize rows;
        recurring = advance rows l.recurring;
      })
unfolding apply_rows
apply_rows-applied [] created l h = rw (append-nil created, append-nil l.transactions) refl
apply_rows-applied (r ∷ rows) created l h =
    let (d, e) = advances r h.0 in
    rw (e, apply_rows, advance)
      (apply_rows-applied rows (created ++ materialize r ∷ [])
          (record {
            transactions = l.transactions ++ materialize r ∷ [];
            recurring = update_next_occurrence r.id d l.recurring;
          })
          h.1
        ∙ rw
            (
              append_assoc created (materialize r ∷ []) (map materialize rows),
              append_assoc l.transactions (materialize r ∷ []) (map materialize rows),
            )
            refl)
