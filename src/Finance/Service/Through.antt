-- ===== src/Finance/Service/Through.antt =====
-- The updates that `apply_due_recurring` of finance/service.py makes, row by row of the table.
use mathlib.Core.List.{Memᴰ}
use mathlib.Core.List.Memᴰ
use kanna_pa.Prelude.{
  ℕ, ◌≡◌, refl, sym, ◌∙◌, ap, subst, true, false, Option, none, some, List, [], ◌∷◌, map, ◌==◌,
  if◌then◌else◌, arith, All, Bool-cases, Option-cases, inl, inr,
}
use kanna_pa.Finance.Recurring.{Date, next_occurrence}
use kanna_pa.Finance.Models.{RecurringExpense}
use kanna_pa.Finance.Service.{update_next_occurrence}
use kanna_pa.Finance.Service.Owed.{is_owed}
use kanna_pa.Finance.Service.DueRows.{advance}

-- A row at a date.
unfoldable pub at_date : Option Date → RecurringExpense → RecurringExpense
at_date none q = q
at_date (some d) q = record q { next_occurrence = d }

-- A row at the next date of its frequency.
abbrev pub moved : RecurringExpense → RecurringExpense
moved q = at_date (next_occurrence q.next_occurrence q.frequency) q

-- What the update of row r does to a row x.
unfoldable pub touch : RecurringExpense → RecurringExpense → RecurringExpense
touch r x = if x.id == r.id then at_date (next_occurrence r.next_occurrence r.frequency) x else x

abbrev pub through : List RecurringExpense → RecurringExpense → RecurringExpense
through [] x = x
through (r ∷ rs) x = through rs (touch r x)

map_update :
    (f : RecurringExpense → RecurringExpense) (id : ℕ) (d : Date) (rows : List RecurringExpense)
    → map f (update_next_occurrence id d rows)
      ≡ map
          (λ (x : RecurringExpense). f (if x.id == id then record x { next_occurrence = d } else x))
          rows
unfolding update_next_occurrence
map_update f id d [] = refl
map_update f id d (x ∷ rows) =
    let ih = map_update f id d rows in
    elim (Bool-cases (x.id == id)) [ inl e ↦ rw (e, map, ih) refl | inr e ↦ rw (e, map, ih) refl ]

map_id : (rows : List RecurringExpense) → rows ≡ map (λ (x : RecurringExpense). x) rows
map_id [] = refl
map_id (x ∷ rows) = ap (λ (l : List RecurringExpense). x ∷ l) (map_id rows)

pub map_at :
    (f g : RecurringExpense → RecurringExpense) (rows : List RecurringExpense)
    → ((x : RecurringExpense) → Memᴰ x rows → f x ≡ g x)
    → map f rows ≡ map g rows
map_at f g [] h = refl
map_at f g (x ∷ rows) h =
    let here = h x (Memᴰ.head refl) in
    let rest = map_at f g rows (λ y m. h y (Memᴰ.tail m)) in rw (map, here, rest) refl

touch-none :
    (r x : RecurringExpense) → next_occurrence r.next_occurrence r.frequency ≡ none → touch r x ≡ x
unfolding touch at_date
touch-none r x e = rw e (elim (Bool-cases (x.id == r.id)) [ inl h ↦ rw h refl | inr h ↦ rw h refl ])

touch-some :
    (r x : RecurringExpense) (d : Date)
    → next_occurrence r.next_occurrence r.frequency ≡ some d
    → touch r x ≡ (if x.id == r.id then record x { next_occurrence = d } else x)
unfolding touch at_date
touch-some r x d e = rw e refl

pub advance-through :
    (rs rows : List RecurringExpense)
    → advance rs rows ≡ map (λ (x : RecurringExpense). through rs x) rows
advance-through [] rows = map_id rows
advance-through (r ∷ rs) rows =
    elim (Option-cases (next_occurrence r.next_occurrence r.frequency)) [
      | inl e ↦
          rw (e, advance)
            (advance-through rs rows
              ∙ map_at _ _ rows (λ x m. ap (through rs) (sym (touch-none r x e))))
      | inr (d, e) ↦
          rw (e, advance)
            (advance-through rs (update_next_occurrence r.id d rows)
              ∙ map_update (through rs) r.id d rows
              ∙ map_at _ _ rows (λ x m. ap (through rs) (sym (touch-some r x d e))))
    ]

at_date_keeps_id : (o : Option Date) (q : RecurringExpense) → (at_date o q).id ≡ q.id
unfolding at_date
at_date_keeps_id none q = refl
at_date_keeps_id (some d) q = refl

at_date_twice : (o : Option Date) (q : RecurringExpense) → at_date o (at_date o q) ≡ at_date o q
unfolding at_date
at_date_twice none q = refl
at_date_twice (some d) q = refl

touch-same :
    (r x : RecurringExpense)
    → (x.id == r.id) ≡ true
    → touch r x ≡ at_date (next_occurrence r.next_occurrence r.frequency) x
unfolding touch
touch-same r x e = rw e refl

touch-other : (r x : RecurringExpense) → (x.id == r.id) ≡ false → touch r x ≡ x
unfolding touch
touch-other r x e = rw e refl

moved_keeps_id : (q : RecurringExpense) → (moved q).id ≡ q.id
moved_keeps_id q = at_date_keeps_id (next_occurrence q.next_occurrence q.frequency) q

same_id : (q : RecurringExpense) → (q.id == q.id) ≡ true
same_id q = ground arith

touch-moved : (q : RecurringExpense) → touch q (moved q) ≡ moved q
touch-moved q =
    touch-same q (moved q) (rw (moved_keeps_id q) (same_id q))
    ∙ at_date_twice (next_occurrence q.next_occurrence q.frequency) q

-- The rows with the id of q are q itself.
abbrev pub Only : RecurringExpense → List RecurringExpense → Type 0
Only q = All (λ (r : RecurringExpense). (q.id == r.id) ≡ true → q ≡ r)

through-moved :
    (q : RecurringExpense) (rs : List RecurringExpense) → Only q rs → through rs (moved q) ≡ moved q
through-moved q [] only = refl
through-moved q (r ∷ rs) (first, only) = elim (Bool-cases (q.id == r.id)) [
  | inl e ↦
      subst (λ (s : RecurringExpense). through rs (touch s (moved q)) ≡ moved q) (first e)
        (rw (touch-moved q) (through-moved q rs only))
  | inr e ↦
      let other : ((moved q).id == r.id) ≡ false = rw (moved_keeps_id q) e in
      rw (touch-other r (moved q) other) (through-moved q rs only)
]

pub through-owed :
    (q : RecurringExpense) (rs : List RecurringExpense)
    → Only q rs
    → Memᴰ q rs
    → through rs q ≡ moved q
through-owed q [] only m = absurd (Memᴰ.not-nil m)
through-owed q (r ∷ rs) (first, only) m = elim (Bool-cases (q.id == r.id)) [
  | inl e ↦
      subst (λ (s : RecurringExpense). through rs (touch s q) ≡ moved q) (first e)
        (rw (touch-same q q (same_id q)) (through-moved q rs only))
  | inr e ↦ elim (Memᴰ.cases_cons m) [
    | inl here ↦
        let apart : (q.id == q.id) ≡ false =
          subst (λ (s : RecurringExpense). (q.id == s.id) ≡ false) (sym here) e in
        absurd (ground (arith, apart))
    | inr there ↦ rw (touch-other r q e) (through-owed q rs only there)
  ]
]

pub through-left :
    (as_of : Date) (q : RecurringExpense) (rs : List RecurringExpense)
    → Only q rs
    → All (λ (r : RecurringExpense). is_owed as_of r ≡ true) rs
    → is_owed as_of q ≡ false
    → through rs q ≡ q
through-left as_of q [] only all left = refl
through-left as_of q (r ∷ rs) (first, only) (now, all) left = elim (Bool-cases (q.id == r.id)) [
  | inl e ↦
      let now_q : is_owed as_of q ≡ true =
        subst (λ (s : RecurringExpense). is_owed as_of s ≡ true) (sym (first e)) now in
      let clash : true ≡ false = sym now_q ∙ left in absurd (cc)
  | inr e ↦ rw (touch-other r q e) (through-left as_of q rs only all left)
]
