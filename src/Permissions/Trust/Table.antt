-- ===== src/Permissions/Trust/Table.antt =====
-- The table of standing approvals: `TrustRuleRepository`.
use kanna_pa.Prelude.{
  ℕ, ◌+◌, ◌≤◌, ◌<◌, String, ◌≡◌, refl, Bool, true, false, not, Option, none, some, List, [], ◌∷◌,
  ◌++◌, All, All-append, length, arith, ◌==◌, if◌then◌else◌,
}
use kanna_pa.Value.{Fields}
use kanna_pa.Permissions.Trust.{TrustRule, TrustTable, add, find_row, get_rule, without, remove}

-- Ids are given in ascending order and never twice: AUTOINCREMENT.
abbrev pub Below : ℕ → TrustRule → Type 0
Below n r = r.id < n

abbrev pub Ascending : List TrustRule → Type 0
Ascending [] = Unit
Ascending (r ∷ rows) = All (λ q. r.id < q.id) rows × Ascending rows

pub record IsWellFormed (t : TrustTable) : Type 0 where
  pub below : All (Below t.next_id) t.rows
  pub ascending : Ascending t.rows

find_row-below : (rows : List TrustRule) (n : ℕ) → All (Below n) rows → find_row rows n ≡ none
unfolding find_row
find_row-below [] n h = refl
find_row-below (r ∷ rows) n h = ground (arith, find_row-below rows n h.1)

find_row-snoc :
    (rows : List TrustRule) (r : TrustRule) (i : ℕ)
    → find_row (rows ++ r ∷ []) i
      ≡ elim (find_row rows i) [ some q ↦ some q | none ↦ if r.id == i then some r else none ]
unfolding find_row
find_row-snoc [] r i = refl
find_row-snoc (q ∷ rows) r i = ground (arith, find_row-snoc rows r i)

-- The rule that was added is found under its id, and every other id finds what it found before.
pub get_rule-add :
    (t : TrustTable) (tool : String) (pattern : Fields) (note : String) (i : ℕ)
    → IsWellFormed t
    → get_rule (add t tool pattern note).1 i
      ≡ (if t.next_id == i then some (add t tool pattern note).0 else get_rule t i)
unfolding get_rule add
get_rule-add t tool pattern note i w = ground (
  arith,
  find_row-snoc t.rows (add t tool pattern note).0 i,
  find_row-below t.rows t.next_id w.below,
)

find_row-without :
    (rows : List TrustRule) (i j : ℕ)
    → find_row (without rows i) j ≡ (if i == j then none else find_row rows j)
unfolding find_row without
find_row-without [] i j = ground arith
find_row-without (r ∷ rows) i j = ground (arith, find_row-without rows i j)

length-without-le : (rows : List TrustRule) (i : ℕ) → length (without rows i) ≤ length rows
unfolding without
length-without-le [] i = omega arith
length-without-le (r ∷ rows) i = ground (arith, length-without-le rows i)

abbrev pub is_some : {A : Type 0} → Option A → Bool
is_some none = false
is_some (some a) = true

removed_iff :
    (rows : List TrustRule) (i : ℕ)
    → not (length (without rows i) == length rows) ≡ is_some (find_row rows i)
unfolding find_row without
removed_iff [] i = refl
removed_iff (r ∷ rows) i = ground (arith, removed_iff rows i, length-without-le rows i)

-- A removed id finds nothing any more, every other id finds what it found, and the answer is
-- whether there was such a rule.
pub get_rule-remove :
    (t : TrustTable) (i j : ℕ)
    → (get_rule (remove t i).1 j ≡ (if i == j then none else get_rule t j))
      × ((remove t i).0 ≡ is_some (get_rule t i))
unfolding get_rule remove
get_rule-remove t i j = (find_row-without t.rows i j, removed_iff t.rows i)

All-without :
    (P : TrustRule → Type 0) (rows : List TrustRule) (i : ℕ) → All P rows → All P (without rows i)
unfolding without
All-without P [] i h = tt
All-without P (r ∷ rows) i h = ground (arith, All-without P rows i h.1, h.0)

Ascending-without : (rows : List TrustRule) (i : ℕ) → Ascending rows → Ascending (without rows i)
unfolding without
Ascending-without [] i h = tt
Ascending-without (r ∷ rows) i h =
    ground (arith, Ascending-without rows i h.1, All-without (λ q. r.id < q.id) rows i h.0)

Below-weaken : (rows : List TrustRule) (n : ℕ) → All (Below n) rows → All (Below (n + 1)) rows
Below-weaken [] n h = tt
Below-weaken (r ∷ rows) n h = (omega arith, Below-weaken rows n h.1)

Ascending-snoc :
    (rows : List TrustRule) (r : TrustRule)
    → Ascending rows
    → All (Below r.id) rows
    → Ascending (rows ++ r ∷ [])
Ascending-snoc [] r a b = (tt, tt)
Ascending-snoc (q ∷ rows) r a b =
    (All-append (λ p. q.id < p.id) rows (r ∷ []) a.0 (b.0, tt), Ascending-snoc rows r a.1 b.1)

-- Adding and removing keep the ids ascending and below the next one.
pub table-IsWellFormed :
    (t : TrustTable) (tool : String) (pattern : Fields) (note : String) (i : ℕ)
    → IsWellFormed t
    → IsWellFormed (add t tool pattern note).1 × IsWellFormed (remove t i).1
unfolding add remove
table-IsWellFormed t tool pattern note i w = (
  record {
    below =
        All-append (Below (t.next_id + 1)) t.rows _ (Below-weaken t.rows _ w.below)
          (omega arith, tt);
    ascending = Ascending-snoc t.rows _ w.ascending w.below;
  },
  record {
    below = All-without (Below t.next_id) t.rows i w.below;
    ascending = Ascending-without t.rows i w.ascending;
  },
)
