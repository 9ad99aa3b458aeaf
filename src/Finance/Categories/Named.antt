-- ===== src/Finance/Categories/Named.antt =====
-- Categories by name, and the category that a text belongs to.
use mathlib.Core.List.{Memᴰ, append-nil, append_assoc}
use kanna_pa.Prelude.{
  ℕ, ◌≤◌, String, ◌≡◌, refl, sym, ap, subst, ◌∙◌, true, false, ◌&&◌, ◌||◌, Option, none, some, List,
  [], ◌∷◌, ◌++◌, arith, ltb→lt, any_of, if◌then◌else◌, Bool-cases, Option-cases, mem_last,
  mem_front, mem_end, inl, inr,
}
use kanna_pa.Finance.Models.{Category}
use kanna_pa.Finance.Categories.{
  KeywordRule, Catalog, same_name, create_category, find_by_name, get_by_name, get_or_create,
  find_category, text_contains, text_length, better, best_match, find_category_for_keyword,
}

-- The keyword of a rule stands in the text, and its category is there.
abbrev pub Applies : String → List Category → Category → KeywordRule → Type 0
Applies text rows c r =
    (find_category r.category_id rows ≡ some c) × (text_contains r.keyword text ≡ true)

-- No rule applies whose keyword is longer than `n`.
abbrev pub AtMost : ℕ → String → List Category → List KeywordRule → Type 0
AtMost n text rows rules =
    (r : KeywordRule) (c : Category)
    → Memᴰ r rules
    → Applies text rows c r
    → text_length r.keyword ≤ n

-- What the loop knows of the rules that it has seen.
abbrev pub Knows : String → List Category → List KeywordRule → Option (ℕ × Category) → Type 0
Knows text rows seen none =
    (r : KeywordRule) (c : Category) → Memᴰ r seen → Applies text rows c r → ⊥
Knows text rows seen (some (n, c)) =
    ((r : KeywordRule) × Memᴰ r seen × Applies text rows c r × (text_length r.keyword ≡ n))
    × AtMost n text rows seen

-- One rule of the loop.
abbrev step : String → List Category → KeywordRule → Option (ℕ × Category) → Option (ℕ × Category)
step text rows r best = elim (find_category r.category_id rows) [
  | none ↦ best
  | some c ↦
      if text_contains r.keyword text && better (text_length r.keyword) best
      then some (text_length r.keyword, c)
      else best
]

module _ (text : String) (rows : List Category) (seen : List KeywordRule) (r : KeywordRule) where
  -- The new rule is no better than the best one.
  passes :
      (best : Option (ℕ × Category))
      → Knows text rows seen best
      → ((c : Category)
          → Applies text rows c r
          → (n : ℕ) × (k : Category) × (best ≡ some (n, k)) × (text_length r.keyword ≤ n))
      → Knows text rows (seen ++ r ∷ []) best
  passes none old new = λ q c m a. elim (mem_last q r seen m) [
    | inl m' ↦ old q c m' a
    | inr e ↦ let (n, k, f, le) = new c (subst (Applies text rows c) e a) in absurd (cc)
  ]
  passes (some (n, k)) ((q, m, a, e), most) new = (
    (q, mem_front q seen _ m, a, e),
    λ p c mp fits. elim (mem_last p r seen mp) [
      | inl m' ↦ most p c m' fits
      | inr f ↦
          let (n', k', g, le) = new c (subst (Applies text rows c) f fits) in
          let same : n ≡ n' = cc in
          let size : text_length p.keyword ≡ text_length r.keyword =
            ap (λ (x : KeywordRule). text_length x.keyword) f in
          omega arith
    ],
  )

  wins :
      (best : Option (ℕ × Category)) (c : Category)
      → Knows text rows seen best
      → Applies text rows c r
      → better (text_length r.keyword) best ≡ true
      → Knows text rows (seen ++ r ∷ []) (some (text_length r.keyword, c))
  wins best c old a h = (
    (r, mem_end r seen, a, refl),
    λ p k mp fits. elim (mem_last p r seen mp) [
      | inl m' ↦ older best old h p k m' fits
      | inr f ↦
          let size : text_length p.keyword ≡ text_length r.keyword =
            ap (λ (x : KeywordRule). text_length x.keyword) f in
          omega arith
    ],
  )
    where
      older :
          (best : Option (ℕ × Category))
          → Knows text rows seen best
          → better (text_length r.keyword) best ≡ true
          → (p : KeywordRule) (k : Category) → Memᴰ p seen
          → Applies text rows k p
          → text_length p.keyword ≤ text_length r.keyword
      older none old h p k m fits = absurd (old p k m fits)
      older (some (n, b)) old h p k m fits =
          let lt = ltb→lt _ _ h in let le = old.1 p k m fits in omega arith

  loses :
      (best : Option (ℕ × Category))
      → better (text_length r.keyword) best ≡ false
      → (n : ℕ) × (k : Category) × (best ≡ some (n, k)) × (text_length r.keyword ≤ n)
  loses none h = absurd (cc)
  loses (some (n, k)) h = (n, k, refl, ground arith)

  step-Knows :
      (best : Option (ℕ × Category))
      → Knows text rows seen best
      → Knows text rows (seen ++ r ∷ []) (step text rows r best)
  step-Knows best old = elim (Option-cases (find_category r.category_id rows)) [
    | inl e ↦ becomes best (rw (e, step) refl) (passes best old (λ c a. absurd (cc (a.0))))
    | inr (c, e) ↦ elim (Bool-cases (text_contains r.keyword text)) [
      | inr absent ↦
          becomes best (rw (e, absent, step) refl) (passes best old (λ k a. absurd (cc (a.1))))
      | inl here ↦ elim (Bool-cases (better (text_length r.keyword) best)) [
        | inl more ↦
            becomes (some (text_length r.keyword, c)) (rw (e, here, more, step) refl)
              (wins best c old (e, here) more)
        | inr less ↦
            becomes best (rw (e, here, less, step) refl) (passes best old (λ k a. loses best less))
      ]
    ]
  ]
    where
      becomes :
          (after : Option (ℕ × Category))
          → step text rows r best ≡ after
          → Knows text rows (seen ++ r ∷ []) after
          → Knows text rows (seen ++ r ∷ []) (step text rows r best)
      becomes after e k = subst (Knows text rows (seen ++ r ∷ [])) (sym e) k

best_match-Knows :
    (text : String) (rows : List Category) (seen rules : List KeywordRule)
    (best : Option (ℕ × Category))
    → Knows text rows seen best
    → Knows text rows (seen ++ rules) (best_match text rules rows best)
unfolding best_match
best_match-Knows text rows seen [] best old =
    subst (λ x. Knows text rows x best) (sym (append-nil seen)) old
best_match-Knows text rows seen (r ∷ rules) best old =
    subst (λ x. Knows text rows x (best_match text (r ∷ rules) rows best))
      (append_assoc seen (r ∷ []) rules)
      (best_match-Knows text rows (seen ++ r ∷ []) rules (step text rows r best)
        (step-Knows text rows seen r best old))

-- What a search for a category in a text comes to.
abbrev pub Chosen : String → Catalog → Option Category → Type 0
Chosen text c none =
    (r : KeywordRule) (row : Category) → Memᴰ r c.rules → Applies text c.categories row r → ⊥
Chosen text c (some row) =
    (r : KeywordRule) × Memᴰ r c.rules
    × Applies text c.categories row r
    × AtMost (text_length r.keyword) text c.categories c.rules

-- The category of a text is that of a rule whose keyword stands in the text, in lower case, and no
-- longer keyword does; there is none only if no rule's keyword stands in it.
pub find_category_for_keyword-Chosen :
    (lower : String → String) (text : String) (c : Catalog)
    → Chosen (lower text) c (find_category_for_keyword lower text c)
unfolding find_category_for_keyword
find_category_for_keyword-Chosen lower text c =
    chosen (best_match (lower text) c.rules c.categories none)
      (best_match-Knows (lower text) c.categories [] c.rules none (λ r row m _. elim m [ ]))
  where
    chosen :
        (best : Option (ℕ × Category))
        → Knows (lower text) c.categories c.rules best
        → Chosen (lower text) c (elim best [ none ↦ none | some (n, row) ↦ some row ])
    chosen none k = k
    chosen (some (n, row)) ((r, m, a, e), most) =
        (r, m, a, subst (λ x. AtMost x (lower text) c.categories c.rules) (sym e) most)

-- No two categories have the same name, up to the case of letters.
abbrev pub IsNamed : List Category → Type 0
IsNamed [] = Unit
IsNamed (row ∷ rows) =
    (any_of (λ (q : Category). same_name row.name q.name) rows ≡ false) × IsNamed rows

find_by_name-absent :
    (name : String) (rows : List Category)
    → find_by_name name rows ≡ none
    → any_of (λ (q : Category). same_name q.name name) rows ≡ false
unfolding find_by_name
find_by_name-absent name [] h = refl
find_by_name-absent name (q ∷ rows) h = ground (arith, find_by_name-absent name rows)

any_of-last :
    (x : String) (row : Category) (rows : List Category)
    → any_of (λ (q : Category). same_name x q.name) (rows ++ row ∷ [])
      ≡ (any_of (λ (q : Category). same_name x q.name) rows || same_name x row.name)
any_of-last x row [] = ground arith
any_of-last x row (q ∷ rows) = ground (arith, any_of-last x row rows)

last-IsNamed :
    (row : Category) (rows : List Category)
    → IsNamed rows
    → any_of (λ (q : Category). same_name q.name row.name) rows ≡ false
    → IsNamed (rows ++ row ∷ [])
last-IsNamed row [] v h = (refl, tt)
last-IsNamed row (q ∷ rows) v h =
    (any_of-last q.name row rows ∙ ground arith, last-IsNamed row rows v.1 (ground arith))

find_by_name-last :
    (name : String) (row : Category) (rows : List Category)
    → find_by_name name rows ≡ none
    → same_name row.name name ≡ true
    → find_by_name name (rows ++ row ∷ []) ≡ some row
unfolding find_by_name
find_by_name-last name row [] h e = ground arith
find_by_name-last name row (q ∷ rows) h e = ground (arith, find_by_name-last name row rows)

same_name_refl : (s : String) → same_name s s ≡ true
unfolding same_name
same_name_refl String.[] = refl
same_name_refl (String.◌∷◌ c s) = ground (arith, same_name_refl s)

-- `get_or_create` keeps the names apart, gives back a category of the name, and adds at most one;
-- asked again for the name it gives the same category and changes nothing.
pub get_or_create_again :
    (name : String) (c : Catalog)
    → IsNamed c.categories
    → IsNamed (get_or_create name c).1.categories
      × (get_or_create name (get_or_create name c).1 ≡ get_or_create name c)
unfolding get_or_create get_by_name create_category
get_or_create_again name c v = elim (Option-cases (find_by_name name c.categories)) [
  | inr (row, e) ↦
      let found : get_or_create name c ≡ (row, c) = rw (e, get_or_create) refl in
      (rw found v, ap (λ (x : Category × Catalog). get_or_create name x.1) found)
  | inl e ↦
      let row : Category = record { id = c.next_id; name = name; parent_category = none } in
      let again = find_by_name-last name row c.categories e (same_name_refl name) in
      let made : get_or_create name c ≡ create_category name none c = rw (e, get_or_create) refl in
      let twice : get_or_create name (create_category name none c).1 ≡ create_category name none c =
        rw (again, get_or_create) refl in
      (
        rw made (last-IsNamed row c.categories v (find_by_name-absent name c.categories e)),
        ap (λ (x : Category × Catalog). get_or_create name x.1) made ∙ twice ∙ sym made,
      )
]
