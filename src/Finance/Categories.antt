-- ===== src/Finance/Categories.antt =====
-- `CategoryRepository` of finance/repository.py, and the default categories of finance/service.py.
-- The random ids are numbers that are given once.
pub mod Named
use Prim.Native.Char.{code}
use kanna_pa.Prelude.{
  ℕ, ◌+◌, suc, zero, String, Bool, true, false, ◌&&◌, ◌||◌, Option, none, some, List, [], ◌∷◌, ◌++◌,
  ◌==◌, ltb, if◌then◌else◌,
}
use kanna_pa.Permissions.Gate.{to_lower}
use kanna_pa.Finance.Models.{Category}

-- A row of `finance_category_rules`.
pub record KeywordRule : Type 0 where
  pub keyword : String
  pub category_id : ℕ

pub record Catalog : Type 0 where
  pub categories : List Category
  pub rules : List KeywordRule
  pub next_id : ℕ

-- COLLATE NOCASE folds the 26 letters of ASCII.
unfoldable pub same_name : String → String → Bool
unfolding to_lower
same_name String.[] String.[] = true
same_name String.[] (String.◌∷◌ e t) = false
same_name (String.◌∷◌ c s) String.[] = false
same_name (String.◌∷◌ c s) (String.◌∷◌ e t) =
    to_lower (code c) == to_lower (code e) && same_name s t

-- `CategoryRepository.create`
unfoldable pub create_category : String → Option ℕ → Catalog → Category × Catalog
create_category name parent c =
    let row : Category = record { id = c.next_id; name = name; parent_category = parent } in
    (row, record c { categories = c.categories ++ row ∷ []; next_id = c.next_id + 1 })

unfoldable pub find_by_name : String → List Category → Option Category
unfolding same_name
find_by_name name [] = none
find_by_name name (row ∷ rows) =
    if same_name row.name name then some row else find_by_name name rows

-- `CategoryRepository.get_by_name`
unfoldable pub get_by_name : String → Catalog → Option Category
unfolding find_by_name
get_by_name name c = find_by_name name c.categories

-- `CategoryRepository.get_or_create`
unfoldable pub get_or_create : String → Catalog → Category × Catalog
unfolding get_by_name create_category
get_or_create name c = elim (get_by_name name c) [
  | some row ↦ (row, c)
  | none ↦ create_category name none c
]

unfoldable pub find_category : ℕ → List Category → Option Category
find_category id [] = none
find_category id (row ∷ rows) = if row.id == id then some row else find_category id rows

-- `keyword in text`
unfoldable pub is_prefix : String → String → Bool
is_prefix String.[] t = true
is_prefix (String.◌∷◌ c s) String.[] = false
is_prefix (String.◌∷◌ c s) (String.◌∷◌ e t) = code c == code e && is_prefix s t

unfoldable pub text_contains : String → String → Bool
unfolding is_prefix
text_contains part String.[] = is_prefix part String.[]
text_contains part (String.◌∷◌ c s) = is_prefix part (String.◌∷◌ c s) || text_contains part s

unfoldable pub text_length : String → ℕ
text_length String.[] = 0
text_length (String.◌∷◌ c s) = suc (text_length s)

-- The loop over the joined rows; `best` is the longest keyword so far, the earliest of equal ones.
abbrev pub better : ℕ → Option (ℕ × Category) → Bool
better n none = true
better n (some (best, c)) = ltb best n

unfoldable pub best_match :
    String → List KeywordRule → List Category → Option (ℕ × Category) → Option (ℕ × Category)
unfolding text_contains text_length find_category
best_match text [] rows best = best
best_match text (r ∷ rules) rows best =
    best_match text rules rows (elim (find_category r.category_id rows) [
      | none ↦ best
      | some c ↦
          if text_contains r.keyword text && better (text_length r.keyword) best
          then some (text_length r.keyword, c)
          else best
    ])

-- `DEFAULT_CATEGORIES`
unfoldable pub default_categories : List (String × List String)
default_categories =
    (
      "Food",
      "lunch" ∷ "dinner" ∷ "breakfast" ∷ "coffee" ∷ "restaurant" ∷ "cafe" ∷ "grocery" ∷ "groceries"
          ∷ "snack" ∷ "food" ∷ "pizza" ∷ "takeout" ∷ [],
    )
    ∷ (
      "Transport",
      "uber" ∷ "taxi" ∷ "cab" ∷ "bus" ∷ "train" ∷ "fuel" ∷ "petrol" ∷ "diesel" ∷ "metro" ∷ "parking"
          ∷ "auto" ∷ [],
    )
    ∷ (
      "Entertainment",
      "movie" ∷ "cinema" ∷ "netflix" ∷ "spotify" ∷ "concert" ∷ "game" ∷ "gaming" ∷ [],
    )
    ∷ ("Shopping", "clothes" ∷ "clothing" ∷ "shoes" ∷ "amazon" ∷ "shopping" ∷ "electronics" ∷ [])
    ∷ (
      "Bills",
      "rent" ∷ "electricity" ∷ "water bill" ∷ "internet" ∷ "wifi" ∷ "phone bill" ∷ "subscription"
          ∷ [],
    )
    ∷ ("Health", "pharmacy" ∷ "medicine" ∷ "doctor" ∷ "hospital" ∷ "clinic" ∷ "gym" ∷ [])
    ∷ ("Education", "tuition" ∷ "books" ∷ "course" ∷ "stationery" ∷ [])
    ∷ []

module _ (lower : String → String) where
  -- `CategoryRepository.add_keyword_rule`
  unfoldable pub add_keyword_rule : String → ℕ → Catalog → Catalog
  add_keyword_rule keyword id c = record c {
    rules = c.rules ++ record { keyword = lower keyword; category_id = id } ∷ [];
  }

  -- `CategoryRepository.find_category_for_keyword`
  unfoldable pub find_category_for_keyword : String → Catalog → Option Category
  unfolding best_match
  find_category_for_keyword text c = elim (best_match (lower text) c.rules c.categories none) [
    | none ↦ none
    | some (n, row) ↦ some row
  ]

  unfoldable pub add_keywords : List String → ℕ → Catalog → Catalog
  unfolding add_keyword_rule
  add_keywords [] id c = c
  add_keywords (k ∷ ks) id c = add_keywords ks id (add_keyword_rule k id c)

  unfoldable pub add_defaults : List (String × List String) → Catalog → Catalog
  unfolding create_category add_keywords
  add_defaults [] c = c
  add_defaults ((name, keywords) ∷ rest) c =
      let (row, made) = create_category name none c in
      add_defaults rest (add_keywords keywords row.id made)

  -- `ensure_default_categories`
  unfoldable pub ensure_default_categories : Catalog → Catalog
  unfolding add_defaults default_categories
  ensure_default_categories c = elim (c.categories) [
    | [] ↦ add_defaults default_categories c
    | row ∷ rows ↦ c
  ]
