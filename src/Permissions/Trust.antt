-- ===== src/Permissions/Trust.antt =====
-- core/permissions/trust.py, and the repository of core/memory/repositories/trust_rules.py.
pub mod Matching
pub mod Table
use kanna_pa.Prelude.{
  ℕ, ◌+◌, String, Bool, true, false, ◌&&◌, not, Option, none, some, List, [], ◌∷◌, ◌++◌, length,
  ◌==◌, ◌=ₛ◌, if◌then◌else◌,
}
use kanna_pa.Value.{Fields, end, field, get, or_null, eq_value}

-- `all(call_args.get(key) == value for key, value in pattern.items())`
unfoldable pub pattern_matches : Fields → Fields → Bool
pattern_matches end args = true
pattern_matches (field k v pattern) args =
    eq_value (or_null (get k args)) v && pattern_matches pattern args

unfoldable pub rule_matches : String → Fields → String → Fields → Bool
unfolding pattern_matches
rule_matches rule_tool pattern call_tool args =
    if rule_tool =ₛ call_tool then pattern_matches pattern args else false

pub record TrustRule : Type 0 where
  pub id : ℕ
  pub tool_name : String
  pub args_pattern : Fields
  pub note : String

-- The table `trust_rules`, in the order of the ids, with the number that SQLite gives next.
pub record TrustTable : Type 0 where
  pub rows : List TrustRule
  pub next_id : ℕ

unfoldable pub add : TrustTable → String → Fields → String → TrustRule × TrustTable
add t tool pattern note =
    let r : TrustRule = record {
      id = t.next_id;
      tool_name = tool;
      args_pattern = pattern;
      note = note;
    } in
    (r, record { rows = t.rows ++ r ∷ []; next_id = t.next_id + 1 })

unfoldable pub list_all : TrustTable → List TrustRule
list_all t = t.rows

unfoldable pub find_row : List TrustRule → ℕ → Option TrustRule
find_row [] i = none
find_row (r ∷ rows) i = if r.id == i then some r else find_row rows i

unfoldable pub get_rule : TrustTable → ℕ → Option TrustRule
unfolding find_row
get_rule t i = find_row t.rows i

unfoldable pub without : List TrustRule → ℕ → List TrustRule
without [] i = []
without (r ∷ rows) i = let rest = without rows i in if r.id == i then rest else r ∷ rest

-- `DELETE … WHERE id = ?`, and whether a row was deleted
unfoldable pub remove : TrustTable → ℕ → Bool × TrustTable
unfolding without
remove t i =
    let rest = without t.rows i in (not (length rest == length t.rows), record t { rows = rest })
