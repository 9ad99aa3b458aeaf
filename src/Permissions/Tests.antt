-- ===== src/Permissions/Tests.antt =====
-- Standing approvals and sandboxed paths, on concrete tables and trees.
use mathlib.Core.List.{Memᴰ}
use kanna_pa.Prelude.{String, ◌≡◌, ◌↔◌, refl, arith, true, false, Option, some, List, [], ◌∷◌, ◌=ₛ◌}
use kanna_pa.Prelude.Int.{pos, ◌*ℤ◌}
use kanna_pa.Value.{Value, bool, int, str, Fields, end, field, eq_value, HasItem}
use kanna_pa.Permissions.{deny}
use kanna_pa.Permissions.Policy.{Rule}
use kanna_pa.Permissions.Trust.{TrustTable, rule_matches}
use kanna_pa.Permissions.Trust.Matching.{Agrees, rule_matches_iff}
use kanna_pa.Permissions.Trust.Table.{IsWellFormed}
use kanna_pa.Permissions.Gate.{is_yes, strip}
use kanna_pa.Permissions.Sandbox.{
  Sandbox, FilePath, roots, candidate, ok, violation, outside, resolve,
}
use kanna_pa.Permissions.Sandbox.Containment.{Under, resolve-ok_iff}

-- Python's True is 1.
true_is_one : eq_value (bool true) (int (pos 1)) ≡ true
unfolding eq_value ◌*ℤ◌
true_is_one = refl

answer_yes : is_yes (strip (b' ' ∷ b'Y' ∷ b'e' ∷ b's' ∷ 10 ∷ [])) ≡ true
unfolding is_yes strip
answer_yes = refl

abbrev pattern_a : Fields
pattern_a = field "app" (str "a") end

abbrev standing : TrustTable
standing = record {
  rows = record { id = 1; tool_name = "open"; args_pattern = pattern_a; note = "" } ∷ [];
  next_id = 2;
}

standing-IsWellFormed : IsWellFormed standing
standing-IsWellFormed = record { below = omega arith; ascending = omega arith }

abbrev never : Rule
never = record { predicate = λ name args. name =ₛ "open"; decision = deny }

rule_matches_iff_example : (rule_matches "open" pattern_a "open" pattern_a ≡ true) ↔ (
    ◌≡◌ {A = String} "open" "open"
    × ((k : String) (v : Value) → HasItem k v pattern_a → Agrees pattern_a k v))
rule_matches_iff_example = rule_matches_iff "open" pattern_a "open" pattern_a

-- A tree without links, in which `..` does not occur.
abbrev no_links : List String → Option (List String)
no_links p = some p

abbrev home : Sandbox
home = record { first_root = "home" ∷ []; other_roots = [] }

abbrev notes : FilePath
notes = record { is_absolute = false; parts = "notes" ∷ [] }

resolve-ok_iff_example : (resolve no_links home notes ≡ ok ("home" ∷ "notes" ∷ [])) ↔ (
    (no_links (candidate home notes) ≡ some ("home" ∷ "notes" ∷ []))
    × ((root : List String) × Memᴰ root (roots home) × Under root ("home" ∷ "notes" ∷ [])))
resolve-ok_iff_example = resolve-ok_iff no_links home notes ("home" ∷ "notes" ∷ [])

outside_refused :
    resolve no_links home (record { is_absolute = true; parts = "etc" ∷ [] }) ≡ violation outside
unfolding resolve
outside_refused = refl

no_links-fixed : (a b : List String) → no_links a ≡ some b → no_links b ≡ some b
no_links-fixed a b e = refl
