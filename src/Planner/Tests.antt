-- ===== src/Planner/Tests.antt =====
-- A reference to the first step's result.
use kanna_pa.Prelude.{ℕ, false, some, ◌≡◌, refl, none, [], ◌∷◌, ◌=ₛ◌}
use kanna_pa.Value.{Value, str, obj, Fields, end, field}
use kanna_pa.Tools.Registry.{Registry}
use kanna_pa.Tools.Tests.{two_tools, counter}
use kanna_pa.Planner.RuleBased.{Patterns, strip_text}
use kanna_pa.Planner.Plan.{unresolved_reference, ok}
use kanna_pa.Planner.Bindings.{written_reference, validate_template, resolve}
use kanna_pa.Planner.Bindings.Stability.{resolve-append}
use kanna_pa.Planner.Bindings.Statics.{resolve-error}

abbrev refers : Value
refers = obj (field "text" (obj (field "$ref" (str "0.data.title") end)) end)

abbrev first_result : Fields
first_result = field "data" (obj (field "title" (str "t") end)) end

abbrev untitled : Fields
untitled = field "data" (obj end) end

resolve-append_example :
    resolve refers (first_result ∷ untitled ∷ []) ≡ ok (obj (field "text" (str "t") end))
unfolding resolve written_reference
resolve-append_example =
    resolve-append refers (first_result ∷ []) (untitled ∷ []) (obj (field "text" (str "t") end))
      refl

resolve-error_example : unresolved_reference ≡ unresolved_reference
unfolding validate_template resolve written_reference
resolve-error_example =
    resolve-error (λ p s. p =ₛ s) (untitled ∷ []) refers none unresolved_reference refl refl

-- Expressions of which one finds a path in every text.
abbrev finds_a_path : Patterns
finds_a_path = record {
  finance_query = λ t. false;
  finance_spend = λ t. false;
  list_dir = λ t. some "notes";
  search = λ t. none;
  read_file = λ t. none;
}

abbrev lists_only : Registry ℕ
lists_only = record two_tools { tools = record counter { name = "fs_list_directory" } ∷ [] }

stripped : strip_text " a b  " ≡ "a b"
unfolding strip_text
stripped = refl
