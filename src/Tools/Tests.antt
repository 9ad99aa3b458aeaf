-- ===== src/Tools/Tests.antt =====
-- A registry with two tools, and the calls of it.
use mathlib.Core.List.{Memᴰ}
use kanna_pa.Prelude.{ℕ, ◌+◌, ◌≡◌, ◌≢◌, ◌↔◌, ◌⊎◌, refl, true, none, [], ◌∷◌, if◌then◌else◌, ◌=ₛ◌}
use kanna_pa.Prelude.Int.{pos}
use kanna_pa.Value.{Value, str, int, obj, end, field, eq_value}
use kanna_pa.Permissions.{low, review, restricted}
use kanna_pa.Permissions.Policy.{default_policy, decide, default_decision}
use kanna_pa.Permissions.Trust.{TrustRule, rule_matches, pattern_matches}
use kanna_pa.Permissions.Gate.{trust_store, deny_all, approve, covers}
use kanna_pa.Tools.Schema.{
  object, string, Schema, schema, no_properties, property, no_items, validate,
}
use kanna_pa.Tools.Schema.Conforms.{Conforms, validate_iff}
use kanna_pa.Tools.Result.{ToolResult, ok_result}
use kanna_pa.Tools.Registry.{
  returned, Tool, Registry, Context, Services, ok, get_tool, invoke_tool, invoke,
}
use kanna_pa.Tools.Registry.Audit.{IsAudited, invoke-IsAudited, IsGenuine, invoke-IsGenuine}
use kanna_pa.Tools.Registry.Authority.{authorised, invoke-world, creates_new, unattended_review}
use kanna_pa.Planner.Plan.{plain}

abbrev pub any_object : Schema
any_object = schema (plain object) no_properties no_items

abbrev titled : Schema
titled =
    schema (record (plain object) { required = "title" ∷ [] })
      (property "title" (schema (plain string) no_properties no_items) no_properties) no_items

-- It counts its calls in the world.
abbrev pub counter : Tool ℕ
counter = record {
  name = "counter";
  permission = low;
  input_schema = any_object;
  output_schema = any_object;
  execute = λ args w. (returned (ok_result (field "count" (int (pos w)) end)), w + 1);
}

abbrev pub opener : Tool ℕ
opener = record counter { name = "desktop_open"; permission = review }

abbrev wiper : Tool ℕ
wiper = record counter { name = "fs_delete"; permission = restricted }

abbrev opens_a : TrustRule
opens_a = record {
  id = 1;
  tool_name = "desktop_open";
  args_pattern = field "app" (str "a") end;
  note = "";
}

abbrev pub two_tools : Registry ℕ
two_tools = record {
  policy = default_policy;
  gate = trust_store (opens_a ∷ []) deny_all;
  tools = counter ∷ opener ∷ [];
}

abbrev pub plain_services : Services ℕ
plain_services = record {
  re_match = λ p s. p =ₛ s;
  monotonic = λ w. w;
  describe_error = λ e. "invalid";
  can_record = λ w e. true;
}

abbrev pub at_rest : Context ℕ
at_rest = record { world = 0; log = []; events = [] }

abbrev open_a : Value
open_a = obj (field "app" (str "a") end)

invoke-world_example :
    (invoke_tool plain_services two_tools opener open_a at_rest).1.world
    ≡ (if authorised plain_services two_tools opener open_a then 1 else 0)
unfolding invoke
invoke-world_example =
    invoke-world plain_services two_tools "desktop_open" open_a at_rest opener
      (invoke_tool plain_services two_tools opener open_a at_rest) refl refl

invoke-IsAudited_example :
    (after : ToolResult × Context ℕ) × (invoke plain_services two_tools "counter" open_a at_rest
      ≡ ok after)
    × IsAudited plain_services counter open_a at_rest after
unfolding get_tool
invoke-IsAudited_example =
    invoke-IsAudited plain_services two_tools "counter" open_a at_rest counter refl

invoke-IsGenuine_example :
    IsGenuine plain_services counter open_a 0
      (invoke_tool plain_services two_tools counter open_a at_rest).0
unfolding invoke default_policy decide validate
invoke-IsGenuine_example =
    invoke-IsGenuine plain_services two_tools "counter" open_a at_rest counter
      (invoke_tool plain_services two_tools counter open_a at_rest) refl refl refl

unattended_review_example :
    (creates_new "desktop_open" (field "app" (str "a") end) ≡ true)
    ⊎ ((q : TrustRule) × Memᴰ q (opens_a ∷ [])
        × (covers "desktop_open" (field "app" (str "a") end) q ≡ true))
unfolding default_policy decide default_decision approve rule_matches pattern_matches eq_value
    validate
unattended_review_example =
    unattended_review plain_services two_tools opener open_a (opens_a ∷ [])
      (record { policy = refl; gate = refl }) refl refl

validate_iff_example :
    (validate plain_services.re_match titled (obj (field "title" (str "t") end)) ≡ none)
    ↔ Conforms plain_services.re_match titled (obj (field "title" (str "t") end))
validate_iff_example =
    validate_iff plain_services.re_match titled (obj (field "title" (str "t") end))

title_wanted :
    validate plain_services.re_match titled (obj (field "title" (int (pos 3)) end)) ≢ none
unfolding validate
title_wanted h = cc
