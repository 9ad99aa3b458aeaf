-- ===== src/Planner/Model/Tests.antt =====
-- Answers of a model, with a registry of two tools.
use kanna_pa.Prelude.{ℕ, ◌≡◌, refl, true, some, []}
use kanna_pa.Value.{Value, str, obj, arr, nil, cons, end, field}
use kanna_pa.Tools.Tests.{two_tools}
use kanna_pa.Planner.Plan.{PlanStep, unknown_tool}
use kanna_pa.Planner.Model.{ModelServices, failed, create_via_model, revise_step}
use kanna_pa.Planner.Model.Answers.{Usable, create_via_model-Usable, Revises, revise_step-Revises}

abbrev call_counter : Value
call_counter =
    obj (field "steps" (arr (cons (obj (field "tool_name" (str "counter") end)) nil)) end)

abbrev answering : Value → ModelServices ℕ
answering v = record {
  complete = λ system content w. (some "answer", w);
  find_json = λ t. some t;
  loads = λ t. some v;
  plan_prompt = λ r. "plan";
  revise_prompt = λ s. "revise";
  revise_request = λ s r. "why";
  re_match = λ p s. true;
}

create_via_model-Usable_example :
    Usable
      (answering call_counter)
      two_tools
      "count"
      (create_via_model (answering call_counter) two_tools "count" 0).0
create_via_model-Usable_example =
    create_via_model-Usable (answering call_counter) two_tools "count" 0

abbrev counting : PlanStep
counting = record { tool_name = "counter"; args = obj end; description = "d"; expected = end }

abbrev with_new_args : Value
with_new_args = obj (field "args" (obj (field "n" (str "2") end)) end)

revise_step-Revises_example :
    Revises
      (answering with_new_args)
      two_tools
      counting
      (revise_step (answering with_new_args) two_tools counting [] 0).0
revise_step-Revises_example = revise_step-Revises (answering with_new_args) two_tools counting [] 0

-- A name that is a list is no tool.
abbrev list_for_name : Value
list_for_name = obj (field "steps" (arr (cons (obj (field "tool_name" (arr nil) end)) nil)) end)

list_for_name_refused :
    (create_via_model (answering list_for_name) two_tools "count" 0).0 ≡ failed (unknown_tool 0)
unfolding create_via_model
list_for_name_refused = refl
