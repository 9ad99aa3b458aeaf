-- ===== src/Agent/Tests.antt =====
-- A loop over the registry of two tools, with a planner that asks for one call.
use kanna_pa.Prelude.{ℕ, ◌≡◌, refl, true, false, none, some, [], ◌∷◌}
use kanna_pa.Prelude.Int.{pos}
use kanna_pa.Value.{obj, end}
use kanna_pa.Permissions.Sandbox.{resolve}
use kanna_pa.Tools.Result.{ToolResult, ok_result}
use kanna_pa.Tools.Registry.{ok, find_tool}
use kanna_pa.Tools.Tests.{counter, two_tools, plain_services, at_rest}
use kanna_pa.Planner.Plan.{PlanStep, Planned}
use kanna_pa.Agent.Verifier.{Files, verify}
use kanna_pa.Agent.Verifier.Postconditions.{Holds, verify-Holds}
use kanna_pa.Agent.Loop.{StepOutcome, Planner, LoopServices, LoopState, run_step}
use kanna_pa.Agent.Loop.Steps.{IsTried}
use kanna_pa.Agent.Run.{run}
use kanna_pa.Agent.Run.Outcomes.{RunEnds, run-RunEnds}
use kanna_pa.Agent.Run.Total.{run_step-tries}

abbrev no_files : Files ℕ
no_files = record {
  sandbox = record { first_root = "home" ∷ []; other_roots = [] };
  parse_path = λ p. record { is_absolute = false; parts = p ∷ [] };
  os_resolve = λ w p. some p;
  exists = λ w p. false;
}

abbrev every_file : Files ℕ
every_file = record no_files { exists = λ w p. true }

abbrev count_once : PlanStep
count_once = record { tool_name = "counter"; args = obj end; description = "count"; expected = end }

abbrev one_call : Planner ℕ
one_call = record {
  create_plan = λ request registry w.
      (Planned.ok (record { request = request; steps = count_once ∷ []; rationale = "" }), w);
  revise_step = none;
}

abbrev plain_loop : LoopServices ℕ
plain_loop = record {
  registry_services = plain_services;
  files = no_files;
  is_cancelled = λ n w. false;
  describe_planning = λ e. "planning failed";
  describe_reasons = λ rs. "verification failed";
}

abbrev idle : LoopState ℕ
idle = record { ctx = at_rest; plans = record { rows = []; next_id = 1 }; polls = 0 }

run-RunEnds_example :
    RunEnds plain_loop two_tools one_call
      (pos 1)
      "count"
      idle
      (run plain_loop two_tools one_call (pos 1) "count" none idle)
run-RunEnds_example = run-RunEnds plain_loop two_tools one_call (pos 1) "count" none idle

run_step-tries_example :
    (x : StepOutcome × LoopState ℕ) × (run_step plain_loop two_tools one_call
        (pos 1)
        count_once
        idle
      ≡ ok x)
    × IsTried plain_loop two_tools one_call (pos 1) count_once x.0
unfolding find_tool
run_step-tries_example =
    run_step-tries plain_loop two_tools one_call (pos 1) count_once idle counter refl

abbrev wrote_notes : ToolResult
wrote_notes = record (ok_result end) { files_created = "notes" ∷ [] }

verify-Holds_example : Holds every_file 0 count_once wrote_notes
unfolding verify resolve
verify-Holds_example = verify-Holds every_file 0 count_once wrote_notes refl
