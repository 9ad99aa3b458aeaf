-- ===== src/Desktop/Tests.antt =====
-- A run of the desktop worker: a task is taken up, asks for an approval and gets it.
use mathlib.Core.List.{Memᴰ}
use kanna_pa.Prelude.{String, ◌≡◌, ◌↔◌, refl, true, ◌&&◌, not, none, some, List, [], ◌∷◌}
use kanna_pa.Value.{null, end}
use kanna_pa.Planner.RuleBased.{strip_text}
use kanna_pa.Tools.Result.{ok_result}
use kanna_pa.Agent.Loop.{StepOutcome}
use kanna_pa.Desktop.{
  Worker, asking, initial, submit, enter, start_up, take_command, clear_cancel, ask, poll, verdict,
  respond, new_request, ApprovalRequest, Action, submits, clears, other, asks, answers, submitted,
  starts, enters, takes, clears_flag, asks_user, answered, polls_quiet, returned, compose_request,
}
use kanna_pa.Desktop.Reach.{Reach, start, next}
use kanna_pa.Desktop.Tasks.{IsExclusive, Reach-IsExclusive}
use kanna_pa.Desktop.Approval.{last_answer, is_closed, is_cancelled, returns-verdict}
use kanna_pa.Desktop.Artifacts.{verified_artifacts, IsDistinct, Reported, verified_artifacts_lem}
use kanna_pa.Files.Tests.{plain_os, home, small_disk}

abbrev question : ApprovalRequest
question = new_request "fs_delete" end "why"

abbrev at_loop : Worker
at_loop = enter (start_up true initial)

abbrev with_task : Worker
with_task = (submit "hi" at_loop).1

abbrev in_task : Worker
in_task = clear_cancel "hi" (take_command (some "hi") [] with_task)

abbrev asked : Worker
asked = ask "hi" question in_task

abbrev given : Worker
given = record asked { phase = asking "hi" (respond true question) }

abbrev history : List Action
history = other ∷ answers true ∷ asks question ∷ clears ∷ other ∷ submits ∷ other ∷ other ∷ []

given_yes : Reach history (poll "hi" (respond true question) given)
unfolding initial start_up enter submit take_command clear_cancel ask respond strip_text
given_yes =
    next
      (next
        (next
          (next
            (next
              (next (next (next (start refl) (starts true refl)) (enters refl))
                (submitted "hi" refl))
              (takes (some "hi") [] refl refl))
            (clears_flag "hi" refl))
          (asks_user "hi" "fs_delete" end "why" refl))
        (answered true "hi" question refl))
      (polls_quiet "hi" (respond true question) refl refl)

Reach-IsExclusive_example : IsExclusive (poll "hi" (respond true question) given)
Reach-IsExclusive_example = Reach-IsExclusive given_yes

returns-verdict_example :
    verdict (respond true question) (poll "hi" (respond true question) given)
    ≡ (last_answer history && not (is_closed history) && not (is_cancelled history))
unfolding poll respond
returns-verdict_example = returns-verdict given_yes (returned "hi" (respond true question) refl)

abbrev cancelled_worker : Worker
cancelled_worker = record asked { cancelled = true }

abbrev outcome : StepOutcome
outcome = record {
  step = record { tool_name = "fs_write_file"; args = null; description = ""; expected = end };
  result = record (ok_result end) { files_created = "a.txt" ∷ "/home/a.txt" ∷ "/etc/b" ∷ [] };
  attempts = 1;
  history = [];
}

verified_artifacts_lem_example :
    IsDistinct (verified_artifacts plain_os home small_disk (outcome ∷ []))
    × ((x : String)
        → Memᴰ x (verified_artifacts plain_os home small_disk (outcome ∷ []))
          ↔ Reported plain_os home small_disk x (outcome ∷ []))
verified_artifacts_lem_example = verified_artifacts_lem plain_os home small_disk (outcome ∷ [])

offered_once : verified_artifacts plain_os home small_disk (outcome ∷ []) ≡ "/home/a.txt" ∷ []
unfolding verified_artifacts
offered_once = refl

composed : compose_request (λ paths. "[]") "  " [] ≡ none
unfolding compose_request strip_text
composed = refl
