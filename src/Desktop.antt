-- ===== src/Desktop.antt =====
-- interfaces/desktop/worker.py: the thread that runs the tasks, and what the window may do meanwhile.
-- A step is what one thread does while it holds the lock or between two uses of a shared object.
pub mod Reach
pub mod Tasks
pub mod Approval
pub mod Artifacts
pub mod Tests
use kanna_pa.Prelude.{
  ℕ, String, ◌<>◌, Bool, true, false, ◌&&◌, ◌||◌, not, ◌≡◌, Option, none, some, List, [], ◌∷◌, ◌++◌,
  ◌=ₛ◌, if◌then◌else◌,
}
use kanna_pa.Value.{Fields}
use kanna_pa.Planner.RuleBased.{strip_text}

pub record ApprovalRequest : Type 0 where
  pub tool_name : String
  pub args : Fields
  pub reason : String
  pub answered : Bool
  pub allowed : Bool

abbrev pub new_request : String → Fields → String → ApprovalRequest
new_request name args reason = record {
  tool_name = name;
  args = args;
  reason = reason;
  answered = false;
  allowed = false;
}

-- `ApprovalRequest.respond`
unfoldable pub respond : Bool → ApprovalRequest → ApprovalRequest
respond b r = record r { allowed = b; answered = true }

-- What the worker puts into its queue of events; payloads and progress are left out.
pub data UiEvent : Type 0 where
  approval approval_resolved : ApprovalRequest → UiEvent
  ready result error idle startup_error stopped : UiEvent

-- `compose_request`, with `json.dumps` as a parameter; none where it raises ValueError.
unfoldable pub compose_request : (List String → String) → String → List String → Option String
compose_request dumps text attachments = if strip_text text =ₛ "" then none else elim attachments [
  | [] ↦ some (strip_text text)
  | a ∷ others ↦ some (
      strip_text text
      <> "\n\nUser-selected source paths (read with the appropriate tool):\n"
      <> dumps (a ∷ others))
]

-- Where the worker's thread is: before the test of `while`, at `get()`, behind `get()` with a text,
-- in the agent loop, in `approve` before and behind its loop, behind the loop of the agent, and out.
pub data Phase : Type 0 where
  starting looping waiting ended : Phase
  taken running settled : String → Phase
  asking judged : String → ApprovalRequest → Phase

-- `commands` holds none for the end.
pub record Worker : Type 0 where
  pub phase : Phase
  pub commands : List (Option String)
  pub stop : Bool
  pub cancelled : Bool
  pub busy : Bool
  pub is_ready : Bool
  pub events : List UiEvent

unfoldable pub initial : Worker
initial = record {
  phase = starting;
  commands = [];
  stop = false;
  cancelled = false;
  busy = false;
  is_ready = false;
  events = [];
}

abbrev put_event : UiEvent → Worker → Worker
put_event e w = record w { events = w.events ++ e ∷ [] }

abbrev is_blank : String → Bool
is_blank text = strip_text text =ₛ ""

-- `DesktopWorker.submit`
unfoldable pub submit : String → Worker → Bool × Worker
submit text w =
    if not w.is_ready || w.busy || w.stop || is_blank text
    then (false, w)
    else (true, record w { busy = true; commands = w.commands ++ some text ∷ [] })

-- `DesktopWorker.cancel`
unfoldable pub cancel : Worker → Bool × Worker
cancel w = if not w.busy then (false, w) else (true, record w { cancelled = true })

-- `DesktopWorker.close`
unfoldable pub close : Worker → Worker
close w = record w { stop = true; commands = w.commands ++ none ∷ [] }

-- The end of `_run`, whatever led to it.
unfoldable pub leave : Worker → Worker
leave w = put_event stopped (record w { phase = ended; is_ready = false })

-- `_run` up to its loop; the factory may raise.
unfoldable pub start_up : Bool → Worker → Worker
unfolding leave
start_up true w = put_event ready (record w { phase = looping; is_ready = true })
start_up false w = leave (put_event startup_error w)

-- The test of the `while` loop.
unfoldable pub enter : Worker → Worker
unfolding leave
enter w = if w.stop then leave w else record w { phase = waiting }

-- What `get()` returned is `command`, and `rest` is left in the queue.
unfoldable pub take_command : Option String → List (Option String) → Worker → Worker
unfolding leave
take_command none rest w = leave (record w { commands = rest })
take_command (some text) rest w =
    if w.stop
    then leave (record w { commands = rest })
    else record w { commands = rest; phase = taken text }

-- `self._cancel.clear()`
unfoldable pub clear_cancel : String → Worker → Worker
clear_cancel text w = record w { cancelled = false; phase = running text }

-- The start of `DesktopGate.approve`
unfoldable pub ask : String → ApprovalRequest → Worker → Worker
ask text r w = put_event (approval r) (record w { phase = asking text r })

-- One round of its loop: `answered.wait(0.1)`, and then the two flags.
unfoldable pub poll : String → ApprovalRequest → Worker → Worker
unfolding respond
poll text r w =
    if r.answered
    then record w { phase = judged text r }
    else if w.stop || w.cancelled
    then put_event (approval_resolved (respond false r))
        (record w { phase = judged text (respond false r) })
    else w

-- What `approve` returns.
abbrev pub verdict : ApprovalRequest → Worker → Bool
verdict r w = r.allowed && not w.stop && not w.cancelled

-- The agent loop returned, or an exception was caught.
unfoldable pub settle : String → Bool → Worker → Worker
settle text true w = put_event result (record w { phase = settled text })
settle text false w = put_event error (record w { phase = settled text })

-- The `finally` of a task.
unfoldable pub release : Worker → Worker
release w = put_event idle (record w { busy = false; phase = looping })

-- What a step was; `denies` is the answer that the gate gives itself.
pub data Action : Type 0 where
  submits cancels closes clears denies other : Action
  asks : ApprovalRequest → Action
  answers returns : Bool → Action

-- A step of the window or of the worker's thread.
pub data Step (w : Worker) : Action → Worker → Type 0 where
  submitted : (text : String) {w' : Worker} → submit text w ≡ (true, w') → Step w submits w'
  refused : (text : String) {w' : Worker} → submit text w ≡ (false, w') → Step w other w'
  cancelled : {w' : Worker} → cancel w ≡ (true, w') → Step w cancels w'
  not_cancelled : {w' : Worker} → cancel w ≡ (false, w') → Step w other w'
  closed : Step w closes (close w)
  answered :
      (b : Bool) (text : String) (r : ApprovalRequest)
      → w.phase ≡ asking text r
      → Step w (answers b) (record w { phase = asking text (respond b r) })
  answered_late :
      (b : Bool) (text : String) (r : ApprovalRequest)
      → w.phase ≡ judged text r
      → Step w (answers b) (record w { phase = judged text (respond b r) })
  starts : (made : Bool) → w.phase ≡ starting → Step w other (start_up made w)
  enters : w.phase ≡ looping → Step w other (enter w)
  takes :
      (command : Option String) (rest : List (Option String))
      → w.phase ≡ waiting
      → w.commands ≡ command ∷ rest
      → Step w other (take_command command rest w)
  clears_flag : (text : String) → w.phase ≡ taken text → Step w clears (clear_cancel text w)
  asks_user :
      (text name : String) (args : Fields) (reason : String)
      → w.phase ≡ running text
      → Step w (asks (new_request name args reason)) (ask text (new_request name args reason) w)
  polls_quiet :
      (text : String) (r : ApprovalRequest)
      → w.phase ≡ asking text r
      → (r.answered || not (w.stop || w.cancelled)) ≡ true
      → Step w other (poll text r w)
  polls_denied :
      (text : String) (r : ApprovalRequest)
      → w.phase ≡ asking text r
      → (r.answered || not (w.stop || w.cancelled)) ≡ false
      → Step w denies (poll text r w)
  returned :
      (text : String) (r : ApprovalRequest)
      → w.phase ≡ judged text r
      → Step w (returns (verdict r w)) (record w { phase = running text })
  settles :
      (text : String) (good : Bool) → w.phase ≡ running text → Step w other (settle text good w)
  releases : (text : String) → w.phase ≡ settled text → Step w other (release w)
