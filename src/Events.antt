-- ===== src/Events.antt =====
-- What is published on the event bus (core/events/types.py), and the states of the agent
-- (core/agent/state.py) that its events name.
pub mod Bus
pub mod Tests
use kanna_pa.Prelude.{ℕ, String, ◌<>◌, Bool, true, false}

pub data AgentState : Type 0 where
  understanding planning selecting executing observing checking correcting verifying : AgentState
  complete failed blocked cancelled : AgentState

-- The text of a state.
unfoldable pub state_value : AgentState → String
state_value understanding = "understanding"
state_value planning = "planning"
state_value selecting = "selecting"
state_value executing = "executing"
state_value observing = "observing"
state_value checking = "checking"
state_value correcting = "correcting"
state_value verifying = "verifying"
state_value complete = "complete"
state_value failed = "failed"
state_value blocked = "blocked"
state_value cancelled = "cancelled"

-- `TERMINAL_STATES`
unfoldable pub is_terminal : AgentState → Bool
is_terminal complete = true
is_terminal failed = true
is_terminal blocked = true
is_terminal cancelled = true
is_terminal _ = false

pub data Event : Type 0 where
  executed : (tool_name : String) → (success : Bool) → (duration_ms : ℕ) → Event
  agent_state : AgentState → Event

unfoldable pub topic : Event → String
unfolding state_value
topic (executed n s d) = "tool.executed"
topic (agent_state s) = "agent.state." <> state_value s
