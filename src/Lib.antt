-- ===== src/Lib.antt =====
-- Kanna: the agent, its tools and permissions, the scheduler, and money.
--
-- Kanna is a local assistant. A planner turns a request into a plan of tool calls
-- (core/planner). The agent loop (core/agent/loop.py) validates the plan, runs its steps in order
-- through the tool registry (core/tools/registry.py), checks each result's postconditions
-- (core/agent/verifier.py), retries a failed step a bounded number of times, and stores what
-- happened (core/memory/repositories/plans.py). The registry validates the arguments
-- (core/tools/schema.py), asks the permission policy and, where that says so, an approval gate
-- (core/permissions), executes the tool, validates what it returns, logs the call and publishes an
-- event. Finance (finance) keeps amounts in minor units and sums them by currency.
-- The scheduler (automation/scheduler) hands requests to the agent at the times that their
-- schedules name. The file tools (tools/filesystem) act on the disk below the sandbox's roots, the
-- process tool (tools/process) starts programs there. The desktop window hands its requests to a
-- worker thread (interfaces/desktop/worker.py), which asks the window for approvals.
--
-- The files:
--   Prelude         shared names, Boolean tests, lists, integers
--   Value           JSON-like values and Python's `==`, truth and `dict.get` on them
--   Settings        core/config/settings.py: the rewriting of the file; Load: the order of the
--                   sources; Make: what `load_settings` makes of them
--   Events          core/events/types.py, core/agent/state.py; Bus: core/events/bus.py
--   Permissions     core/permissions/levels.py; Policy: policy.py and the default rule of
--                   core/bootstrap.py; Trust: trust.py and core/memory/repositories/trust_rules.py;
--                   Gate: gate.py; Sandbox: sandbox.py
--   Tools           Schema: core/tools/schema.py; Result: result.py; Registry: registry.py;
--                   Process: tools/process/run_process.py; Scaffold: tools/scaffold
--   Files           Disk, Os: what the tools use of pathlib; Read: tools/filesystem/read.py,
--                   info.py, list_dir.py; Write: write.py, mkdir.py, delete.py; Search: search.py;
--                   Tools: the seven tools as the registry holds them, __init__.py
--   Desktop         interfaces/desktop/worker.py: the worker's state, its operations and the steps
--                   of its thread; Artifacts: `verified_artifacts`
--   Planner         Plan: core/planner/plan.py; Bindings, Validation: bindings.py;
--                   RuleBased: rule_based.py; Model: llm_planner.py
--   Memory          Plans: core/memory/repositories/plans.py; Tasks: tasks.py of the same folder
--                   and core/tasks/service.py; Sessions: sessions.py and core/agent/session.py
--   Agent           Verifier: core/agent/verifier.py; Loop: `_run_step` of core/agent/loop.py and
--                   what it calls; Run: `run` of the same file; History: `list_runs` of core/agent/history.py
--   Scheduler       Schedule: automation/scheduler/schedule.py; Tick: scheduler.py and store.py;
--                   Daemon: daemon.py
--   Finance         Money: finance/money.py, its `parse` in Money/Parse; Recurring: recurring.py;
--                   Models: models.py; Dates: dates.py; Periods: nlp.py; Analytics: the totals of
--                   analytics.py, Reports: the rest of it and the queries of service.py;
--                   Categories, Books: repository.py; Entry: the entry of transactions, budgets and
--                   recurring expenses of service.py; Service: apply_due_recurring of the same file;
--                   Imports: imports/csv_import.py, Imports/Statement and Imports/Receipt the others
--   Tests           in each component: concrete runs
--
-- State is passed explicitly. `W` is the state of everything outside: files, devices, the clock, a
-- model that answers. A tool is a function on it that returns a result or raises; the registry's
-- context adds the execution log and the published events, the loop's state the table of plans and
-- the number of looks at the cancel event, the scheduler's store the tables of schedules and jobs.
-- The file tools' outside is a disk: for each path a directory or a file with its bytes. The desktop's
-- threads are steps on one state, each of them what a thread does between two looks of another.
-- Errors are values: of a validation, a planning error, an outcome; the TypeError that a property with
-- a `OneOfSchema` raises in bindings.py is one, and leaves `run`.
--
-- Third parties are parameters with no assumption but where a theorem names one: the match of a
-- regular expression or of a glob, the UTF-8 codec, strptime, decimal numbers, SQL's LIKE, the
-- digest of a text, the case of letters, the reading of CSV and of a document, the model, what a
-- process does, `Path.resolve`, the existence of a file, the monotonic clock, whether the database
-- takes a log entry, the planner, the cancel event, the scheduler's callback. A prompt's answer is
-- part of the gate. A tool does not register tools or change the trust table while it runs.
--
-- Bounds. The loop of a step counts the passes that its `range` has left, max_corrections of them at
-- most, so it needs no other fuel. The search for a weekly run has the code's own bound. The
-- daemon's loop and the gate's loop end by a flag: the first runs on fuel, the second is a step.
-- Numbers are unbounded, as in Python, floats are the finite ones. The scheduler's dates are
-- ordinals and its times microseconds, finance's dates a year, a month and a day; the end of the
-- calendar is left out, and so are time zones.
--
-- Left out: the texts of messages and summaries that nothing reads again (the result's `message`,
-- `blocker`), the times in the rows of tables, `to_json_schema`, a `OneOfSchema` but as a
-- property's, the JSON encoding of rows, the time of change of a directory, permissions of files
-- and a full disk, the progress events of the desktop, a row's own id where nothing reads it, and
-- these parts of the program: the finance tools and the export, the authoring, computer and
-- browser tools, documents, interfaces but the desktop worker, model and device backends.
pub mod Prelude
pub mod Value
pub mod Events
pub mod Permissions
pub mod Tools
pub mod Memory
pub mod Planner
pub mod Agent
pub mod Scheduler
pub mod Settings
pub mod Files
pub mod Desktop
pub mod Finance
