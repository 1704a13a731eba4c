-- ===== src/Lib.antt =====
-- Hermes Agent Runtime: the chain that takes a Linear issue to a run of an agent.
--
-- An issue is selected by its labels (Chain.Selector), polled (Chain.Poller) and run
-- (Chain.Orchestrator) by the runtime (Runtime), which claims the issue's lock in a store, keeps
-- it alive with a heartbeat thread, dispatches the work, stores the audit events under a closed
-- payload contract (Payloads), and finishes the run. The dispatcher of production (Kanban) waits
-- for a card of a Kanban board. Before all this a guard (Guard) decides what one tick of the poller
-- may dispatch.
--
-- Base: what the Python code uses of its language: `==`, `in`, dicts, sets, sorting, exceptions.
-- Payloads: src/hermes_agent_runtime/payloads.py. Value, Contract (the tables), Url (`urlsplit`),
--   Validate (`_validate_value`, `_validate_https_url`), Event (`validate_event_payload`).
-- Runtime: src/hermes_agent_runtime/runtime.py. Labels (`classify_issue`), Context
--   (`new_run_id`, `ExecutionContext`, `ExecutionResult`), Events (`_event_key` and the first half
--   of `_persist_events`), Machine (the store, the dispatcher, the heartbeat thread `pulse`),
--   Execute (`AgentRuntime.execute`: `supervise` is its `try` clause, `recover_from` its `except`
--   clause, `at_last` its `finally` clause). Protocol says in which order a run may make its calls.
-- Chain: selector.py, poller.py and orchestrator.py of src/hermes_agent_runtime.
-- Guard: runtime/poller/poller_dispatch_guard.py.
-- Kanban: src/hermes_agent_runtime/kanban.py and adapter.py. Adapter has the wait loop.
-- Supabase: src/hermes_agent_runtime/supabase.py, an implementation of the store. Http has `_post`,
--   with `urlopen` as a parameter; Store has the methods.
-- Env: runtime/poller/poller_env.py. File (`load_env`), Process (`export_into_environ`,
--   `missing_required`).
-- Clients: runtime/poller/smoke_lib.py. Json (the values of `json.loads`), Http (`http_json`),
--   Linear and Database (the classes `Linear` and `Supabase`), with the web as a parameter.
-- Tick: runtime/poller/poller_tick.py. Board (`start`, `read_task`, `existing_cards`, over the
--   functions of `hermes_cli.kanban_db` as parameters), Nodes and Issues (`read_issues`,
--   `guarded_read_issues`, `move_issue_status`), Main (`main`: `build` makes the parts, `run_chain`
--   runs the chain of Chain over Kanban, Guard and Supabase).
-- Canary: runtime/poller/gen_pin.py, canary_readonly.py and probe_env.py. Pin (`main` of gen_pin.py,
--   and the canary's check of the pin), Secrets (its check of the file of settings), Checks (its
--   `main`), Probe (`main` of probe_env.py).
-- Tests: the theorems at concrete inputs.
--
-- The store, Linear, the clock, the random source and the dispatcher are parameters: actions on a
-- world of any type, which can raise. The heartbeat thread may wake up any number of times before
-- each action of the main thread, as a list of numbers says. A round of the thread is one step: its
-- call and its reaction are not interleaved with the main thread, and a round that the end of the
-- run interrupts is finished before the main thread goes on, as `join` does.
--
-- Python's frozensets are lists in which no element stands twice, in any order. Integers of payloads
-- are signed; floats are not modelled. The wait loop of Kanban runs on fuel: `timeout_seconds`
-- divided by `poll_seconds`, rounded up, and one more is enough, since a pause takes its time.
-- Times are natural numbers of some unit. Log lines are left out.
--
-- A tick reads settings from the environment when its module is loaded; the numbers among them are
-- parameters (`float()` is not modelled), and the state of blocked issues is read from the
-- environment. `int()` reads ASCII digits only. The headers of an answer stand under their usual
-- capital letters.
--
-- The pin, the canary and the probe work on a record of what they see of the machine: digests of
-- files, return codes, what can be imported, and the answers of the board and of Supabase.
--
-- Not modelled: the import test selftest_tick_import.py, which prints what the interpreter imports,
-- and the SQL functions behind Supabase.
pub mod Base
pub mod Payloads
pub mod Runtime
pub mod Chain
pub mod Guard
pub mod Kanban
pub mod Supabase
pub mod Canary
pub mod Clients
pub mod Env
pub mod Tests
pub mod Tick
