-- ===== src/Tick/Main.antt =====
-- `main`: the parts of a tick are made from the environment, and the chain runs once.
use hermes_agent_runtime.Base.{ℕ, false, String, some, List, [], ◌∷◌, if◌then◌else◌}
use hermes_agent_runtime.Base.Dict.{Dict}
use hermes_agent_runtime.Base.Result.{ok, err}
use hermes_agent_runtime.Runtime.Exceptions.{Call, is_exception}
use hermes_agent_runtime.Runtime.Machine.{Action, Dispatch, Machine, M}
use hermes_agent_runtime.Runtime.Action.{pure, lift, ◌>>=◌}
use hermes_agent_runtime.Runtime.Execute.{AgentRuntime, agent_runtime, MoveStatus}
use hermes_agent_runtime.Chain.Selector.{LinearIssueSnapshot}
use hermes_agent_runtime.Chain.Poller.{Recorder}
use hermes_agent_runtime.Chain.Orchestrator.{OrchestratorRunResult, run_once}
use hermes_agent_runtime.Kanban.Adapter.{Adapter, checked_adapter, dispatch}
use hermes_agent_runtime.Supabase.Http.{Urlopen, SupabaseStore, from_environment}
use hermes_agent_runtime.Supabase.Store.{store_of}
use hermes_agent_runtime.Env.File.{Files}
use hermes_agent_runtime.Env.Process.{missing_required, export_into_environ}
use hermes_agent_runtime.Clients.Json.{Json}
use hermes_agent_runtime.Clients.Http.{Web}
use hermes_agent_runtime.Clients.Linear.{Linear, linear}
use hermes_agent_runtime.Tick.Board.{Board, start, read_task}
use hermes_agent_runtime.Tick.Nodes.{issues_in}
use hermes_agent_runtime.Tick.Issues.{
  todo_issues, move_issue_status, guarded_read_issues, resolve_bound, linear_status_states,
}

-- The numbers and names that the module reads from the environment when it is loaded
pub record Settings : Type 0 where
  pub team_key : String
  pub poll_seconds : ℕ
  pub run_timeout_seconds : ℕ
  pub claim_ttl_seconds : ℕ
  pub heartbeat_seconds : ℕ

-- What the tick does not implement
pub record Outside (W : Type 0) : Type 0 where
  pub files : Files
  pub web : Web W
  pub urlopen : Urlopen W
  pub board : Board W
  pub sleep : ℕ → W → W
  pub monotonic : W → ℕ
  pub source : ℕ → ℕ × ℕ

-- What `main` makes before it runs the chain
pub record Chain (W : Type 0) : Type 0 where
  pub runtime : AgentRuntime W
  pub adapter : Adapter W
  pub move_status : MoveStatus W
  pub read_issues : Action W (List LinearIssueSnapshot)

-- `record_blocked`, which only logs
abbrev pub log_blocked : {W : Type 0} → Recorder W
log_blocked = some (λ issue_id reason w. (ok tt, w))

-- Before the first run no heartbeat thread is there; `wakeups` says when those of the runs wake.
abbrev pub at_rest : {W : Type 0} → List ℕ → W → Machine W
at_rest wakeups w = record {
  world = w;
  alive = false;
  heartbeat_errors = [];
  wakeups = wakeups;
  log = [];
}

module _ {W : Type 0} (outside : Outside W) (settings : Settings) where
  open outside use {files, web, urlopen, board, sleep, monotonic, source}

  abbrev pub kanban_adapter : Adapter W
  kanban_adapter = record {
    start = start board;
    read_task = read_task board;
    sleep = sleep;
    monotonic = monotonic;
    poll_seconds = settings.poll_seconds;
    timeout_seconds = settings.run_timeout_seconds;
  }

  -- The parts, one after the other. `loaded` is the environment when the module was loaded, and
  -- `environ` the one with the settings of the file.
  module _ (loaded environ : Dict String) (client : Linear) where
    abbrev pub with_runtime : Dict Json → AgentRuntime W → Action W (Chain W)
    with_runtime issues runtime = do
      adapter ← lift (checked_adapter kanban_adapter)
      pure (record {
        runtime = runtime;
        adapter = adapter;
        move_status = some (move_issue_status web client (linear_status_states loaded) issues);
        read_issues =
            guarded_read_issues web client board (resolve_bound environ) settings.team_key;
      })

    abbrev pub with_store : Dict Json → SupabaseStore → Action W (Chain W)
    with_store issues store =
        lift (
          agent_runtime (store_of urlopen store) settings.claim_ttl_seconds
            settings.heartbeat_seconds)
        >>= with_runtime issues

    abbrev pub with_issues : Dict Json → Action W (Chain W)
    with_issues issues = lift (from_environment environ) >>= with_store issues

    abbrev pub with_answer : Json → Action W (Chain W)
    with_answer found = lift (issues_in found) >>= with_issues

    abbrev pub with_client : Action W (Chain W)
    with_client = todo_issues web client settings.team_key >>= with_answer

  abbrev pub with_environ : Dict String → Dict String → Action W (Chain W)
  with_environ loaded environ = lift (linear files) >>= with_client loaded environ

  unfoldable pub build : Dict String → Action W (Chain W)
  unfolding export_into_environ linear todo_issues issues_in from_environment store_of agent_runtime
      checked_adapter move_issue_status guarded_read_issues resolve_bound linear_status_states
  build loaded = lift (export_into_environ files loaded) >>= with_environ loaded

  -- The exit code: an error of the chain is logged, an interrupt goes on.
  abbrev pub exit_code : Call (List OrchestratorRunResult) → Call ℕ
  exit_code (ok results) = ok 0
  exit_code (err e) = if is_exception e then ok 1 else err e

  -- The chain. Each wait of the adapter has `fuel`, and goes on as `out` where it ends.
  unfoldable pub run_chain : Dispatch W → ℕ → Chain W → M W (List OrchestratorRunResult)
  unfolding run_once dispatch
  run_chain out fuel chain =
      run_once chain.runtime chain.move_status log_blocked
        (λ context. dispatch chain.adapter context out fuel) source log_blocked chain.read_issues

  abbrev pub run_built : Dispatch W → ℕ → List ℕ → Call (Chain W) → W → Call ℕ × Machine W
  run_built out fuel wakeups (err e) w = (err e, at_rest wakeups w)
  run_built out fuel wakeups (ok chain) w =
      let (results, m) = run_chain out fuel chain (at_rest wakeups w) in (exit_code results, m)

  -- With the settings all there, or some missing
  abbrev pub proceed :
      Dispatch W → ℕ → List ℕ → Dict String → Call (List String) → W → Call ℕ × Machine W
  proceed out fuel wakeups environ (err e) w = (err e, at_rest wakeups w)
  proceed out fuel wakeups environ (ok (_ ∷ _)) w = (ok 78, at_rest wakeups w)
  proceed out fuel wakeups environ (ok []) w =
      let (chain, w') = build environ w in run_built out fuel wakeups chain w'

  unfoldable pub main : Dispatch W → ℕ → List ℕ → Dict String → W → Call ℕ × Machine W
  unfolding build run_chain missing_required
  main out fuel wakeups environ w =
      proceed out fuel wakeups environ (missing_required files environ) w
