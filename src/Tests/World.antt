-- ===== src/Tests/World.antt =====
-- A world that is a clock, a store that accepts all, and an issue that may run.
use hermes_agent_runtime.Base.{ℕ, ◌+◌, true, false, [], ◌∷◌, some, none}
use hermes_agent_runtime.Base.Result.{ok}
use hermes_agent_runtime.Runtime.Labels.{Issue, Classification}
use hermes_agent_runtime.Runtime.Context.{ExecutionContext, ExecutionResult, new_run_id}
use hermes_agent_runtime.Runtime.Machine.{Store, Dispatch, Machine, returns}
use hermes_agent_runtime.Runtime.Execute.{AgentRuntime, MoveStatus}

abbrev pub easy_store : Store ℕ
easy_store = record {
  claim = λ _ _ w. (ok tt, w);
  heartbeat = λ _ _ w. (ok true, w + 1);
  event = λ _ _ _ w. (ok tt, w);
  finish = λ _ _ _ w. (ok tt, w);
  recover = λ _ w. (ok false, w);
  lock_rejected = none;
}

abbrev pub easy_runtime : AgentRuntime ℕ
easy_runtime = record { store = easy_store; ttl_seconds = 120; heartbeat_seconds = 30 }

abbrev pub silent : MoveStatus ℕ
silent = none

abbrev pub backend_issue : Issue
backend_issue = record {
  identifier = "HER-1";
  labels = "agent:backend" ∷ "risk:medium" ∷ [];
  status = "Todo";
}

abbrev pub backend_class : Classification
backend_class = record {
  assignee = "dev-backend";
  risk = "medium";
  mode = "auto";
  environment = "local";
}

abbrev pub backend_context : ExecutionContext
backend_context = record {
  run_id = new_run_id 5 7;
  linear_issue_id = "HER-1";
  agent = "dev-backend";
  risk = "medium";
  execution_mode = "auto";
  environment = "local";
}

abbrev pub good_result : ExecutionResult
good_result = record {
  commit_sha = none;
  pull_request_url = none;
  railway_deployment_id = none;
  tests_status = some "passed";
  review_status = some "approved";
  events = [];
}

abbrev pub good_work : ExecutionContext → Dispatch ℕ
good_work _ = returns (ok good_result)

-- The heartbeat thread wakes up twice before the third action.
abbrev pub fresh : Machine ℕ
fresh = record {
  world = 0;
  alive = false;
  heartbeat_errors = [];
  wakeups = 0 ∷ 0 ∷ 2 ∷ [];
  log = [];
}
