-- ===== src/Tick/Board.antt =====
-- `existing_cards`, `start` and `read_task`: the Kanban board, whose database is a parameter.
use hermes_agent_runtime.Base.{
  ℕ, Bool, not, ◌||◌, String, ◌<>◌, Option, none, some, List, [], ◌∷◌, ◌==◌, string_eq,
  if◌then◌else◌, contains,
}
use hermes_agent_runtime.Base.Dict.{Dict, lookup}
use hermes_agent_runtime.Payloads.Value.{Payload}
use hermes_agent_runtime.Runtime.Exceptions.{execution_blocked}
use hermes_agent_runtime.Runtime.Context.{ExecutionContext}
use hermes_agent_runtime.Runtime.Machine.{Action}
use hermes_agent_runtime.Runtime.Action.{pure, raise, ◌>>=◌}
use hermes_agent_runtime.Guard.Cards.{BoardTask, match_existing_cards}
use hermes_agent_runtime.Kanban.Snapshot.{KanbanRunSnapshot, KanbanTaskSnapshot, truthy}
use hermes_agent_runtime.Kanban.Adapter.{Started, card}

-- The arguments of `create_task`
pub record NewTask : Type 0 where
  pub title : String
  pub body : String
  pub assignee : String
  pub created_by : String
  pub workspace_kind : String
  pub priority : ℕ
  pub idempotency_key : String

-- The columns of a task and of a run that are read
pub record TaskRow : Type 0 where
  pub status : String
  pub assignee : Option String
  pub workspace_path : Option String
  pub branch_name : Option String
  pub result : Option String

pub record RunRow : Type 0 where
  pub status : Option String
  pub outcome : Option String
  pub summary : Option String
  pub metadata : Option Payload

-- The functions of `hermes_cli.kanban_db`, each with its connection
pub record Board (W : Type 0) : Type 0 where
  pub list_tasks : Action W (List BoardTask)
  pub create_task : NewTask → Action W String
  pub get_task : String → Action W (Option TaskRow)
  pub latest_run : String → Action W (Option RunRow)

-- The policy that `start` checks once more
unfoldable pub needs_human : ExecutionContext → Bool
unfolding contains
needs_human context =
    not (context.execution_mode == "auto")
    || contains ("high" ∷ "critical" ∷ []) context.risk
    || context.environment == "production"

unfoldable pub new_task : ExecutionContext → NewTask
new_task context = record {
  title = "[runtime] " <> context.linear_issue_id;
  body =
      "Runtime dispatch for Linear " <> context.linear_issue_id <> " (agent " <> context.agent
      <> ").\n\n"
      <> "Executar a implementacao descrita na issue Linear e concluir este card com evidencia.\n";
  assignee = context.agent;
  created_by = "runtime-poller";
  workspace_kind = "scratch";
  priority = 20;
  idempotency_key = "runtime:linear:" <> context.linear_issue_id;
}

abbrev pub metadata_of : Option RunRow → Payload
metadata_of none = []
metadata_of (some run) = elim (run.metadata) [ none ↦ [] | some metadata ↦ metadata ]

abbrev run_snapshot : Option RunRow → KanbanRunSnapshot
run_snapshot none = record { status = none; outcome = none; summary = none; metadata = [] }
run_snapshot (some run) = record {
  status = run.status;
  outcome = run.outcome;
  summary = run.summary;
  metadata = metadata_of (some run);
}

-- The snapshot of a task that is there, and of one that is not
unfoldable pub snapshot_of : String → TaskRow → Option RunRow → KanbanTaskSnapshot
snapshot_of task_id task run = record {
  task_id = task_id;
  status = task.status;
  assignee = task.assignee;
  workspace_path = task.workspace_path;
  branch = task.branch_name;
  result = task.result;
  metadata = metadata_of run;
  latest_run = some (run_snapshot run);
  child_statuses = [];
}

abbrev missing_snapshot : String → KanbanTaskSnapshot
missing_snapshot task_id = record {
  task_id = task_id;
  status = "missing";
  assignee = none;
  workspace_path = none;
  branch = none;
  result = none;
  metadata = [];
  latest_run = none;
  child_statuses = [];
}

module _ {W : Type 0} (board : Board W) where
  open board use {list_tasks, create_task, get_task, latest_run}

  unfoldable pub existing_cards : List String → Action W (Dict String)
  unfolding match_existing_cards
  existing_cards identifiers = do tasks ← list_tasks; pure (match_existing_cards tasks identifiers)

  abbrev pub create_card : ExecutionContext → Action W Started
  create_card context = do task_id ← create_task (new_task context); pure (card task_id)

  -- The card that is there, or a new one
  abbrev pub card_for : ExecutionContext → Option String → Action W Started
  card_for context none = create_card context
  card_for context (some existing) = pure (card existing)

  unfoldable pub start : ExecutionContext → Action W Started
  unfolding needs_human existing_cards lookup new_task
  start context =
      if needs_human context
      then raise (execution_blocked "dispatch guard: issue requires human intervention")
      else (existing_cards (context.linear_issue_id ∷ []) >>= λ existing.
          card_for context (truthy (lookup context.linear_issue_id existing)))

  abbrev with_run : String → TaskRow → Action W KanbanTaskSnapshot
  with_run task_id task = do run ← latest_run task_id; pure (snapshot_of task_id task run)

  abbrev pub snapshot_for : String → Option TaskRow → Action W KanbanTaskSnapshot
  snapshot_for task_id none = pure (missing_snapshot task_id)
  snapshot_for task_id (some task) = with_run task_id task

  unfoldable pub read_task : String → Action W KanbanTaskSnapshot
  unfolding snapshot_of
  read_task task_id = get_task task_id >>= snapshot_for task_id
