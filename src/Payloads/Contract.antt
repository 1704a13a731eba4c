-- ===== src/Payloads/Contract.antt =====
-- The tables of payloads.py: the fields of each event, the enumerations, the field classes, and
-- the words that no text may hold.
use hermes_agent_runtime.Base.{String, Option, List, [], ◌∷◌, string_eq}
use hermes_agent_runtime.Base.Dict.{Dict, lookup}

-- The fields that every Kanban event may name.
abbrev pub run_fields : List String
run_fields = "run_id" ∷ "linear_issue_id" ∷ "agent" ∷ []

-- `_EVENT_FIELDS`: the required fields of an event type, and the optional ones.
abbrev pub event_table : Dict (List String × List String)
event_table =
    ("run.created", ([], []))
    ∷ ("lock.acquired", ("ttl_seconds" ∷ "expires_at" ∷ [], []))
    ∷ ("run.started", ([], "linear_status_to" ∷ "risk" ∷ "execution_mode" ∷ "environment" ∷ []))
    ∷ ("agent.dispatched", ([], "kanban_task_id" ∷ "dispatch_backend" ∷ "status" ∷ "assignee" ∷ []))
    ∷ ("kanban.dispatched", ("kanban_task_id" ∷ "status" ∷ [], "assignee" ∷ run_fields))
    ∷ (
      "kanban.status_changed",
      ("kanban_task_id" ∷ "status" ∷ [], "assignee" ∷ "kanban_outcome" ∷ run_fields),
    )
    ∷ (
      "kanban.completed",
      (
        "kanban_task_id" ∷ "status" ∷ [],
        "commit_sha" ∷ "pull_request_url" ∷ "railway_deployment_id" ∷ "tests_status"
            ∷ "review_status" ∷ "assignee" ∷ "kanban_outcome" ∷ run_fields,
      ),
    )
    ∷ (
      "kanban.blocked",
      (
        "kanban_task_id" ∷ "status" ∷ [],
        "tests_status" ∷ "review_status" ∷ "assignee" ∷ "kanban_outcome" ∷ run_fields,
      ),
    )
    ∷ (
      "kanban.failed",
      ("kanban_task_id" ∷ "status" ∷ "kanban_outcome" ∷ [], "assignee" ∷ run_fields),
    )
    ∷ ("kanban.timeout", ("kanban_task_id" ∷ "status" ∷ [], "assignee" ∷ run_fields))
    ∷ (
      "tests.completed",
      (
        "tests_status" ∷ [],
        "command" ∷ "exit_code" ∷ "total" ∷ "passed" ∷ "failed" ∷ "skipped" ∷ "duration_ms"
            ∷ "artifact_path" ∷ [],
      ),
    )
    ∷ (
      "review.completed",
      ("review_status" ∷ [], "reviewer" ∷ "artifact_path" ∷ "pull_request_url" ∷ []),
    )
    ∷ (
      "deploy.requested",
      ("environment" ∷ [], "requested_by" ∷ "pull_request_url" ∷ "commit_sha" ∷ []),
    )
    ∷ (
      "deploy.completed",
      (
        "railway_deployment_id" ∷ "environment" ∷ "deploy_status" ∷ [],
        "deployment_url" ∷ "commit_sha" ∷ "duration_ms" ∷ [],
      ),
    )
    ∷ (
      "run.completed",
      (
        [],
        "commit_sha" ∷ "pull_request_url" ∷ "railway_deployment_id" ∷ "tests_status"
            ∷ "review_status" ∷ [],
      ),
    )
    ∷ ("run.failed", ("error" ∷ [], "error_code" ∷ "kanban_task_id" ∷ "kanban_outcome" ∷ []))
    ∷ (
      "run.blocked",
      ("error" ∷ [], "blocked_reason" ∷ "kanban_task_id" ∷ "tests_status" ∷ "review_status" ∷ []),
    )
    ∷ ("run.canceled", ([], "canceled_by" ∷ "reason" ∷ []))
    ∷ ("lock.released", ([], "finished_status" ∷ []))
    ∷ ("lock.rejected", ("reason" ∷ [], "attempted_run_id" ∷ []))
    ∷ ("lock.expired", ("expired_at" ∷ [], "last_heartbeat_at" ∷ "ttl_seconds" ∷ []))
    ∷ ("lock.recovered", ([], "recovered_by" ∷ "previous_run_id" ∷ []))
    ∷ []

unfoldable pub event_fields : String → Option (List String × List String)
unfolding lookup
event_fields event_type = lookup event_type event_table

-- `_ENUMS`
abbrev pub enum_table : Dict (List String)
enum_table =
    ("tests_status", "passed" ∷ "failed" ∷ "skipped" ∷ [])
    ∷ ("review_status", "approved" ∷ "changes_requested" ∷ "blocked" ∷ [])
    ∷ ("deploy_status", "succeeded" ∷ "failed" ∷ "canceled" ∷ [])
    ∷ ("environment", "local" ∷ "preview" ∷ "staging" ∷ "production" ∷ [])
    ∷ ("reason", "RunConflict" ∷ [])
    ∷ []

abbrev pub deploy_environments : List String
deploy_environments = "preview" ∷ "staging" ∷ "production" ∷ []

abbrev pub int_fields : List String
int_fields =
    "ttl_seconds" ∷ "total" ∷ "passed" ∷ "failed" ∷ "skipped" ∷ "duration_ms" ∷ "exit_code" ∷ []

abbrev pub url_fields : List String
url_fields = "pull_request_url" ∷ "deployment_url" ∷ []

-- The keys of `_ID_PATTERNS`, each naming its regular expression.
pub data IdPattern : Type 0 where
  run_id kanban_task_id commit_sha : IdPattern

abbrev pub id_patterns : Dict IdPattern
id_patterns =
    ("run_id", run_id) ∷ ("kanban_task_id", kanban_task_id) ∷ ("commit_sha", commit_sha) ∷ []

abbrev pub secret_words : List String
secret_words =
    "token" ∷ "secret" ∷ "service_role" ∷ "authorization" ∷ "cookie" ∷ "connection string"
    ∷ "supabase_service_role_key" ∷ "linear_api_key" ∷ "github_token" ∷ "railway_token"
    ∷ "stack trace" ∷ "traceback" ∷ ".env" ∷ []
