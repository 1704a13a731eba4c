-- ===== src/Kanban/Snapshot.antt =====
-- The read-only views of a card, and what kanban.py makes of them: result fields and event
-- payloads.
use hermes_agent_runtime.Base.{String, Option, none, some, List, [], ◌∷◌, ◌++◌}
use hermes_agent_runtime.Base.{◌==◌, string_eq, if◌then◌else◌}
use hermes_agent_runtime.Base.Dict.{Dict, lookup, insert, merge}
use hermes_agent_runtime.Payloads.Value.{Value, Payload, text}
use hermes_agent_runtime.Runtime.Exceptions.{Event}
use hermes_agent_runtime.Runtime.Context.{ExecutionContext, ExecutionResult}

pub record KanbanRunSnapshot : Type 0 where
  pub status : Option String
  pub outcome : Option String
  pub summary : Option String
  pub metadata : Payload

pub record KanbanTaskSnapshot : Type 0 where
  pub task_id : String
  pub status : String
  pub assignee : Option String
  pub workspace_path : Option String
  pub branch : Option String
  pub result : Option String
  pub metadata : Payload
  pub latest_run : Option KanbanRunSnapshot
  pub child_statuses : Dict String

-- A text that is not empty; else the field counts as missing.
abbrev pub truthy : Option String → Option String
truthy none = none
truthy (some s) = if s == "" then none else some s

abbrev as_text : Option Value → Option String
as_text none = none
as_text (some (text s)) = truthy (some s)
as_text (some _) = none

-- `_string_field`
unfoldable pub string_field : Payload → String → Option String
unfolding lookup
string_field metadata name = as_text (lookup name metadata)

-- `_ALLOWED_RESULT_FIELDS`, in one of the orders in which the set may be walked
abbrev pub allowed_result_fields : List String
allowed_result_fields =
    "commit_sha" ∷ "pull_request_url" ∷ "railway_deployment_id" ∷ "tests_status" ∷ "review_status"
    ∷ []

abbrev pub keep_field : String → Option String → Dict String → Dict String
keep_field name none rest = rest
keep_field name (some value) rest = (name, value) ∷ rest

unfoldable pub fields_of : Payload → List String → Dict String
unfolding string_field
fields_of metadata [] = []
fields_of metadata (name ∷ names) =
    keep_field name (string_field metadata name) (fields_of metadata names)

-- `_result_fields`
unfoldable pub result_fields : Payload → Dict String
unfolding fields_of
result_fields metadata = fields_of metadata allowed_result_fields

abbrev pub over_run : Option KanbanRunSnapshot → Dict String → Dict String
over_run none fields = fields
over_run (some run) fields = merge (result_fields run.metadata) fields

-- The fields of the task win over those of its latest run.
unfoldable pub card_fields : KanbanTaskSnapshot → Dict String
unfolding merge result_fields
card_fields snapshot = over_run snapshot.latest_run (result_fields snapshot.metadata)

unfoldable pub execution_result : Dict String → List Event → ExecutionResult
unfolding lookup
execution_result fields events = record {
  commit_sha = lookup "commit_sha" fields;
  pull_request_url = lookup "pull_request_url" fields;
  railway_deployment_id = lookup "railway_deployment_id" fields;
  tests_status = lookup "tests_status" fields;
  review_status = lookup "review_status" fields;
  events = events;
}

-- The outcome of the latest run, if it has one
abbrev pub latest_outcome : Option KanbanRunSnapshot → Option String
latest_outcome none = none
latest_outcome (some run) = truthy run.outcome

abbrev pub optional_field : String → Option String → Payload
optional_field name none = []
optional_field name (some value) = (name, text value) ∷ []

unfoldable pub add_extra : Dict String → Payload → Payload
unfolding insert
add_extra [] payload = payload
add_extra ((key, value) ∷ extra) payload = add_extra extra (insert key (text value) payload)

abbrev pub card_payload :
    ExecutionContext → KanbanTaskSnapshot → Option String → Option String → Payload
card_payload context snapshot assignee outcome =
    ("run_id", text context.run_id)
      ∷ ("linear_issue_id", text context.linear_issue_id)
      ∷ ("agent", text context.agent)
      ∷ ("kanban_task_id", text snapshot.task_id)
      ∷ ("status", text snapshot.status)
      ∷ optional_field "assignee" assignee
    ++ optional_field "kanban_outcome" outcome

-- `_event_payload`
unfoldable pub event_payload : ExecutionContext → KanbanTaskSnapshot → Dict String → Payload
unfolding add_extra
event_payload context snapshot extra =
    add_extra extra (
      card_payload context snapshot (truthy snapshot.assignee) (latest_outcome snapshot.latest_run))
