-- ===== src/Tests/Cards.antt =====
-- A dispatcher over a clock: its card is ready at first and done when it is read.
use hermes_agent_runtime.Base.{
  ℕ, ◌+◌, ◌≡◌, refl, none, some, [], ◌∷◌, string_eq, arith, leb, if◌then◌else◌,
}
use hermes_agent_runtime.Base.Result.{ok}
use hermes_agent_runtime.Payloads.Value.{text}
use hermes_agent_runtime.Payloads.Event.{mapping, validate_event_payload}
use hermes_agent_runtime.Runtime.Machine.{returns}
use hermes_agent_runtime.Kanban.Snapshot.{
  KanbanRunSnapshot, KanbanTaskSnapshot, event_payload, latest_outcome,
}
use hermes_agent_runtime.Kanban.Adapter.{Adapter, card, conclude, dispatch}
use hermes_agent_runtime.Kanban.Waiting.{Ticks, Ended, run_alone, dispatch-Ended}
use hermes_agent_runtime.Kanban.Fields.{conclude-fields, field_of}
use hermes_agent_runtime.Kanban.Audit.{event_payload-refused, refused}
use hermes_agent_runtime.Tests.World.{backend_context, good_result}

abbrev rerun : KanbanRunSnapshot
rerun = record {
  status = some "done";
  outcome = some "completed";
  summary = none;
  metadata = ("tests_status", text "failed") ∷ ("review_status", text "approved") ∷ [];
}

abbrev ready_card : KanbanTaskSnapshot
ready_card = record {
  task_id = "t_1";
  status = "ready";
  assignee = none;
  workspace_path = none;
  branch = none;
  result = none;
  metadata = ("tests_status", text "passed") ∷ [];
  latest_run = some rerun;
  child_statuses = [];
}

abbrev done_card : KanbanTaskSnapshot
done_card = record ready_card { status = "done" }

-- The card is done from the time 10 on.
abbrev pub board : Adapter ℕ
board = record {
  start = λ _ now. (ok (card "t_1"), now);
  read_task = λ _ now. (ok (if leb 10 now then done_card else ready_card), now);
  sleep = λ n now. now + n;
  monotonic = λ now. now;
  poll_seconds = 5;
  timeout_seconds = 60;
}

board-Ticks : Ticks board
board-Ticks = record {
  start_takes = λ context w. omega arith;
  sleep_takes = λ n w. omega arith;
  read_takes = λ task_id w. omega arith;
}

dispatch-Ended_example :
    Ended board backend_context 0
      (run_alone (dispatch board backend_context (returns (ok good_result)) 13) 0)
dispatch-Ended_example =
    dispatch-Ended board backend_context board-Ticks (returns (ok good_result)) 12 0 (omega arith)

conclude-fields_example :
    let result = conclude board backend_context done_card [] in
    (result.commit_sha ≡ field_of done_card "commit_sha")
    × (result.pull_request_url ≡ field_of done_card "pull_request_url")
    × (result.railway_deployment_id ≡ field_of done_card "railway_deployment_id")
    × (result.tests_status ≡ field_of done_card "tests_status")
    × (result.review_status ≡ field_of done_card "review_status")
conclude-fields_example = conclude-fields board backend_context done_card []

has_outcome : latest_outcome ready_card.latest_run ≡ some "completed"
unfolding string_eq
has_outcome = refl

event_payload-refused_example :
    let payload = mapping (event_payload backend_context ready_card []) in
    (validate_event_payload "kanban.dispatched" payload ≡ refused "kanban.dispatched")
    × (validate_event_payload "kanban.timeout" payload ≡ refused "kanban.timeout")
event_payload-refused_example =
    event_payload-refused backend_context ready_card "completed" has_outcome
