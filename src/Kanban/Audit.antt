-- ===== src/Kanban/Audit.antt =====
-- What the payload contract makes of the events of the dispatcher.
use hermes_agent_runtime.Base.{◌≡◌, refl, Option, none, some, [], String, ◌<>◌}
use hermes_agent_runtime.Base.{string_eq}
use hermes_agent_runtime.Base.Result.{err}
use hermes_agent_runtime.Payloads.Value.{Payload}
use hermes_agent_runtime.Payloads.Validate.{invalid, Checked}
use hermes_agent_runtime.Payloads.Event.{mapping, validate_event_payload}
use hermes_agent_runtime.Kanban.Snapshot.{
  KanbanTaskSnapshot, latest_outcome, event_payload, truthy, card_payload,
}
use hermes_agent_runtime.Runtime.Context.{ExecutionContext}

abbrev pub refused : String → Checked Payload
refused event_type =
    err (invalid ("Unsupported payload fields for " <> event_type <> ": kanban_outcome"))

refused_with :
    (context : ExecutionContext) (s : KanbanTaskSnapshot) (assignee : Option String)
    (outcome : String)
    → let payload = mapping (card_payload context s assignee (some outcome)) in
      (validate_event_payload "kanban.dispatched" payload ≡ refused "kanban.dispatched")
      × (validate_event_payload "kanban.timeout" payload ≡ refused "kanban.timeout")
unfolding validate_event_payload string_eq
refused_with context s none outcome = (refl, refl)
refused_with context s (some name) outcome = (refl, refl)

-- While the latest run of a card has an outcome, the contract refuses the events
-- `kanban.dispatched` and `kanban.timeout` that the dispatcher makes of it: they carry the field
-- `kanban_outcome`, which their contracts do not name.
pub event_payload-refused :
    (context : ExecutionContext) (s : KanbanTaskSnapshot) (outcome : String)
    → latest_outcome s.latest_run ≡ some outcome
    → let payload = mapping (event_payload context s []) in
      (validate_event_payload "kanban.dispatched" payload ≡ refused "kanban.dispatched")
      × (validate_event_payload "kanban.timeout" payload ≡ refused "kanban.timeout")
unfolding event_payload
event_payload-refused context s outcome h =
    rw h (refused_with context s (truthy s.assignee) outcome)
