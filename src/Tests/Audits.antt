-- ===== src/Tests/Audits.antt =====
-- Payloads that the contract accepts and refuses.
use hermes_agent_runtime.Base.{◌≡◌, refl, false, some, [], ◌∷◌, List, string_eq, ◌++◌, ◌==◌, String}
use hermes_agent_runtime.Base.Result.{ok}
use hermes_agent_runtime.Base.Dict.{keys, lookup}
use hermes_agent_runtime.Payloads.Value.{Payload, null, text}
use hermes_agent_runtime.Payloads.Contract.{event_fields}
use hermes_agent_runtime.Payloads.Validate.{holds_secret}
use hermes_agent_runtime.Payloads.Event.{Argument, mapping, outside, validate_event_payload}
use hermes_agent_runtime.Payloads.Closed.{
  validate_event_payload-fields, validate_event_payload-text, validate_event_payload-again,
}

abbrev given : Argument
given = mapping (("kanban_task_id", text "t_1") ∷ ("status", text "done") ∷ ("assignee", null) ∷ [])

abbrev kept : Payload
kept = ("kanban_task_id", text "t_1") ∷ ("status", text "done") ∷ []

given_accepted : validate_event_payload "kanban.dispatched" given ≡ ok kept
unfolding validate_event_payload string_eq
given_accepted = refl

kept_status : lookup "status" kept ≡ some (text "done")
unfolding lookup string_eq
kept_status = refl

validate_event_payload-fields_example :
    (required : List String) × (optional : List String) × (event_fields "kanban.dispatched"
      ≡ some (required, optional))
    × (outside (required ++ optional) (keys kept) ≡ [])
    × (outside (keys kept) required ≡ [])
validate_event_payload-fields_example =
    validate_event_payload-fields "kanban.dispatched" given kept given_accepted

validate_event_payload-text_example :
    (◌==◌ {A = String} "done" "" ≡ false) × (holds_secret "done" ≡ false)
validate_event_payload-text_example =
    validate_event_payload-text "kanban.dispatched" given kept "status" "done" given_accepted
      kept_status

validate_event_payload-again_example :
    validate_event_payload "kanban.dispatched" (mapping kept) ≡ ok kept
validate_event_payload-again_example =
    validate_event_payload-again "kanban.dispatched" given kept given_accepted
