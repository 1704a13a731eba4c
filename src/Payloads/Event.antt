-- ===== src/Payloads/Event.antt =====
-- `validate_event_payload`. The fields of a payload have distinct names, as those of a mapping do.
use hermes_agent_runtime.Base.{Bool, true, false, not, ◌&&◌, List, [], ◌∷◌, ◌++◌, String, ◌<>◌}
use hermes_agent_runtime.Base.{none, some, ◌==◌, string_eq, contains, select}
use hermes_agent_runtime.Base.Dict.{keys}
use hermes_agent_runtime.Base.Result.{ok, err, ◌>>=◌, ◌>>◌, raise_if}
use hermes_agent_runtime.Base.Sorting.{sorted, join}
use hermes_agent_runtime.Payloads.Value.{Payload, null}
use hermes_agent_runtime.Payloads.Contract.{event_fields}
use hermes_agent_runtime.Payloads.Validate.{Checked, invalid, validate_value}

-- The argument `payload`: `None`, a mapping, or anything else.
pub data Argument : Type 0 where
  absent : Argument
  mapping : Payload → Argument
  other : Argument

unfoldable pub candidate_of : Argument → Checked Payload
candidate_of absent = ok []
candidate_of (mapping p) = ok p
candidate_of other = err (invalid "Event payload must be a JSON object")

-- The names that are not in `allowed`
unfoldable pub outside : List String → List String → List String
unfolding select contains
outside allowed names = select (λ name. not (contains allowed name)) names

abbrev pub is_nil : List String → Bool
is_nil [] = true
is_nil (_ ∷ _) = false

-- `if names: raise PayloadValidationError(f"… for {event_type}: {', '.join(sorted(names))}")`
unfoldable pub refuse_names : String → String → List String → Checked (Unit {0})
unfolding sorted join
refuse_names what event_type names =
    raise_if (not (is_nil names))
      (invalid (what <> " for " <> event_type <> ": " <> join ", " (sorted names)))

-- The loop over the fields: a `None` is left out, any other value is checked.
unfoldable pub normalize : String → Payload → Checked Payload
unfolding validate_value
normalize event_type [] = ok []
normalize event_type ((key, null) ∷ fields) = normalize event_type fields
normalize event_type ((key, value) ∷ fields) = do
  validate_value event_type key value
  normalized ← normalize event_type fields
  ok ((key, value) ∷ normalized)

abbrev is_bare : Payload → Bool
is_bare [] = true
is_bare (_ ∷ _) = false

-- An `agent.dispatched` event with any metadata names its card.
unfoldable pub check_dispatched : String → Payload → Checked (Unit {0})
unfolding contains keys
check_dispatched event_type normalized =
    raise_if
      (event_type == "agent.dispatched"
        && not (is_bare normalized)
        && not (contains (keys normalized) "kanban_task_id"))
      (invalid "agent.dispatched payload with dispatch metadata must include kanban_task_id")

unfoldable pub validate_fields : String → List String → List String → Payload → Checked Payload
unfolding outside refuse_names normalize check_dispatched keys
validate_fields event_type required optional candidate = do
  refuse_names "Unsupported payload fields" event_type
      (outside (required ++ optional) (keys candidate))
  normalized ← normalize event_type candidate
  refuse_names "Missing payload fields" event_type (outside (keys normalized) required)
  check_dispatched event_type normalized
  ok normalized

unfoldable pub validate_event_payload : String → Argument → Checked Payload
unfolding event_fields candidate_of validate_fields
validate_event_payload event_type payload = elim (event_fields event_type) [
  | none ↦ err (invalid ("Unknown event type: " <> event_type))
  | some (required, optional) ↦ do
    candidate ← candidate_of payload
    validate_fields event_type required optional candidate
]
