-- ===== src/Runtime/Events.antt =====
-- `_event_key`, and the first loop of `_persist_events`: every event is checked, and a repeated
-- one is left out, before any is stored.
use hermes_agent_runtime.Base.{true, false, String, Option, none, some, List, [], ◌∷◌}
use hermes_agent_runtime.Base.{Eq, string_dec, contains, if◌then◌else◌, pos}
use hermes_agent_runtime.Base.Dict.{lookup}
use hermes_agent_runtime.Base.Result.{ok, err, ◌>>=◌}
use hermes_agent_runtime.Base.Sorting.{sorted_by}
use hermes_agent_runtime.Payloads.Value.{Value, null, bool, int, Payload, Value-discrete}
use hermes_agent_runtime.Payloads.Validate.{Failure, invalid, bad_url, Checked}
use hermes_agent_runtime.Payloads.Event.{mapping, validate_event_payload}
use hermes_agent_runtime.Runtime.Exceptions.{Event, Call, Exception, error}

-- A card's key, or the kind and the payload's JSON text. Two such texts are equal exactly if the
-- payloads are, once sorted by name, so these stand for the text.
pub data Key : Type 0 where
  card : String → Value → Option Value → Option Value → Key
  json : String → List (String × Value) → Key

unfoldable pub Key-discrete : Discrete Key
Key-discrete = hlevel (string_dec, Value-discrete)

instance abbrev pub key_eq : Eq Key
key_eq = record { dec = Key-discrete }

-- In a tuple `True` equals 1 and `False` equals 0.
abbrev as_number : Value → Value
as_number (bool true) = int (pos 1)
as_number (bool false) = int (pos 0)
as_number v = v

abbrev as_numbers : Option Value → Option Value
as_numbers none = none
as_numbers (some v) = some (as_number v)

json_key : String → Payload → Key
unfolding sorted_by
json_key kind payload = json kind (sorted_by (λ (name, _). name) payload)

abbrev key_of : String → Payload → Option Value → Key
key_of kind payload none = json_key kind payload
key_of kind payload (some null) = json_key kind payload
key_of kind payload (some task_id) =
    card kind (as_number task_id) (as_numbers (lookup "status" payload))
      (as_numbers (lookup "kanban_outcome" payload))

unfoldable pub event_key : String → Payload → Key
unfolding lookup json_key
event_key kind payload = key_of kind payload (lookup "kanban_task_id" payload)

-- What a failed check raises
abbrev pub raised : Failure → Exception
raised (invalid message) = error "PayloadValidationError" message
raised bad_url = error "ValueError" "Invalid IPv6 URL"

abbrev pub checked : {A : Type 0} → Checked A → Call A
checked (ok a) = ok a
checked (err f) = err (raised f)

unfoldable pub normalize_events : List Key → List Event → Call (List Event)
unfolding event_key contains
normalize_events seen [] = ok []
normalize_events seen ((kind, payload) ∷ events) = do
  normalized ← checked (validate_event_payload kind (mapping payload))
  let key = event_key kind normalized
  let skip = normalize_events seen events
  let keep = do rest ← normalize_events (key ∷ seen) events; ok ((kind, normalized) ∷ rest)
  if contains seen key then skip else keep
