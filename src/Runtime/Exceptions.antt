-- ===== src/Runtime/Exceptions.antt =====
-- What a call of the runtime can raise.
use hermes_agent_runtime.Base.{String, Bool, true, false, List}
use hermes_agent_runtime.Base.Result.{Result}
use hermes_agent_runtime.Payloads.Value.{Payload}

-- An event of a run: its type and its payload.
abbrev pub Event : Type 0
Event = String × Payload

-- `error` is any other `Exception`, with its class's name and its message. `interrupt` is a
-- `BaseException` that is no `Exception`, such as `KeyboardInterrupt`.
pub data Exception : Type 0 where
  run_conflict : String → Exception
  execution_blocked : String → Exception
  execution_event_error : String → List Event → Exception
  error : String → String → Exception
  interrupt : String → Exception

abbrev pub Call : Type 0 → Type 0
Call A = Result Exception A

-- `type(exc).__name__`
abbrev pub type_name : Exception → String
type_name (run_conflict _) = "RunConflict"
type_name (execution_blocked _) = "ExecutionBlocked"
type_name (execution_event_error _ _) = "ExecutionEventError"
type_name (error name _) = name
type_name (interrupt name) = name

-- `isinstance(exc, Exception)`
abbrev pub is_exception : Exception → Bool
is_exception (interrupt _) = false
is_exception _ = true

-- `isinstance(exc, ExecutionBlocked)`
abbrev pub is_blocked : Exception → Bool
is_blocked (execution_blocked _) = true
is_blocked _ = false
