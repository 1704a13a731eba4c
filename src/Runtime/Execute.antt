-- ===== src/Runtime/Execute.antt =====
-- `AgentRuntime.execute`, with the clauses of its `try` statement as functions of their own.
use hermes_agent_runtime.Base.{
  ℕ, ◌*◌, Bool, true, false, not, ◌&&◌, ◌||◌, String, Option, none, some,
}
use hermes_agent_runtime.Base.{List, [], ◌∷◌, ◌==◌, string_eq, contains, if◌then◌else◌, ltb, leb}
use hermes_agent_runtime.Base.Result.{ok, err}
use hermes_agent_runtime.Payloads.Value.{Payload, text}
use hermes_agent_runtime.Payloads.Event.{mapping, validate_event_payload}
use hermes_agent_runtime.Runtime.Exceptions.{
  Event, Exception, Call, run_conflict, execution_blocked, execution_event_error, error, type_name,
  is_blocked,
}
use hermes_agent_runtime.Runtime.Labels.{Issue, Classification, classify_issue}
use hermes_agent_runtime.Runtime.Context.{
  ExecutionContext, ExecutionResult, new_run_id, result_fields,
}
use hermes_agent_runtime.Runtime.Events.{checked, normalize_events}
use hermes_agent_runtime.Runtime.Machine.{
  Action, Store, Dispatch, Request, M, pure, raise, lift, try_except, ◌>>=◌, ◌>>◌, raise_if,
  perform, run_dispatch, join,
}

pub record AgentRuntime (W : Type 0) : Type 0 where
  pub store : Store W
  pub ttl_seconds : ℕ
  pub heartbeat_seconds : ℕ

-- `AgentRuntime.__init__`. A negative number of seconds is refused as 0 is.
unfoldable pub agent_runtime : {W : Type 0} → Store W → ℕ → ℕ → Call (AgentRuntime W)
agent_runtime store ttl_seconds heartbeat_seconds =
    if ltb ttl_seconds 10 || ltb heartbeat_seconds 1 || leb ttl_seconds (heartbeat_seconds * 2)
    then err (error "ValueError" "heartbeat must be less than half the lock TTL")
    else ok
        (record { store = store; ttl_seconds = ttl_seconds; heartbeat_seconds = heartbeat_seconds })

-- The agents whose runs need passed tests and an approved review
abbrev pub gated_agents : List String
gated_agents = "dev-backend" ∷ "dev-frontend" ∷ "devops" ∷ []

-- `value == expected`, for a value that may be `None`
abbrev pub is_value : Option String → String → Bool
is_value none expected = false
is_value (some value) expected = value == expected

unfoldable pub gates_incomplete : String → ExecutionResult → Bool
unfolding contains
gates_incomplete agent result =
    contains gated_agents agent
    && (not (is_value result.tests_status "passed")
        || not (is_value result.review_status "approved"))

abbrev pub MoveStatus : Type 0 → Type 0
MoveStatus W = Option (String → String → Action W (Unit {0}))

-- The end of the handler: the error's name goes into the store, its message does not.
abbrev pub error_fields : String → Payload
error_fields name = ("error", text name) ∷ ("error_code", text name) ∷ []

-- The name that is stored: that of what went wrong last. `none` says that it is still `exc` itself.
abbrev pub error_name : Exception → Option Exception → String
error_name (execution_event_error name _) none = name
error_name exc none = type_name exc
error_name exc (some later) = type_name later

abbrev pub final_error : Exception → Option Exception → Exception
final_error exc none = exc
final_error exc (some later) = later

abbrev pub final_status : Exception → String
final_status exc = if is_blocked exc then "blocked" else "failed"

module _ {W : Type 0} (runtime : AgentRuntime W) (move_status : MoveStatus W)
    (context : ExecutionContext) where
  open runtime use {store, ttl_seconds}

  -- A call by the main thread, beside the heartbeat thread
  abbrev pub call : {A : Type 0} → Request → Action W A → M W A
  call = perform store context ttl_seconds

  unfoldable pub move : String → M W (Unit {0})
  unfolding perform
  move status = elim move_status [
    | none ↦ pure tt
    | some update ↦
        call (Request.move_status context.linear_issue_id status)
          (update context.linear_issue_id status)
  ]

  unfoldable pub stop_worker : M W (Unit {0})
  unfolding join
  stop_worker m = (ok tt, join store context ttl_seconds m)

  unfoldable pub store_event : String → Payload → M W (Unit {0})
  unfolding perform
  store_event kind payload =
      call (Request.event context kind payload) (store.event context kind payload)

  unfoldable pub finish : String → Payload → M W (Unit {0})
  unfolding perform
  finish status fields =
      call (Request.finish context status fields) (store.finish context status fields)

  unfoldable pub store_events : List Event → M W (Unit {0})
  unfolding store_event
  store_events [] = pure tt
  store_events ((kind, payload) ∷ events) = store_event kind payload >> store_events events

  unfoldable pub persist_events : List Event → M W (Unit {0})
  unfolding normalize_events store_events
  persist_events events = do normalized ← lift (normalize_events [] events); store_events normalized

  abbrev pub is_nil : List Exception → Bool
  is_nil [] = true
  is_nil (_ ∷ _) = false

  unfoldable pub check_heartbeat : M W (Unit {0})
  check_heartbeat m =
      raise_if (not (is_nil m.heartbeat_errors))
        (error "RuntimeError" "Heartbeat failed; execution outcome requires review") m

  -- The call of the dispatcher
  unfoldable pub dispatched : Dispatch W → M W ExecutionResult
  unfolding perform run_dispatch
  dispatched work = do
    call (Request.dispatch context) (λ w. (ok tt, w))
    run_dispatch store context ttl_seconds work

  -- The gates, and the end of a run that passes them
  unfoldable pub conclude : ExecutionResult → M W ExecutionContext
  unfolding gates_incomplete move finish
  conclude result = do
    raise_if (gates_incomplete context.agent result)
        (execution_blocked "Required test and review gates are incomplete")
    move "In Review"
    finish "completed" (result_fields result)
    pure context

  -- After the dispatcher has returned
  unfoldable pub complete : ExecutionResult → M W ExecutionContext
  unfolding stop_worker persist_events check_heartbeat conclude
  complete result = do stop_worker; persist_events result.events; check_heartbeat; conclude result

  -- The `try` clause
  unfoldable pub supervise : Dispatch W → M W ExecutionContext
  unfolding move store_event dispatched complete
  supervise work = do
    move "In Progress"
    payload ← lift (checked (validate_event_payload "agent.dispatched" (mapping [])))
    store_event "agent.dispatched" payload
    result ← dispatched work
    complete result

  -- The events that a failed dispatch carries are stored first. What goes wrong there takes the
  -- error's place, but for an interrupt, which ends the handler.
  unfoldable pub persist_failed : Exception → M W (Option Exception)
  unfolding persist_events
  persist_failed (execution_event_error name events) =
      try_except (persist_events events >> pure none) (λ later. pure (some later))
  persist_failed exc = pure none

  unfoldable pub move_blocked : Exception → M W (Unit {0})
  unfolding move
  move_blocked exc = if is_blocked exc then move "Blocked" else pure tt

  -- The `except` clause
  unfoldable pub recover_from : Exception → M W ExecutionContext
  unfolding stop_worker persist_failed move_blocked finish
  recover_from exc = do
    stop_worker
    later ← persist_failed exc
    move_blocked (final_error exc later)
    finish (final_status (final_error exc later)) (error_fields (error_name exc later))
    raise exc

  -- The `finally` clause, whatever happened before
  unfoldable pub at_last : {A : Type 0} → M W A → M W A
  unfolding join
  at_last body m = let (r, m') = body m in (r, join store context ttl_seconds m')

  unfoldable pub run_worker : Dispatch W → M W ExecutionContext
  unfolding supervise recover_from at_last
  run_worker work m =
      at_last (try_except (supervise work) recover_from)
        (record m { alive = true; heartbeat_errors = [] })

  -- A refused claim is reported to a store that wants to know.
  unfoldable pub reject : Exception → M W (Unit {0})
  unfolding perform
  reject (run_conflict message) = elim (store.lock_rejected) [
    | none ↦ raise (run_conflict message)
    | some report ↦ do
      call (Request.lock_rejected context "RunConflict") (report context "RunConflict")
      raise (run_conflict message)
  ]
  reject exc = raise exc

  unfoldable pub claim : M W (Unit {0})
  unfolding perform reject
  claim =
      try_except (call (Request.claim context ttl_seconds) (store.claim context ttl_seconds)) reject

module _ {W : Type 0} (runtime : AgentRuntime W) (move_status : MoveStatus W) where
  abbrev pub context_of : Issue → Classification → String → ExecutionContext
  context_of issue c run_id = record {
    run_id = run_id;
    linear_issue_id = issue.identifier;
    agent = c.assignee;
    risk = c.risk;
    execution_mode = c.mode;
    environment = c.environment;
  }

  -- `millis` and `bits` are what the clock and the random source answer.
  unfoldable pub execute : (ExecutionContext → Dispatch W) → ℕ → ℕ → Issue → M W ExecutionContext
  unfolding classify_issue new_run_id claim run_worker
  execute dispatch millis bits issue = do
    c ← lift (classify_issue issue)
    let context = context_of issue c (new_run_id millis bits)
    claim runtime move_status context
    run_worker runtime move_status context (dispatch context)
