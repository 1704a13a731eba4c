-- ===== src/Runtime/Protocol.antt =====
-- What a run promises to the store, Linear and the dispatcher: the order of its calls, as a
-- relation between phases. It does not mention the code.
use hermes_agent_runtime.Base.{ℕ, ◌≢◌, String, List, ◌∷◌}
use hermes_agent_runtime.Payloads.Value.{Payload}
use hermes_agent_runtime.Runtime.Context.{ExecutionContext}
use hermes_agent_runtime.Runtime.Machine.{Request}

-- Before the claim; from the claim on; from the dispatch on; after `finish "completed"`; after
-- any other `finish`; after a rejected claim was reported.
pub data Phase : Type 0 where
  idle claimed working completing closed rejected : Phase

-- The phases in which the run owns its lock and its heartbeat may come
pub data IsOpen : Phase → Type 0 where
  before_dispatch : IsOpen claimed
  after_dispatch : IsOpen working

-- Those in which the run is not given up: the `finish "completed"` may have failed.
pub data IsUnfinished : Phase → Type 0 where
  still_open : {p : Phase} → IsOpen p → IsUnfinished p
  after_completion : IsUnfinished completing

module _ (context : ExecutionContext) (ttl : ℕ) where
  pub data Step : Phase → Request → Phase → Type 0 where
    claims : Step idle (Request.claim context ttl) claimed
    reports : (reason : String) → Step claimed (Request.lock_rejected context reason) rejected
    beats : {p : Phase} → IsOpen p → Step p (Request.heartbeat context ttl) p
    moves :
        {p : Phase} (status : String)
        → IsOpen p
        → Step p (Request.move_status context.linear_issue_id status) p
    stores :
        {p : Phase} (kind : String) (payload : Payload)
        → IsUnfinished p
        → Step p (Request.event context kind payload) p
    dispatches : Step claimed (Request.dispatch context) working
    completes :
        (fields : Payload) → Step working (Request.finish context "completed" fields) completing
    moves_late : Step completing (Request.move_status context.linear_issue_id "Blocked") completing
    closes :
        {p : Phase} (status : String) (fields : Payload)
        → IsUnfinished p
        → status ≢ "completed"
        → Step p (Request.finish context status fields) closed

  -- The calls that were made since the log was `base`, the latest first
  pub data Trace (base : List Request) : List Request → Phase → Type 0 where
    start : Trace base base idle
    extend :
        {log : List Request} {request : Request} {p q : Phase}
        → Trace base log p
        → Step p request q
        → Trace base (request ∷ log) q
