-- ===== src/Runtime/Lifecycle/Calls.antt =====
-- The calls that the main thread makes, and the phases between which they lead.
use hermes_agent_runtime.Base.{none, some, List, [], ◌∷◌, String}
use hermes_agent_runtime.Payloads.Value.{Payload}
use hermes_agent_runtime.Runtime.Exceptions.{Event}
use hermes_agent_runtime.Runtime.Context.{ExecutionContext}
use hermes_agent_runtime.Runtime.Events.{normalize_events}
use hermes_agent_runtime.Runtime.Machine.{Request, Machine, lift}
use hermes_agent_runtime.Runtime.Execute.{
  AgentRuntime, MoveStatus, move, store_event, finish, store_events, persist_events,
}
use hermes_agent_runtime.Runtime.Triple.{Post, Post-mono, >>=-Post}
use hermes_agent_runtime.Runtime.Protocol.{Phase, IsOpen, IsUnfinished, Step, moves, stores}
use hermes_agent_runtime.Runtime.Lifecycle.Heartbeat

module _ {W : Type 0} (runtime : AgentRuntime W) (move_status : MoveStatus W)
    (context : ExecutionContext) (base : List Request) where
  open runtime use {store, ttl_seconds}

  abbrev pub Follows : Phase → Machine W → Type 0
  Follows = Heartbeat.Follows store context ttl_seconds base

  abbrev pub Quiet : Phase → Machine W → Type 0
  Quiet = Heartbeat.Quiet store context ttl_seconds base

  abbrev move_request : String → Request
  move_request status = Request.move_status context.linear_issue_id status

  -- Where an exception leaves the machine: the worker runs, or is stopped
  pub data Raised (m : Machine W) : Type 0 where
    running : {p : Phase} → IsOpen p → Follows p m → Raised m
    stopped : {p : Phase} → IsUnfinished p → Quiet p m → Raised m

  pub move-Follows :
      {p : Phase}
      → IsOpen p
      → (status : String) (m : Machine W) → Follows p m
      → Post (λ _. Follows p) (λ _. Raised) (move runtime move_status context status m)
  unfolding move
  move-Follows {p} o status m t = go move_status
    where
      go :
          (u : MoveStatus W) → Post (λ _. Follows p) (λ _. Raised) (move runtime u context status m)
      go none = t
      go (some update) =
          Post-mono (λ _. Follows p) (λ _. Follows p) (λ _. Follows p) (λ _. Raised) (λ _ _ h. h)
            (λ _ _ h. running o h) _
            (Heartbeat.perform-Follows store context ttl_seconds base (move_request status)
              (update context.linear_issue_id status) m o (moves status o) t)

  pub move-Quiet :
      {p : Phase} (status : String) (m : Machine W)
      → Step context ttl_seconds p (Request.move_status context.linear_issue_id status) p
      → Quiet p m
      → Post (λ _. Quiet p) (λ _. Quiet p) (move runtime move_status context status m)
  unfolding move
  move-Quiet {p} status m s h = go move_status
    where
      go : (u : MoveStatus W) → Post (λ _. Quiet p) (λ _. Quiet p) (move runtime u context status m)
      go none = h
      go (some update) =
          Heartbeat.perform-Quiet store context ttl_seconds base (move_request status)
            (update context.linear_issue_id status) m s h

  pub finish-Quiet :
      {p q : Phase} (status : String) (fields : Payload) (m : Machine W)
      → Step context ttl_seconds p (Request.finish context status fields) q
      → Quiet p m
      → Post (λ _. Quiet q) (λ _. Quiet q) (finish runtime move_status context status fields m)
  unfolding finish
  finish-Quiet status fields m s h =
      Heartbeat.perform-Quiet store context ttl_seconds base (Request.finish context status fields)
        (store.finish context status fields) m s h

  pub store_event-Quiet :
      {p : Phase}
      → IsUnfinished p
      → (kind : String) (payload : Payload) (m : Machine W) → Quiet p m
      → Post (λ _. Quiet p) (λ _. Quiet p) (store_event runtime move_status context kind payload m)
  unfolding store_event
  store_event-Quiet u kind payload m h =
      Heartbeat.perform-Quiet store context ttl_seconds base (Request.event context kind payload)
        (store.event context kind payload) m (stores kind payload u) h

  store_events-Quiet :
      {p : Phase}
      → IsUnfinished p
      → (events : List Event) (m : Machine W) → Quiet p m
      → Post (λ _. Quiet p) (λ _. Quiet p) (store_events runtime move_status context events m)
  unfolding store_events
  store_events-Quiet u [] m h = h
  store_events-Quiet {p} u ((kind, payload) ∷ events) m h =
      >>=-Post (λ _. Quiet p) (λ _. Quiet p) (λ _. Quiet p)
        (store_event runtime move_status context kind payload)
        (λ _. store_events runtime move_status context events) m
        (store_event-Quiet u kind payload m h) (λ _ m' h'. store_events-Quiet u events m' h')

  pub persist_events-Quiet :
      {p : Phase}
      → IsUnfinished p
      → (events : List Event) (m : Machine W) → Quiet p m
      → Post (λ _. Quiet p) (λ _. Quiet p) (persist_events runtime move_status context events m)
  unfolding persist_events
  persist_events-Quiet {p} u events m h =
      >>=-Post (λ _. Quiet p) (λ _. Quiet p) (λ _. Quiet p) (lift (normalize_events [] events))
        (store_events runtime move_status context) m
        (Heartbeat.Post-both (Quiet p) (normalize_events [] events) m h)
        (λ normalized m' h'. store_events-Quiet u normalized m' h')
