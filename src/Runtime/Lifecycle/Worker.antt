-- ===== src/Runtime/Lifecycle/Worker.antt =====
-- The clauses of the `try` statement of `execute`, and the statement.
use hermes_agent_runtime.Base.{Bool, true, false, List, []}
use hermes_agent_runtime.Base.Result.{ok}
use hermes_agent_runtime.Payloads.Value.{Payload}
use hermes_agent_runtime.Payloads.Event.{mapping, validate_event_payload}
use hermes_agent_runtime.Runtime.Exceptions.{Exception, Call}
use hermes_agent_runtime.Runtime.Context.{ExecutionContext, ExecutionResult, result_fields}
use hermes_agent_runtime.Runtime.Events.{checked}
use hermes_agent_runtime.Runtime.Machine.{
  Dispatch, Request, Machine, pure, lift, ◌>>=◌, ◌>>◌, raise_if, run_dispatch, join,
}
use hermes_agent_runtime.Runtime.Execute.{
  AgentRuntime, MoveStatus, call, move, stop_worker, store_event, finish, persist_events,
  check_heartbeat, dispatched, conclude, complete, supervise, gates_incomplete,
}
use hermes_agent_runtime.Runtime.Triple.{Post, Post-mono, >>=-Post, >>-Post}
use hermes_agent_runtime.Runtime.Protocol.{
  Phase, claimed, working, completing, before_dispatch, after_dispatch, IsUnfinished, still_open,
  after_completion, moves, stores, dispatches, completes,
}
use hermes_agent_runtime.Runtime.Lifecycle.Heartbeat
use hermes_agent_runtime.Runtime.Lifecycle.Calls

module _ {W : Type 0} (runtime : AgentRuntime W) (move_status : MoveStatus W)
    (context : ExecutionContext) (base : List Request) where
  open runtime use {store, ttl_seconds}

  abbrev Follows : Phase → Machine W → Type 0
  Follows = Calls.Follows runtime move_status context base

  abbrev Quiet : Phase → Machine W → Type 0
  Quiet = Calls.Quiet runtime move_status context base

  abbrev Raised : Machine W → Type 0
  Raised = Calls.Raised runtime move_status context base

  -- A step of the stopped worker, inside the `try` clause
  quietly :
      {A : Type 0} {p : Phase}
      → IsUnfinished p
      → (o : Call A × Machine W) → Post (λ _. Quiet p) (λ _. Quiet p) o
      → Post (λ _. Quiet p) (λ _. Raised) o
  quietly {A} {p} u o h =
      Post-mono (λ _. Quiet p) (λ _. Quiet p) (λ _. Quiet p) (λ _. Raised) (λ _ _ q. q)
        (λ _ _ q. Calls.stopped u q) o h

  -- A test changes nothing.
  raise_if-Post :
      {p : Phase}
      → IsUnfinished p
      → (b : Bool) (e : Exception) (m : Machine W) → Quiet p m
      → Post (λ _. Quiet p) (λ _. Raised) (raise_if b e m)
  raise_if-Post u true e m h = Calls.stopped u h
  raise_if-Post u false e m h = h

  finish_completed :
      (result : ExecutionResult) (m : Machine W)
      → Quiet working m
      → Post
          (λ _. Quiet completing)
          (λ _. Raised)
          ((finish runtime move_status context "completed" (result_fields result) >> pure context)
            m)
  finish_completed result m h =
      >>-Post (Quiet completing) (λ _. Quiet completing) (λ _. Raised)
        (finish runtime move_status context "completed" (result_fields result)) (pure context) m
        (quietly after_completion _
          (Calls.finish-Quiet runtime move_status context base "completed" _ m (completes _) h))
        (λ _ q. q)

  conclude-Quiet :
      (result : ExecutionResult) (m : Machine W)
      → Quiet working m
      → Post (λ _. Quiet completing) (λ _. Raised) (conclude runtime move_status context result m)
  unfolding conclude
  conclude-Quiet result m h =
      let u = still_open after_dispatch in
      let rest =
        finish runtime move_status context "completed" (result_fields result) >> pure context in
      >>-Post (Quiet working) (λ _. Quiet completing) (λ _. Raised) (raise_if _ _)
        (move runtime move_status context "In Review" >> rest) m
        (raise_if-Post u (gates_incomplete context.agent result) _ m h)
        λ m' h'.
          >>-Post (Quiet working) (λ _. Quiet completing) (λ _. Raised)
            (move runtime move_status context "In Review") rest m'
            (quietly u _ (
              Calls.move-Quiet runtime move_status context base "In Review" m'
                (moves "In Review" after_dispatch) h'))
            (finish_completed result)

  complete-Quiet :
      (result : ExecutionResult) (m : Machine W)
      → Follows working m
      → Post (λ _. Quiet completing) (λ _. Raised) (complete runtime move_status context result m)
  unfolding complete stop_worker check_heartbeat
  complete-Quiet result m t =
      let u = still_open after_dispatch in
      let rest =
        check_heartbeat runtime move_status context
        >> conclude runtime move_status context result in
      >>-Post (Quiet working) (λ _. Quiet completing) (λ _. Raised)
        (persist_events runtime move_status context result.events) rest
        (join store context ttl_seconds m)
        (quietly u _ (
          Calls.persist_events-Quiet runtime move_status context base u result.events _
            (Heartbeat.join-Quiet store context ttl_seconds base after_dispatch m t)))
        λ m' h.
          >>-Post (Quiet working) (λ _. Quiet completing) (λ _. Raised)
            (check_heartbeat runtime move_status context)
            (conclude runtime move_status context result) m' (raise_if-Post u _ _ m' h)
            (conclude-Quiet result)

  dispatched-Follows :
      (work : Dispatch W) (m : Machine W)
      → Follows claimed m
      → Post (λ _. Follows working) (λ _. Raised) (dispatched runtime move_status context work m)
  unfolding dispatched
  dispatched-Follows work m t =
      Post-mono (λ _. Follows working) (λ _. Follows working) (λ _. Follows working) (λ _. Raised)
        (λ _ _ h. h) (λ _ _ h. Calls.running after_dispatch h) _
        (>>-Post (Follows working) (λ _. Follows working) (λ _. Follows working)
          (call runtime move_status context (Request.dispatch context) (λ w. (ok tt, w)))
          (run_dispatch store context ttl_seconds work) m
          (Heartbeat.perform-Follows store context ttl_seconds base (Request.dispatch context)
            (λ w. (ok tt, w)) m before_dispatch dispatches t)
          (Heartbeat.run_dispatch-Follows store context ttl_seconds base after_dispatch work))

  dispatch_event-Follows :
      (payload : Payload) (m : Machine W)
      → Follows claimed m
      → Post
          (λ _. Follows claimed)
          (λ _. Raised)
          (store_event runtime move_status context "agent.dispatched" payload m)
  unfolding store_event
  dispatch_event-Follows payload m t =
      Post-mono (λ _. Follows claimed) (λ _. Follows claimed) (λ _. Follows claimed) (λ _. Raised)
        (λ _ _ h. h) (λ _ _ h. Calls.running before_dispatch h) _
        (Heartbeat.perform-Follows store context ttl_seconds base
          (Request.event context "agent.dispatched" payload)
          (store.event context "agent.dispatched" payload) m before_dispatch
          (stores "agent.dispatched" payload (still_open before_dispatch)) t)

  pub supervise-Post :
      (work : Dispatch W) (m : Machine W)
      → Follows claimed m
      → Post (λ _. Quiet completing) (λ _. Raised) (supervise runtime move_status context work m)
  unfolding supervise
  supervise-Post work m t =
      let dispatching = λ (payload : Payload).
        store_event runtime move_status context "agent.dispatched" payload
        >> (dispatched runtime move_status context work >>= complete runtime move_status context) in
      let start_event = checked (validate_event_payload "agent.dispatched" (mapping [])) in
      >>-Post (Follows claimed) (λ _. Quiet completing) (λ _. Raised)
        (move runtime move_status context "In Progress") (lift start_event >>= dispatching) m
        (Calls.move-Follows runtime move_status context base before_dispatch "In Progress" m t)
        λ m₁ t₁.
          >>=-Post (λ _. Follows claimed) (λ _. Quiet completing) (λ _. Raised) (lift start_event)
            dispatching m₁
            (Post-mono (λ _. Follows claimed) (λ _. Follows claimed) (λ _. Follows claimed)
              (λ _. Raised) (λ _ _ h. h) (λ _ _ h. Calls.running before_dispatch h) _
              (Heartbeat.Post-both (Follows claimed) start_event m₁ t₁))
            λ payload m₂ t₂.
              >>-Post (Follows claimed) (λ _. Quiet completing) (λ _. Raised)
                (store_event runtime move_status context "agent.dispatched" payload)
                (dispatched runtime move_status context work
                  >>= complete runtime move_status context)
                m₂ (dispatch_event-Follows payload m₂ t₂)
                λ m₃ t₃.
                  >>=-Post (λ _. Follows working) (λ _. Quiet completing) (λ _. Raised)
                    (dispatched runtime move_status context work)
                    (complete runtime move_status context) m₃ (dispatched-Follows work m₃ t₃)
                    complete-Quiet
