-- ===== src/Runtime/Completion/Gates.antt =====
-- What a run has shown when its last call, the `finish` as completed, returns.
use hermes_agent_runtime.Base.{◌≡◌, refl, ap, Bool, true, false, List, [], ◌∷◌}
use hermes_agent_runtime.Base.Result.{ok, err}
use hermes_agent_runtime.Runtime.Exceptions.{Event, Call, execution_blocked}
use hermes_agent_runtime.Runtime.Context.{ExecutionContext, ExecutionResult, result_fields}
use hermes_agent_runtime.Runtime.Events.{normalize_events}
use hermes_agent_runtime.Runtime.Machine.{
  Request, Machine, M, Dispatch, pure, lift, ◌>>=◌, ◌>>◌, raise_if, perform, join,
}
use hermes_agent_runtime.Runtime.Execute.{
  AgentRuntime, MoveStatus, move, stop_worker, finish, store_events, persist_events,
  check_heartbeat, dispatched, conclude, complete, gates_incomplete,
}
use hermes_agent_runtime.Runtime.Triple.{Post, Post-mono, >>-Post}
use hermes_agent_runtime.Runtime.Completion.Answers.{Answers, dispatched-Answers}
use hermes_agent_runtime.Runtime.Completion.Stored.{Kept, normalize_events-Kept}
use hermes_agent_runtime.Runtime.Completion.Calm

module _ {W : Type 0} (runtime : AgentRuntime W) (move_status : MoveStatus W)
    (context : ExecutionContext) where
  open runtime use {store, ttl_seconds}

  -- A run that is finished as completed. `result` is what the dispatcher has returned, at the machine
  -- `ended`, and it passes the gates. After the heartbeat thread has been joined, the calls are
  -- exactly: the result's events as they are kept, each sent to the store in their order; the move
  -- to review, if there is a callback; the `finish` with the fields of the result. No heartbeat has
  -- failed.
  pub record Completed (work : Dispatch W) (own : ExecutionContext) (m : Machine W) : Type 0 where
    pub same : own ≡ context
    pub result : ExecutionResult
    pub answers : Answers work result
    pub started : Machine W
    pub ended : Machine W
    pub ran : dispatched runtime move_status context work started ≡ (ok result, ended)
    pub stored : List Event
    pub kept : Kept [] result.events stored
    pub calls :
        m.log
        ≡ Request.finish context "completed" (result_fields result)
          ∷ Calm.moved runtime move_status context "In Review" (
              Calm.with_events runtime move_status context stored
                (join store context ttl_seconds ended).log)
    pub gates : gates_incomplete context.agent result ≡ false
    pub no_errors : m.heartbeat_errors ≡ []
    pub quiet : m.alive ≡ false

  module _ (work : Dispatch W) (result : ExecutionResult) (started ended : Machine W)
      (ran : dispatched runtime move_status context work started ≡ (ok result, ended)) where
    abbrev joined : Machine W
    joined = join store context ttl_seconds ended

    module _ (stored : List Event) (valid : normalize_events [] result.events ≡ ok stored) where
      abbrev reviewed : List Request
      reviewed =
          Calm.moved runtime move_status context "In Review"
            (Calm.with_events runtime move_status context stored joined.log)

      finish-Completed :
          (m : Machine W)
          → Calm.Calm runtime move_status context [] reviewed m
          → gates_incomplete context.agent result ≡ false
          → Post {A = Unit {0}}
              (λ _. Completed work context)
              Calm.Any
              (finish runtime move_status context "completed" (result_fields result) m)
      unfolding finish
      finish-Completed m q g =
          let made = Request.finish context "completed" (result_fields result) in
          Post-mono (λ _. Calm.Calm runtime move_status context [] (made ∷ reviewed))
            (λ _. Completed work context) Calm.Any Calm.Any
            (λ _ n k. record {
              same = refl;
              result = result;
              answers =
                  dispatched-Answers runtime move_status context work started (ap (λ o. o.0) ran);
              started = started;
              ended = ended;
              ran = ran;
              stored = stored;
              kept = normalize_events-Kept [] result.events valid;
              calls = k.2;
              gates = g;
              no_errors = k.1;
              quiet = k.0;
            })
            (λ _ _ _. tt)
            (perform store context ttl_seconds made
              (store.finish context "completed" (result_fields result)) m)
            (Calm.perform-Calm runtime move_status context [] reviewed made
              (store.finish context "completed" (result_fields result)) m q)

      conclude-Completed :
          (m : Machine W)
          → Calm.Calm runtime move_status context []
              (Calm.with_events runtime move_status context stored joined.log)
              m
          → Post (Completed work) Calm.Any (conclude runtime move_status context result m)
      unfolding conclude
      conclude-Completed m q = go (gates_incomplete context.agent result) refl
        where
          finishing : M W ExecutionContext
          finishing =
              finish runtime move_status context "completed" (result_fields result) >> pure context

          go :
              (b : Bool)
              → gates_incomplete context.agent result ≡ b
              → Post (Completed work) Calm.Any (
                  (raise_if b (execution_blocked "Required test and review gates are incomplete")
                      >> (move runtime move_status context "In Review" >> finishing))
                    m)
          go true e = tt
          go false e =
              >>-Post (Calm.Calm runtime move_status context [] reviewed) (Completed work) Calm.Any
                (move runtime move_status context "In Review") finishing m
                (Calm.move-Calm runtime move_status context []
                  (Calm.with_events runtime move_status context stored joined.log) "In Review" m q)
                (λ m' q'.
                  >>-Post (Completed work context) (Completed work) Calm.Any
                    (finish runtime move_status context "completed" (result_fields result))
                    (pure context) m' (finish-Completed m' q' e) (λ _ c. c))

    pub complete-Completed :
        Post (Completed work) Calm.Any (complete runtime move_status context result ended)
    unfolding complete stop_worker persist_events
    complete-Completed = go (normalize_events [] result.events) refl
      where
        go :
            (r : Call (List Event))
            → normalize_events [] result.events ≡ r
            → Post (Completed work) Calm.Any (
                ((lift r >>= store_events runtime move_status context)
                    >> (check_heartbeat runtime move_status context
                        >> conclude runtime move_status context result))
                  joined)
        go (err x) e = tt
        go (ok stored) e =
            let log = Calm.with_events runtime move_status context stored joined.log in
            >>-Post (Calm.Calm runtime move_status context joined.heartbeat_errors log)
              (Completed work) Calm.Any (store_events runtime move_status context stored)
              (check_heartbeat runtime move_status context
                >> conclude runtime move_status context result)
              joined
              (Calm.store_events-Calm runtime move_status context joined.heartbeat_errors joined.log
                stored joined (refl, refl, refl))
              (λ m' q.
                >>-Post (Calm.Calm runtime move_status context [] log) (Completed work) Calm.Any
                  (check_heartbeat runtime move_status context)
                  (conclude runtime move_status context result) m'
                  (Calm.check_heartbeat-Calm runtime move_status context _ log m' q)
                  (conclude-Completed stored e))
