-- ===== src/Runtime/Lifecycle/Claim.antt =====
-- The claim, and `execute` as a whole.
use hermes_agent_runtime.Base.{ℕ, ◌≡◌, false, Option, none, some, List, String}
use hermes_agent_runtime.Base.Result.{ok, err}
use hermes_agent_runtime.Runtime.Exceptions.{
  Exception, run_conflict, execution_blocked, execution_event_error, error, interrupt,
}
use hermes_agent_runtime.Runtime.Labels.{Issue, Classification, classify_issue}
use hermes_agent_runtime.Runtime.Context.{ExecutionContext, new_run_id}
use hermes_agent_runtime.Runtime.Machine.{Action, Dispatch, Request, Machine, M, raise, ◌>>◌}
use hermes_agent_runtime.Runtime.Execute.{
  AgentRuntime, MoveStatus, call, run_worker, reject, claim, context_of, execute,
}
use hermes_agent_runtime.Runtime.Triple.{Post, Post-mono, >>-Post, try_except-Post}
use hermes_agent_runtime.Runtime.Protocol.{
  Phase, idle, claimed, completing, rejected, claims, reports, start,
}
use hermes_agent_runtime.Runtime.Lifecycle.Heartbeat
use hermes_agent_runtime.Runtime.Lifecycle.Calls
use hermes_agent_runtime.Runtime.Lifecycle.Handler
use hermes_agent_runtime.Runtime.Lifecycle.Run

module _ {W : Type 0} (runtime : AgentRuntime W) (move_status : MoveStatus W)
    (context : ExecutionContext) (base : List Request) where
  open runtime use {store, ttl_seconds}

  abbrev Follows : Phase → Machine W → Type 0
  Follows = Calls.Follows runtime move_status context base

  abbrev pub Quiet : Phase → Machine W → Type 0
  Quiet = Calls.Quiet runtime move_status context base

  abbrev Raised : Machine W → Type 0
  Raised = Calls.Raised runtime move_status context base

  abbrev pub Ended : Exception → Machine W → Type 0
  Ended = Handler.Ended runtime move_status context base

  -- How a run that does not begin ends: the claim was refused.
  pub data Refused (m : Machine W) : Type 0 where
    unreported : Quiet claimed m → Refused m
    reported : Quiet rejected m → Refused m

  reject-Refused :
      (e : Exception) (m : Machine W)
      → Quiet claimed m
      → Post (λ _. Quiet claimed) (λ _. Refused) (reject runtime move_status context e m)
  unfolding reject
  reject-Refused (run_conflict message) m q = go store.lock_rejected
    where
      go :
          (sink : Option (ExecutionContext → String → Action W (Unit {0})))
          → Post {A = Unit {0}}
              (λ _. Quiet claimed)
              (λ _. Refused)
              ((elim sink as (λ _. M W (Unit {0})) [
                | none ↦ raise (run_conflict message)
                | some report ↦
                    call runtime move_status context
                      (Request.lock_rejected context "RunConflict")
                      (report context "RunConflict")
                    >> raise (run_conflict message)
              ])
                m)
      go none = unreported q
      go (some report) =
          >>-Post (Quiet rejected) (λ _. Quiet claimed) (λ _. Refused)
            (call runtime move_status context (Request.lock_rejected context "RunConflict")
              (report context "RunConflict"))
            (raise (run_conflict message)) m
            (Post-mono (λ _. Quiet rejected) (λ _. Quiet rejected) (λ _. Quiet rejected)
              (λ _. Refused) (λ _ _ k. k) (λ _ _ k. reported k) _
              (Heartbeat.perform-Quiet store context ttl_seconds base
                (Request.lock_rejected context "RunConflict") (report context "RunConflict") m
                (reports "RunConflict") q))
            (λ _ k. reported k)
  reject-Refused (execution_blocked _) m q = unreported q
  reject-Refused (execution_event_error _ _) m q = unreported q
  reject-Refused (error _ _) m q = unreported q
  reject-Refused (interrupt _) m q = unreported q

  pub claim-Post :
      (m : Machine W)
      → Quiet idle m
      → Post (λ _. Quiet claimed) (λ _. Refused) (claim runtime move_status context m)
  unfolding claim
  claim-Post m q =
      try_except-Post (λ _. Quiet claimed) (λ _. Quiet claimed) (λ _. Refused)
        (call runtime move_status context (Request.claim context ttl_seconds)
          (store.claim context ttl_seconds))
        (reject runtime move_status context) m
        (Heartbeat.perform-Quiet store context ttl_seconds base (Request.claim context ttl_seconds)
          (store.claim context ttl_seconds) m claims q)
        (λ e m' _ k. reject-Refused e m' k) (λ _ _ _ k. unreported k)

  -- How `execute` can fail once the issue is classified.
  pub data Failed (e : Exception) (m : Machine W) : Type 0 where
    refused : Refused m → Failed e m
    ended : Ended e m → Failed e m

  pub claimed_run-Post :
      (work : Dispatch W) (m : Machine W)
      → Quiet idle m
      → Post
          (λ _. Quiet completing)
          Failed
          ((claim runtime move_status context >> run_worker runtime move_status context work) m)
  claimed_run-Post work m q =
      >>-Post (Quiet claimed) (λ _. Quiet completing) Failed (claim runtime move_status context)
        (run_worker runtime move_status context work) m
        (Post-mono (λ _. Quiet claimed) (λ _. Quiet claimed) (λ _. Refused) Failed (λ _ _ k. k)
          (λ _ _ r. refused r) _ (claim-Post m q))
        (λ m' k.
          Post-mono (λ _. Quiet completing) (λ _. Quiet completing) Ended Failed (λ _ _ x. x)
            (λ _ _ d. ended d) _ (Run.run_worker-Post runtime move_status context base work m' k.0))

module _ {W : Type 0} (runtime : AgentRuntime W) (move_status : MoveStatus W) where
  -- An issue that `classify_issue` refuses is refused by `execute` with the same error, and the
  -- machine is as before: no call is made, and the heartbeat thread does not run.
  pub execute_unclassified :
      (dispatch : ExecutionContext → Dispatch W) (millis bits : ℕ) (issue : Issue) (m : Machine W)
      {e : Exception}
      → classify_issue issue ≡ err e
      → execute runtime move_status dispatch millis bits issue m ≡ (err e, m)
  unfolding execute
  execute_unclassified dispatch millis bits issue m h = rw h

  -- For a classified issue, and a machine whose heartbeat thread is stopped, the calls that `execute`
  -- makes follow the protocol of one run, for every store, dispatcher and timing of the heartbeats.
  -- Where it returns, the last phase is that of a completed run and the thread is stopped; where it
  -- raises, the run was refused at its claim, or it has ended in one of the ways of `Ended`.
  pub execute-protocol :
      (dispatch : ExecutionContext → Dispatch W) (millis bits : ℕ) (issue : Issue) (m : Machine W)
      {c : Classification}
      → classify_issue issue ≡ ok c
      → m.alive ≡ false
      → let context = context_of runtime move_status issue c (new_run_id millis bits) in
        Post
          (λ _. Run.Quiet runtime move_status context m.log completing)
          (Failed runtime move_status context m.log)
          (execute runtime move_status dispatch millis bits issue m)
  unfolding execute
  execute-protocol dispatch millis bits issue m {c} h stopped =
      let context = context_of runtime move_status issue c (new_run_id millis bits) in
      rw h
        (claimed_run-Post runtime move_status context m.log (dispatch context) m (start, stopped))
