-- ===== src/Runtime/Lifecycle/Run.antt =====
-- The `try` statement as a whole, and `execute`.
use hermes_agent_runtime.Base.{◌≡◌, false, Option, List}
use hermes_agent_runtime.Base.Result.{ok, err}
use hermes_agent_runtime.Payloads.Value.{Payload}
use hermes_agent_runtime.Runtime.Exceptions.{Exception, Call, is_exception}
use hermes_agent_runtime.Runtime.Context.{ExecutionContext}
use hermes_agent_runtime.Runtime.Machine.{Dispatch, Request, Machine, M, raise, ◌>>=◌, ◌>>◌, join}
use hermes_agent_runtime.Runtime.Execute.{
  AgentRuntime, MoveStatus, stop_worker, finish, supervise, persist_failed, move_blocked,
  recover_from, at_last, run_worker, error_fields, error_name, final_error, final_status,
}
use hermes_agent_runtime.Runtime.Triple.{Post, Post-mono, >>=-Post, >>-Post, try_except-Post}
use hermes_agent_runtime.Runtime.Protocol.{
  Phase, claimed, completing, closed, IsUnfinished, still_open, closes,
}
use hermes_agent_runtime.Runtime.Lifecycle.Heartbeat
use hermes_agent_runtime.Runtime.Lifecycle.Calls
use hermes_agent_runtime.Runtime.Lifecycle.Worker
use hermes_agent_runtime.Runtime.Lifecycle.Handler

module _ {W : Type 0} (runtime : AgentRuntime W) (move_status : MoveStatus W)
    (context : ExecutionContext) (base : List Request) where
  open runtime use {store, ttl_seconds}

  abbrev Follows : Phase → Machine W → Type 0
  Follows = Calls.Follows runtime move_status context base

  abbrev pub Quiet : Phase → Machine W → Type 0
  Quiet = Calls.Quiet runtime move_status context base

  abbrev Raised : Machine W → Type 0
  Raised = Calls.Raised runtime move_status context base

  abbrev pub Ended : Exception → Machine W → Type 0
  Ended = Handler.Ended runtime move_status context base

  -- The handler with the worker stopped
  abbrev give_up : Exception → M W ExecutionContext
  give_up exc = do
    later ← persist_failed runtime move_status context exc
    move_blocked runtime move_status context (final_error exc later)
    finish runtime move_status context (final_status (final_error exc later))
        (error_fields (error_name exc later))
    raise exc

  finish_failed :
      {p : Phase}
      → IsUnfinished p
      → (exc late : Exception) (fields : Payload) (m : Machine W) → Quiet p m
      → Post {A = ExecutionContext}
          (λ _. Quiet completing)
          Ended
          ((finish runtime move_status context (final_status late) fields >> raise exc) m)
  finish_failed u exc late fields m h =
      >>-Post (Quiet closed) (λ _. Quiet completing) Ended
        (finish runtime move_status context (final_status late) fields) (raise exc) m
        (Post-mono (λ _. Quiet closed) (λ _. Quiet closed) (λ _. Quiet closed) Ended (λ _ _ q. q)
          (λ _ _ q. Handler.given_up q) _
          (Calls.finish-Quiet runtime move_status context base (final_status late) fields m
            (closes (final_status late) fields u (Handler.final_status-ne late)) h))
        (λ _ q. Handler.given_up q)

  give_up-Ended :
      {p : Phase}
      → IsUnfinished p
      → (exc : Exception) (m : Machine W) → Quiet p m
      → Post (λ _. Quiet completing) Ended (give_up exc m)
  give_up-Ended {p} u exc m h =
      let finishing = λ (later : Option Exception).
        finish runtime move_status context (final_status (final_error exc later))
          (error_fields (error_name exc later))
        >> raise exc in
      >>=-Post (λ _. Quiet p) (λ _. Quiet completing) Ended
        (persist_failed runtime move_status context exc)
        (λ later.
          move_blocked runtime move_status context (final_error exc later) >> finishing later)
        m (Handler.persist_failed-Quiet runtime move_status context base u exc m h)
        λ later m₁ h₁.
          >>-Post (Quiet p) (λ _. Quiet completing) Ended
            (move_blocked runtime move_status context (final_error exc later)) (finishing later) m₁
            (Handler.move_blocked-Quiet runtime move_status context base u (final_error exc later)
              m₁ h₁)
            (finish_failed u exc (final_error exc later) _)

  recover_from-Ended :
      (exc : Exception) (m : Machine W)
      → Raised m
      → Post (λ _. Quiet completing) Ended (recover_from runtime move_status context exc m)
  unfolding recover_from stop_worker
  recover_from-Ended exc m (Calls.running o t) =
      give_up-Ended (still_open o) exc _ (Heartbeat.join-Quiet store context ttl_seconds base o m t)
  recover_from-Ended exc m (Calls.stopped u q) =
      give_up-Ended u exc _ (Heartbeat.join-Quiet_again store context ttl_seconds base m q)

  -- Before the `finally` clause: an interrupt has passed the handler by.
  data Passed (e : Exception) (m : Machine W) : Type 0 where
    handled : Ended e m → Passed e m
    passed_by : is_exception e ≡ false → Raised m → Passed e m

  abbrev join_worker : Machine W → Machine W
  join_worker = join store context ttl_seconds

  Ended-join : (e : Exception) (m : Machine W) → Ended e m → Ended e (join_worker m)
  Ended-join e m (Handler.given_up q) =
      Handler.given_up (Heartbeat.join-Quiet_again store context ttl_seconds base m q)
  Ended-join e m (Handler.interrupted i q) =
      Handler.interrupted i (Heartbeat.join-Quiet_again store context ttl_seconds base m q)
  Ended-join e m (Handler.not_moved f q) =
      Handler.not_moved f (Heartbeat.join-Quiet_again store context ttl_seconds base m q)

  Passed-join : (e : Exception) (m : Machine W) → Passed e m → Ended e (join_worker m)
  Passed-join e m (handled d) = Ended-join e m d
  Passed-join e m (passed_by i (Calls.running o t)) =
      Handler.interrupted i (Heartbeat.join-Quiet store context ttl_seconds base o m t)
  Passed-join e m (passed_by i (Calls.stopped u q)) =
      Handler.interrupted i (Heartbeat.join-Quiet_again store context ttl_seconds base m q)

  at_last-Post :
      (o : Call ExecutionContext × Machine W)
      → Post (λ _. Quiet completing) Passed o
      → Post (λ _. Quiet completing) Ended (o.0, join_worker o.1)
  at_last-Post (ok c, m) q = Heartbeat.join-Quiet_again store context ttl_seconds base m q
  at_last-Post (err e, m) p = Passed-join e m p

  -- Once the claim is made.
  pub run_worker-Post :
      (work : Dispatch W) (m : Machine W)
      → Follows claimed m
      → Post (λ _. Quiet completing) Ended (run_worker runtime move_status context work m)
  unfolding run_worker at_last
  run_worker-Post work m t = at_last-Post _ (
      try_except-Post (λ _. Quiet completing) (λ _. Raised) Passed
        (supervise runtime move_status context work) (recover_from runtime move_status context) _
        (Worker.supervise-Post runtime move_status context base work _ t)
        (λ e m' _ r.
          Post-mono (λ _. Quiet completing) (λ _. Quiet completing) Ended Passed (λ _ _ q. q)
            (λ _ _ d. handled d) _ (recover_from-Ended e m' r))
        (λ e m' i r. passed_by i r))
