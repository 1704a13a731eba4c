-- ===== src/Runtime/Lifecycle/Handler.antt =====
-- The `except` clause, and the whole `try` statement.
use hermes_agent_runtime.Base.{
  ◌≡◌, ◌≢◌, refl, false, none, some, List, String, string_eq, string_ne,
}
use hermes_agent_runtime.Base.Result.{err}
use hermes_agent_runtime.Runtime.Exceptions.{
  Exception, run_conflict, execution_blocked, execution_event_error, error, interrupt, is_exception,
}
use hermes_agent_runtime.Runtime.Context.{ExecutionContext}
use hermes_agent_runtime.Runtime.Machine.{Action, Request, Machine, pure, ◌>>◌}
use hermes_agent_runtime.Runtime.Execute.{
  AgentRuntime, MoveStatus, move, persist_events, persist_failed, move_blocked, final_status,
}
use hermes_agent_runtime.Runtime.Triple.{Post, Post-mono, >>-Post, try_except-Post}
use hermes_agent_runtime.Runtime.Protocol.{
  Phase, closed, IsUnfinished, still_open, after_completion, Step, moves, moves_late,
}
use hermes_agent_runtime.Runtime.Lifecycle.Heartbeat
use hermes_agent_runtime.Runtime.Lifecycle.Calls

pub final_status-ne : (e : Exception) → final_status e ≢ "completed"
unfolding string_eq
final_status-ne (execution_blocked _) h = string_ne "blocked" "completed" refl h
final_status-ne (run_conflict _) h = string_ne "failed" "completed" refl h
final_status-ne (execution_event_error _ _) h = string_ne "failed" "completed" refl h
final_status-ne (error _ _) h = string_ne "failed" "completed" refl h
final_status-ne (interrupt _) h = string_ne "failed" "completed" refl h

module _ {W : Type 0} (runtime : AgentRuntime W) (move_status : MoveStatus W)
    (context : ExecutionContext) (base : List Request) where
  open runtime use {store, ttl_seconds}

  abbrev Follows : Phase → Machine W → Type 0
  Follows = Calls.Follows runtime move_status context base

  abbrev pub Quiet : Phase → Machine W → Type 0
  Quiet = Calls.Quiet runtime move_status context base

  -- The status update to "Blocked" raises `e` in some world.
  pub data UpdateFails (e : Exception) : Type 0 where
    fails :
        {update : String → String → Action W (Unit {0})}
        → move_status ≡ some update
        → (w : W) → (update context.linear_issue_id "Blocked" w).0 ≡ err e
        → UpdateFails e

  -- How a run that raises ends: given up by a `finish`, or cut short by an interrupt or by the
  -- status update. The worker is stopped in each case.
  pub data Ended (e : Exception) (m : Machine W) : Type 0 where
    given_up : Quiet closed m → Ended e m
    interrupted : {p : Phase} → is_exception e ≡ false → Quiet p m → Ended e m
    not_moved : {p : Phase} → UpdateFails e → Quiet p m → Ended e m

  pub persist_failed-Quiet :
      {p : Phase}
      → IsUnfinished p
      → (exc : Exception) (m : Machine W) → Quiet p m
      → Post (λ _. Quiet p) Ended (persist_failed runtime move_status context exc m)
  unfolding persist_failed
  persist_failed-Quiet {p} u (execution_event_error name events) m h =
      try_except-Post (λ _. Quiet p) (λ _. Quiet p) Ended
        (persist_events runtime move_status context events >> pure none)
        (λ later. pure (some later)) m
        (>>-Post (Quiet p) (λ _. Quiet p) (λ _. Quiet p)
          (persist_events runtime move_status context events) (pure none) m
          (Calls.persist_events-Quiet runtime move_status context base u events m h) (λ _ q. q))
        (λ _ _ _ q. q) (λ _ _ i q. interrupted i q)
  persist_failed-Quiet u (run_conflict _) m h = h
  persist_failed-Quiet u (execution_blocked _) m h = h
  persist_failed-Quiet u (error _ _) m h = h
  persist_failed-Quiet u (interrupt _) m h = h

  blocked_step :
      {p : Phase}
      → IsUnfinished p
      → Step context ttl_seconds p (Request.move_status context.linear_issue_id "Blocked") p
  blocked_step (still_open o) = moves "Blocked" o
  blocked_step after_completion = moves_late

  update-Quiet :
      {p : Phase}
      → IsUnfinished p
      → (m : Machine W) → Quiet p m
      → Post (λ _. Quiet p) Ended (move runtime move_status context "Blocked" m)
  unfolding move
  update-Quiet {p} u m h = go move_status refl
    where
      go :
          (up : MoveStatus W)
          → move_status ≡ up
          → Post (λ _. Quiet p) Ended (move runtime up context "Blocked" m)
      go none e = h
      go (some update) e =
          Post-mono (λ _. Quiet p) (λ _. Quiet p)
            (λ x m'.
              Quiet p m' × ((w : W) × ((update context.linear_issue_id "Blocked" w).0 ≡ err x)))
            Ended (λ _ _ q. q) (λ _ _ (q, (w, r)). not_moved (fails e w r) q) _
            (Heartbeat.perform-Quiet_raised store context ttl_seconds base
              (Request.move_status context.linear_issue_id "Blocked")
              (update context.linear_issue_id "Blocked") m (blocked_step u) h)

  pub move_blocked-Quiet :
      {p : Phase}
      → IsUnfinished p
      → (exc : Exception) (m : Machine W) → Quiet p m
      → Post (λ _. Quiet p) Ended (move_blocked runtime move_status context exc m)
  unfolding move_blocked
  move_blocked-Quiet u (execution_blocked _) m h = update-Quiet u m h
  move_blocked-Quiet u (run_conflict _) m h = h
  move_blocked-Quiet u (execution_event_error _ _) m h = h
  move_blocked-Quiet u (error _ _) m h = h
  move_blocked-Quiet u (interrupt _) m h = h
