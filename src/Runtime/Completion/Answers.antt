-- ===== src/Runtime/Completion/Answers.antt =====
-- What a dispatcher at work can return.
use hermes_agent_runtime.Base.{ℕ, ◌≡◌}
use hermes_agent_runtime.Base.Result.{ok}
use hermes_agent_runtime.Runtime.Context.{ExecutionContext, ExecutionResult}
use hermes_agent_runtime.Runtime.Machine.{
  Machine, Store, Dispatch, returns, step, run_dispatch, perform,
}
use hermes_agent_runtime.Runtime.Execute.{AgentRuntime, MoveStatus, dispatched}

-- The dispatcher returns this result, for some answers of the world that it works on.
pub data Answers {W : Type 0} : Dispatch W → ExecutionResult → Type 0 where
  returned : (result : ExecutionResult) → Answers (returns (ok result)) result
  stepped :
      {act : W → W} {next : W → Dispatch W} {result : ExecutionResult} (w : W)
      → Answers (next w) result
      → Answers (step act next) result

run_dispatch-Answers :
    {W : Type 0} (store : Store W) (context : ExecutionContext) (ttl : ℕ) (work : Dispatch W)
    (m : Machine W) {result : ExecutionResult}
    → (run_dispatch store context ttl work m).0 ≡ ok result
    → Answers work result
unfolding run_dispatch
run_dispatch-Answers store context ttl (returns r) m {result} h =
    let e : r ≡ ok result = h in rw e (returned result)
run_dispatch-Answers store context ttl (step act next) m h =
    stepped _ (run_dispatch-Answers store context ttl (next _) _ h)

module _ {W : Type 0} (runtime : AgentRuntime W) (move_status : MoveStatus W)
    (context : ExecutionContext) where
  open runtime use {store, ttl_seconds}

  pub dispatched-Answers :
      (work : Dispatch W) (m : Machine W) {result : ExecutionResult}
      → (dispatched runtime move_status context work m).0 ≡ ok result
      → Answers work result
  unfolding dispatched perform
  dispatched-Answers work m h = run_dispatch-Answers store context ttl_seconds work _ h
