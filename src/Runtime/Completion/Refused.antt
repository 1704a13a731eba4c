-- ===== src/Runtime/Completion/Refused.antt =====
-- A refused claim, where the store has no sink for it.
use hermes_agent_runtime.Base.{
  ℕ, ◌≡◌, refl, ◌∙◌, ap, Bool, true, false, none, List, ◌∷◌, if◌then◌else◌,
}
use hermes_agent_runtime.Base.Result.{ok, err}
use hermes_agent_runtime.Runtime.Exceptions.{
  Exception, Call, run_conflict, execution_blocked, execution_event_error, error, interrupt,
  is_exception,
}
use hermes_agent_runtime.Runtime.Labels.{Issue, Classification, classify_issue}
use hermes_agent_runtime.Runtime.Context.{ExecutionContext, new_run_id}
use hermes_agent_runtime.Runtime.Machine.{Dispatch, Request, Machine}
use hermes_agent_runtime.Runtime.Execute.{
  AgentRuntime, MoveStatus, reject, claim, run_worker, context_of, execute,
}
use hermes_agent_runtime.Runtime.Completion.Calm

module _ {W : Type 0} (runtime : AgentRuntime W) (move_status : MoveStatus W)
    (context : ExecutionContext) where
  open runtime use {store, ttl_seconds}

  reject_silent :
      (e : Exception) (m : Machine W)
      → store.lock_rejected ≡ none
      → reject runtime move_status context e m ≡ (err e, m)
  unfolding reject
  reject_silent (run_conflict message) m h = rw h refl
  reject_silent (execution_blocked _) m h = refl
  reject_silent (execution_event_error _ _) m h = refl
  reject_silent (error _ _) m h = refl
  reject_silent (interrupt _) m h = refl

  claim_refused :
      (e : Exception) (m : Machine W)
      → store.lock_rejected ≡ none
      → m.alive ≡ false
      → (store.claim context ttl_seconds m.world).0 ≡ err e
      → (later : List ℕ) × (claim runtime move_status context m ≡ (
        err e,
        record m {
          world = (store.claim context ttl_seconds m.world).1;
          wakeups = later;
          log = Request.claim context ttl_seconds ∷ m.log;
        },
      ))
  unfolding claim
  claim_refused e m silent stopped refused =
      let (later, same) =
        Calm.perform_quiet runtime move_status context (Request.claim context ttl_seconds)
          (store.claim context ttl_seconds) m stopped in
      let answered = same ∙ ap (λ (r : Call (Unit {0})). (r, after later)) refused in
      (later, ap handle answered ∙ go (is_exception e) (after later))
    where
      after : List ℕ → Machine W
      after later = record m {
        world = (store.claim context ttl_seconds m.world).1;
        wakeups = later;
        log = Request.claim context ttl_seconds ∷ m.log;
      }

      handle : Call (Unit {0}) × Machine W → Call (Unit {0}) × Machine W
      handle (r, n) = elim r [
        | ok a ↦ (ok a, n)
        | err x ↦ if is_exception x then reject runtime move_status context x n else (err x, n)
      ]

      go :
          (b : Bool) (n : Machine W)
          → (if b then reject runtime move_status context e n else (err e, n)) ≡ (err e, n)
      go true n = reject_silent e n silent
      go false n = refl

module _ {W : Type 0} (runtime : AgentRuntime W) (move_status : MoveStatus W) where
  -- Where the store refuses the claim of a classified issue and is no sink for rejections, `execute`
  -- raises what the store raised and the claim is the only call that was made.
  pub execute-refused :
      (dispatch : ExecutionContext → Dispatch W) (millis bits : ℕ) (issue : Issue) (m : Machine W)
      {c : Classification} {e : Exception}
      → classify_issue issue ≡ ok c
      → m.alive ≡ false
      → runtime.store.lock_rejected ≡ none
      → let context = context_of runtime move_status issue c (new_run_id millis bits) in
        (runtime.store.claim context runtime.ttl_seconds m.world).0 ≡ err e
        → let (r, m') = execute runtime move_status dispatch millis bits issue m in
          (r ≡ err e) × (m'.log ≡ Request.claim context runtime.ttl_seconds ∷ m.log)
  unfolding execute
  execute-refused dispatch millis bits issue m {c} {e} known stopped silent refused =
      let context = context_of runtime move_status issue c (new_run_id millis bits) in
      let (later, same) = claim_refused runtime move_status context e m silent stopped refused in
      let begin : Call (Unit {0}) × Machine W → Call ExecutionContext × Machine W = λ o.
        elim (o.0) [
          | ok _ ↦ run_worker runtime move_status context (dispatch context) o.1
          | err x ↦ (err x, o.1)
        ] in
      rw known (ap (λ o. (begin o).0) same, ap (λ o. (begin o).1.log) same)
