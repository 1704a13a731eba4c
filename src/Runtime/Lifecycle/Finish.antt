-- ===== src/Runtime/Lifecycle/Finish.antt =====
-- A run that has its lock is finished.
use hermes_agent_runtime.Base.{
  ℕ, ◌≡◌, ◌≢◌, ◌∙◌, sym, subst, refl, false, true, List, ◌∷◌, String, ◌⊎◌, inl, inr,
}
use hermes_agent_runtime.Base.Result.{ok, err}
use hermes_agent_runtime.Payloads.Value.{Payload}
use hermes_agent_runtime.Runtime.Exceptions.{Exception, Call, is_exception}
use hermes_agent_runtime.Runtime.Labels.{Issue, Classification, classify_issue}
use hermes_agent_runtime.Runtime.Context.{ExecutionContext, new_run_id}
use hermes_agent_runtime.Runtime.Machine.{Dispatch, Request, Machine, M, ◌>>◌}
use hermes_agent_runtime.Runtime.Execute.{
  AgentRuntime, MoveStatus, claim, run_worker, context_of, execute,
}
use hermes_agent_runtime.Runtime.Triple.{Post}
use hermes_agent_runtime.Runtime.Protocol.{
  claimed, completing, closed, still_open, Trace, Step, start, extend, closes,
}
use hermes_agent_runtime.Runtime.Lifecycle.Claim.{Refused, claim-Post}
use hermes_agent_runtime.Runtime.Lifecycle.Run.{run_worker-Post}
use hermes_agent_runtime.Runtime.Lifecycle.Handler

-- The last call was a `finish` with a status that is not that of a completed run.
pub record IsFinished (context : ExecutionContext) (log : List Request) : Type 0 where
  pub status : String
  pub fields : Payload
  pub before : List Request
  pub last : log ≡ Request.finish context status fields ∷ before
  pub not_completed : status ≢ "completed"

closed-IsFinished :
    (context : ExecutionContext) (ttl : ℕ) {base log : List Request}
    → Trace context ttl base log closed
    → IsFinished context log
closed-IsFinished context ttl (extend {log} t (closes status fields u other)) = record {
  status = status;
  fields = fields;
  before = log;
  last = refl;
  not_completed = other;
}
closed-IsFinished context ttl (extend t (Step.beats o)) = elim o [ ]
closed-IsFinished context ttl (extend t (Step.moves status o)) = elim o [ ]
closed-IsFinished context ttl (extend t (Step.stores kind payload (still_open o))) = elim o [ ]

-- A sequence whose first part returns
>>-at :
    {W B : Type 0} (x : M W (Unit {0})) (k : M W B) (m : Machine W)
    → (x m).0 ≡ ok tt
    → (x >> k) m ≡ k (x m).1
>>-at {W} {B} x k m h = go (x m).0 h
  where
    go :
        (r : Call (Unit {0}))
        → r ≡ ok tt
        → elim r as (λ _. Call B × Machine W) [ ok a ↦ k (x m).1 | err e ↦ (err e, (x m).1) ]
          ≡ k (x m).1
    go r e = rw e refl

module _ {W : Type 0} (runtime : AgentRuntime W) (move_status : MoveStatus W) where
  ended-IsFinished :
      (context : ExecutionContext) (base : List Request) (e : Exception) (m : Machine W)
      → is_exception e ≡ true
      → Handler.Ended runtime move_status context base e m
      → IsFinished context m.log ⊎ Handler.UpdateFails runtime move_status context base e
  ended-IsFinished context base e m ordinary (Handler.given_up q) =
      inl (closed-IsFinished context runtime.ttl_seconds q.0)
  ended-IsFinished context base e m ordinary (Handler.interrupted i q) = cc
  ended-IsFinished context base e m ordinary (Handler.not_moved f q) = inr f

  Post-claimed :
      (Q : Machine W → Type 0) (E : Exception → Machine W → Type 0)
      (o : Call (Unit {0}) × Machine W)
      → Post (λ _. Q) E o
      → o.0 ≡ ok tt
      → Q o.1
  Post-claimed Q E (ok a, m) q h = q
  Post-claimed Q E (err e, m) q h = cc

  -- Once the claim of a run has returned, a run that raises an exception other than an interrupt has
  -- been finished, as its last call and not as completed, unless the status update to "Blocked" can
  -- raise that exception: whatever the store, the dispatcher and the heartbeats do.
  pub execute-IsFinished :
      (dispatch : ExecutionContext → Dispatch W) (millis bits : ℕ) (issue : Issue)
      (m m' : Machine W) {c : Classification} {e : Exception}
      → classify_issue issue ≡ ok c
      → m.alive ≡ false
      → (claim runtime move_status
          (context_of runtime move_status issue c (new_run_id millis bits))
          m).0
        ≡ ok tt
      → execute runtime move_status dispatch millis bits issue m ≡ (err e, m')
      → is_exception e ≡ true
      → let context = context_of runtime move_status issue c (new_run_id millis bits) in
        IsFinished context m'.log ⊎ Handler.UpdateFails runtime move_status context m.log e
  unfolding execute
  execute-IsFinished dispatch millis bits issue m m' {c} {e} h stopped held ran ordinary =
      let context = context_of runtime move_status issue c (new_run_id millis bits) in
      let claiming = claim runtime move_status context in
      let work = run_worker runtime move_status context (dispatch context) in
      let claimed_at =
        Post-claimed (Handler.Quiet runtime move_status context m.log claimed)
          (λ _. Refused runtime move_status context m.log) (claiming m)
          (claim-Post runtime move_status context m.log m (start, stopped)) held in
      let raised = sym (>>-at claiming work m held) ∙ (rw h at ran) in
      let posted =
        run_worker-Post runtime move_status context m.log (dispatch context) (claiming m).1
          claimed_at.0 in
      let ended =
        subst
          (Post (λ _. Handler.Quiet runtime move_status context m.log completing)
            (Handler.Ended runtime move_status context m.log))
          raised posted in
      ended-IsFinished context m.log e m' ordinary ended
