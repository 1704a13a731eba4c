-- ===== src/Chain/Orchestrator.antt =====
-- orchestrator.py: `RuntimeOrchestrator.run_once`. The clock and the random source answer the n-th
-- run of a pass with the n-th pair of `source`.
use hermes_agent_runtime.Base.{ℕ, suc, Bool, String, Option, none, some, List, [], ◌∷◌}
use hermes_agent_runtime.Base.{if◌then◌else◌, ◌==◌, string_eq}
use hermes_agent_runtime.Base.Result.{ok, err}
use hermes_agent_runtime.Runtime.Exceptions.{Call, run_conflict, execution_blocked}
use hermes_agent_runtime.Runtime.Context.{ExecutionContext}
use hermes_agent_runtime.Runtime.Labels.{Issue}
use hermes_agent_runtime.Runtime.Machine.{
  Action, Dispatch, M, Request, pure, raise, ask, ◌>>=◌, ◌>>◌,
}
use hermes_agent_runtime.Runtime.Execute.{AgentRuntime, MoveStatus, execute}
use hermes_agent_runtime.Chain.Selector.{LinearIssueSnapshot, SelectionDecision}
use hermes_agent_runtime.Chain.Poller.{Recorder, record_issue, poll}

pub record OrchestratorRunResult : Type 0 where
  pub issue_id : String
  pub status : String
  pub run_id : Option String
  pub reason : Option String

abbrev pub run_result : String → String → Option String → Option String → OrchestratorRunResult
run_result issue_id status run_id reason = record {
  issue_id = issue_id;
  status = status;
  run_id = run_id;
  reason = reason;
}

-- `str(exc) or type(exc).__name__`
abbrev message_or : String → String → String
message_or message name = if message == "" then name else message

module _ {W : Type 0} (runtime : AgentRuntime W) (move_status : MoveStatus W)
    (record_blocked : Recorder W) (dispatch : ExecutionContext → Dispatch W)
    (source : ℕ → ℕ × ℕ) where
  -- The `except` and `else` clauses
  unfoldable pub report : String → Call ExecutionContext → M W OrchestratorRunResult
  unfolding record_issue
  report issue_id (ok context) = pure (run_result issue_id "completed" (some context.run_id) none)
  report issue_id (err (run_conflict _)) = do
    record_issue record_blocked issue_id "RunConflict"
    pure (run_result issue_id "conflict" none (some "RunConflict"))
  report issue_id (err (execution_blocked message)) = do
    record_issue record_blocked issue_id (message_or message "ExecutionBlocked")
    pure (run_result issue_id "blocked" none (some (message_or message "ExecutionBlocked")))
  report issue_id (err e) = raise e

  -- `AgentRuntime.recover_expired_issue`
  unfoldable pub recover_expired_issue : String → M W Bool
  unfolding ask
  recover_expired_issue issue_id = ask (Request.recover issue_id) (runtime.store.recover issue_id)

  unfoldable pub run_issue : ℕ → Issue → M W OrchestratorRunResult
  unfolding recover_expired_issue execute report
  run_issue n issue m =
      (recover_expired_issue issue.identifier >>= λ _ m₁.
      let (r, m₂) = execute runtime move_status dispatch (source n).0 (source n).1 issue m₁ in
      report issue.identifier r m₂)
        m

  unfoldable pub run_decisions : ℕ → List SelectionDecision → M W (List OrchestratorRunResult)
  unfolding run_issue
  run_decisions n [] = pure []
  run_decisions n (decision ∷ decisions) = do
    result ← run_issue n decision.issue
    results ← run_decisions (suc n) decisions
    pure (result ∷ results)

  unfoldable pub run_once :
      Recorder W → Action W (List LinearIssueSnapshot) → M W (List OrchestratorRunResult)
  unfolding poll run_decisions
  run_once poller_recorder read_issues = do
    decisions ← poll poller_recorder read_issues
    run_decisions 0 decisions
