-- ===== src/Chain/Results.antt =====
-- What a pass of the orchestrator gives back.
use hermes_agent_runtime.Base.{
  true, ℕ, suc, ◌≡◌, refl, false, Bool-cases, inl, inr, String, none, some, List, [], ◌∷◌, map,
  if◌then◌else◌, ◌==◌, string_eq,
}
use hermes_agent_runtime.Base.Result.{ok, err}
use hermes_agent_runtime.Runtime.Exceptions.{
  Call, run_conflict, execution_blocked, execution_event_error, error, interrupt,
}
use hermes_agent_runtime.Runtime.Context.{ExecutionContext, new_run_id}
use hermes_agent_runtime.Runtime.Completion.{execute-run_id}
use hermes_agent_runtime.Runtime.Labels.{Issue}
use hermes_agent_runtime.Runtime.Machine.{Dispatch, Machine, pure, ◌>>=◌}
use hermes_agent_runtime.Runtime.Execute.{AgentRuntime, MoveStatus, execute}
use hermes_agent_runtime.Chain.Selector.{SelectionDecision}
use hermes_agent_runtime.Chain.Poller.{Recorder, record_issue}
use hermes_agent_runtime.Chain.Orchestrator.{
  OrchestratorRunResult, run_result, report, recover_expired_issue, run_issue, run_decisions,
}
use hermes_agent_runtime.Chain.Laws.{>>=-ok}

-- What is reported of a run for the issue, by what `execute` has returned or raised; `run_id` is the
-- new id of that run.
pub data IsResult (issue_id run_id : String)
    : Call ExecutionContext → OrchestratorRunResult → Type 0 where
  completed :
      (context : ExecutionContext)
      → context.run_id ≡ run_id
      → IsResult issue_id run_id (ok context) (run_result issue_id "completed" (some run_id) none)
  conflict :
      (message : String)
      → IsResult issue_id run_id
          (err (run_conflict message))
          (run_result issue_id "conflict" none (some "RunConflict"))
  blocked :
      (message : String)
      → (message == "") ≡ false
      → IsResult issue_id run_id
          (err (execution_blocked message))
          (run_result issue_id "blocked" none (some message))
  unexplained :
      (message : String)
      → (message == "") ≡ true
      → IsResult issue_id run_id
          (err (execution_blocked message))
          (run_result issue_id "blocked" none (some "ExecutionBlocked"))

module _ {W : Type 0} (runtime : AgentRuntime W) (move_status : MoveStatus W)
    (record_blocked : Recorder W) (dispatch : ExecutionContext → Dispatch W)
    (source : ℕ → ℕ × ℕ) where
  -- The new id of the n-th run of a pass
  abbrev run_id_of : ℕ → String
  run_id_of n = new_run_id (source n).0 (source n).1

  -- What `execute` gives for an issue, after its expired run has been recovered
  abbrev pub executed : ℕ → Issue → Machine W → Call ExecutionContext
  executed n issue m =
      let recover =
        recover_expired_issue runtime move_status record_blocked dispatch source issue.identifier in
      (execute runtime move_status dispatch (source n).0 (source n).1 issue (recover m).1).0

  -- One result for each issue, in their order: each run starts at the machine that the one before has
  -- left, and has the next answers of the clock and of the random source.
  pub data Results : ℕ → Machine W → List Issue → List OrchestratorRunResult → Type 0 where
    none_left : (n : ℕ) (m : Machine W) → Results n m [] []
    one_more :
        {issues : List Issue} {result : OrchestratorRunResult}
        {results : List OrchestratorRunResult} (n : ℕ) (issue : Issue) (m : Machine W)
        → IsResult issue.identifier (run_id_of n) (executed n issue m) result
        → Results
            (suc n)
            (run_issue runtime move_status record_blocked dispatch source n issue m).1
            issues
            results
        → Results n m (issue ∷ issues) (result ∷ results)

  report-IsResult :
      (issue_id run_id : String) (r : Call ExecutionContext) (m : Machine W)
      {result : OrchestratorRunResult}
      → ((context : ExecutionContext) → r ≡ ok context → context.run_id ≡ run_id)
      → (report runtime move_status record_blocked dispatch source issue_id r m).0 ≡ ok result
      → IsResult issue_id run_id r result
  unfolding report
  report-IsResult issue_id run_id (ok context) m {result} own h =
      let same = own context refl in
      let e : result ≡ run_result issue_id "completed" (some run_id) none = cc in
      rw e (completed context same)
  report-IsResult issue_id run_id (err (run_conflict message)) m {result} own h =
      let reported = run_result issue_id "conflict" none (some "RunConflict") in
      let (u, noted, last) =
        >>=-ok (record_issue record_blocked issue_id "RunConflict") (λ _. pure reported) m h in
      let e : result ≡ reported = cc in rw e (conflict message)
  report-IsResult issue_id run_id (err (execution_blocked message)) m {result} own h =
      let reason = if message == "" then "ExecutionBlocked" else message in
      let reported = run_result issue_id "blocked" none (some reason) in
      let (u, noted, last) =
        >>=-ok (record_issue record_blocked issue_id reason) (λ _. pure reported) m h in
      let e : result ≡ reported = cc in
      elim (Bool-cases (message == "")) [
        | inl empty ↦ rw (e, empty) (unexplained message empty)
        | inr full ↦ rw (e, full) (blocked message full)
      ]
  report-IsResult issue_id run_id (err (execution_event_error name events)) m own h = cc
  report-IsResult issue_id run_id (err (error name message)) m own h = cc
  report-IsResult issue_id run_id (err (interrupt name)) m own h = cc

  run_issue-IsResult :
      (n : ℕ) (issue : Issue) (m : Machine W) {result : OrchestratorRunResult}
      → (run_issue runtime move_status record_blocked dispatch source n issue m).0 ≡ ok result
      → IsResult issue.identifier (run_id_of n) (executed n issue m) result
  unfolding run_issue
  run_issue-IsResult n issue m h =
      let recover =
        recover_expired_issue runtime move_status record_blocked dispatch source issue.identifier in
      let (found, recovered, last) =
        >>=-ok recover
          (λ _ m₁.
            let (r, m₂) = execute runtime move_status dispatch (source n).0 (source n).1 issue m₁ in
            report runtime move_status record_blocked dispatch source issue.identifier r m₂)
          m h in
      report-IsResult issue.identifier (run_id_of n) (executed n issue m) _
        (λ context returned.
          execute-run_id runtime move_status dispatch (source n).0 (source n).1 issue (recover m).1
            returned)
        last

  -- Where the orchestrator returns, it gives one result for each decision, in their order and with
  -- the issue's identifier, and each by the outcome of `execute` for that issue, after its recovery
  -- and from where the run before has left the machine: completed with the new id of the run exactly
  -- if `execute` returned; in conflict if it raised `RunConflict`; and blocked if it raised
  -- `ExecutionBlocked`, with its message, or the exception's name where that is empty.
  pub run_decisions-Results :
      (n : ℕ) (decisions : List SelectionDecision) (m : Machine W)
      (results : List OrchestratorRunResult)
      → (run_decisions runtime move_status record_blocked dispatch source n decisions m).0
        ≡ ok results
      → Results n m (map (λ d. d.issue) decisions) results
  unfolding run_decisions
  run_decisions-Results n [] m results h = let e : results ≡ [] = cc in rw e (none_left n m)
  run_decisions-Results n (d ∷ decisions) m results h =
      let run = run_issue runtime move_status record_blocked dispatch source n d.issue in
      let later =
        run_decisions runtime move_status record_blocked dispatch source (suc n) decisions in
      let add = λ (result : OrchestratorRunResult) (rest : List OrchestratorRunResult).
        pure {W = W} (result ∷ rest) in
      let (first, ran, h₁) = >>=-ok run (λ result. later >>= add result) m h in
      let (rest, others, last) = >>=-ok later (add first) (run m).1 h₁ in
      let e : results ≡ first ∷ rest = cc in
      rw e (
        one_more n d.issue m (run_issue-IsResult n d.issue m ran)
          (run_decisions-Results (suc n) decisions (run m).1 rest others))
