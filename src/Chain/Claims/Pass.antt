-- ===== src/Chain/Claims/Pass.antt =====
-- A pass of the orchestrator claims at most one run for each issue, in the order of the issues.
use hermes_agent_runtime.Base.{
  ℕ, suc, ◌≡◌, refl, ◌∙◌, false, String, subst, ap, none, some, List, [], ◌∷◌, ◌++◌, map,
  if◌then◌else◌, ◌==◌, string_eq,
}
use mathlib.Core.List.{append-nil}
use hermes_agent_runtime.Base.Result.{ok, err}
use hermes_agent_runtime.Runtime.Exceptions.{
  Call, run_conflict, execution_blocked, execution_event_error, error, interrupt,
}
use hermes_agent_runtime.Runtime.Context.{ExecutionContext}
use hermes_agent_runtime.Runtime.Labels.{Issue}
use hermes_agent_runtime.Runtime.Machine.{Action, Dispatch, Machine, M, pure, lift, ask, ◌>>=◌}
use hermes_agent_runtime.Runtime.Execute.{AgentRuntime, MoveStatus, execute}
use hermes_agent_runtime.Chain.Selector.{SelectionDecision, LinearIssueSnapshot}
use hermes_agent_runtime.Chain.Poller.{Recorder, record_issue, poll_issues, poll}
use hermes_agent_runtime.Chain.Orchestrator.{
  OrchestratorRunResult, report, recover_expired_issue, run_issue, run_decisions, run_once,
  run_result,
}
use hermes_agent_runtime.Chain.Claims.{claims_in, no_issue-nothing}
use hermes_agent_runtime.Chain.Claims.Run.{
  Claims, Claims-refl, Claims-cons, Claims-after, Claims-before, last->>=, execute-Claims,
}
use hermes_agent_runtime.Chain.Claims.Polled.{poll_issues-Claims, issues_read, decided_issues}

module _ {W : Type 0} (runtime : AgentRuntime W) (move_status : MoveStatus W) where
  module _ (record_blocked : Recorder W) (dispatch : ExecutionContext → Dispatch W)
      (source : ℕ → ℕ × ℕ) where
    abbrev run : ℕ → Issue → M W OrchestratorRunResult
    run = run_issue runtime move_status record_blocked dispatch source

    record_issue-Claims :
        {issues : List Issue} {before : Machine W} (issue_id reason : String) (m : Machine W)
        → Claims issues before m
        → Claims issues before (record_issue record_blocked issue_id reason m).1
    unfolding record_issue ask claims_in
    record_issue-Claims {issues} {before} issue_id reason m t = go record_blocked
      where
        go :
            (recorder : Recorder W)
            → Claims issues before (record_issue recorder issue_id reason m).1
        go none = t
        go (some note) = Claims-before _ (append-nil (claims_in m.log)) refl t

    report-Claims :
        {issues : List Issue} {before : Machine W} (issue_id : String) (r : Call ExecutionContext)
        (m : Machine W)
        → Claims issues before m
        → Claims issues before
            (report runtime move_status record_blocked dispatch source issue_id r m).1
    unfolding report
    report-Claims issue_id (ok _) m t = t
    report-Claims {issues} {before} issue_id (err (run_conflict message)) m t =
        last->>= (Claims issues before) (record_issue record_blocked issue_id "RunConflict")
          (λ _. pure (run_result issue_id "conflict" none (some "RunConflict"))) m
          (record_issue-Claims issue_id "RunConflict" m t)
          (λ _ _. record_issue-Claims issue_id "RunConflict" m t)
    report-Claims {issues} {before} issue_id (err (execution_blocked message)) m t =
        let reason = if message == "" then "ExecutionBlocked" else message in
        last->>= (Claims issues before) (record_issue record_blocked issue_id reason)
          (λ _. pure (run_result issue_id "blocked" none (some reason))) m
          (record_issue-Claims issue_id reason m t) (λ _ _. record_issue-Claims issue_id reason m t)
    report-Claims issue_id (err (execution_event_error name events)) m t = t
    report-Claims issue_id (err (error name message)) m t = t
    report-Claims issue_id (err (interrupt name)) m t = t

    recovered : String → Machine W → Machine W
    recovered issue_id m =
        (recover_expired_issue runtime move_status record_blocked dispatch source issue_id m).1

    recovered-claims :
        (issue_id : String) (m : Machine W) → claims_in (recovered issue_id m).log ≡ claims_in m.log
    unfolding recovered recover_expired_issue ask claims_in
    recovered-claims issue_id m = append-nil (claims_in m.log)

    recovered-rest : (issue_id : String) (m : Machine W) → (recovered issue_id m).alive ≡ m.alive
    unfolding recovered recover_expired_issue ask
    recovered-rest issue_id m = refl

    run_issue-Claims :
        (n : ℕ) (issue : Issue) (m : Machine W)
        → m.alive ≡ false
        → Claims (issue ∷ []) m (run n issue m).1
    unfolding run_issue recovered
    run_issue-Claims n issue m rest =
        let m₁ = recovered issue.identifier m in
        let rest₁ = recovered-rest issue.identifier m ∙ rest in
        let same = recovered-claims issue.identifier m in
        last->>= (Claims (issue ∷ []) m)
          (recover_expired_issue runtime move_status record_blocked dispatch source
            issue.identifier)
          (λ _ m'.
            let (r, m₂) = execute runtime move_status dispatch (source n).0 (source n).1 issue m' in
            report runtime move_status record_blocked dispatch source issue.identifier r m₂)
          m (Claims-after m same (Claims-refl (issue ∷ []) m₁ rest₁))
          (λ _ _. report-Claims issue.identifier _ _ (
            Claims-after m same (
              execute-Claims runtime move_status dispatch (source n).0 (source n).1 issue m₁
                rest₁)))

    pub run_decisions-Claims :
        (n : ℕ) (decisions : List SelectionDecision) (m : Machine W)
        → m.alive ≡ false
        → Claims
            (map (λ d. d.issue) decisions)
            m
            (run_decisions runtime move_status record_blocked dispatch source n decisions m).1
    unfolding run_decisions
    run_decisions-Claims n [] m rest = Claims-refl [] m rest
    run_decisions-Claims n (d ∷ decisions) m rest =
        let first = run_issue-Claims n d.issue m rest in
        let issues = map (λ d'. d'.issue) decisions in
        let later =
          run_decisions runtime move_status record_blocked dispatch source (suc n) decisions in
        let m₁ = (run n d.issue m).1 in
        let others = Claims-cons first (run_decisions-Claims (suc n) decisions m₁ first.at_rest) in
        let P = Claims (d.issue ∷ issues) m in
        let add = λ (result : OrchestratorRunResult) (results : List OrchestratorRunResult).
          pure (result ∷ results) in
        last->>= P (run n d.issue) (λ result. later >>= add result) m
          (Claims-cons first (Claims-refl issues m₁ first.at_rest))
          (λ result _. last->>= P later (add result) m₁ others (λ _ _. others))

  Claims-join :
      {issues : List Issue} {m m₁ m₂ : Machine W}
      → Claims [] m m₁
      → Claims issues m₁ m₂
      → Claims issues m m₂
  Claims-join {m = m} t u =
      let same = t.claimed ∙ ap (λ cs. claims_in m.log ++ cs) (no_issue-nothing t.chosen) in
      Claims-after m (same ∙ append-nil (claims_in m.log)) u

  -- On a machine whose heartbeat thread is stopped a pass of the orchestrator claims at most one run
  -- for each snapshot that is read and that `classify_issue` accepts, in the order of the snapshots,
  -- and for nothing else: the context of each claim is that of its issue, as its labels classify it.
  -- However the pass ends, the heartbeat thread is stopped.
  pub run_once-Claims :
      (record_blocked : Recorder W) (dispatch : ExecutionContext → Dispatch W) (source : ℕ → ℕ × ℕ)
      (poller_recorder : Recorder W) (read_issues : Action W (List LinearIssueSnapshot))
      (m : Machine W)
      → m.alive ≡ false
      → Claims
          (issues_read (read_issues m.world).0)
          m
          (run_once runtime move_status record_blocked dispatch source poller_recorder read_issues
            m).1
  unfolding run_once poll
  run_once-Claims record_blocked dispatch source poller_recorder read_issues m rest =
      let issues = issues_read (read_issues m.world).0 in
      let P = Claims issues m in
      let m₀ = record m { world = (read_issues m.world).1 } in
      let polled =
        polls (read_issues m.world).0 m₀ (Claims-after m refl (Claims-refl [] m₀ rest)) in
      let m₁ = (poll poller_recorder read_issues m).1 in
      last->>= P (poll poller_recorder read_issues)
        (run_decisions runtime move_status record_blocked dispatch source 0) m
        (Claims-join polled (Claims-refl issues _ polled.at_rest))
        λ decisions returned.
          let same = decided_issues poller_recorder (read_issues m.world).0 m₀ decisions returned in
          Claims-join polled (
            subst
              (λ is.
                Claims is m₁
                  (run_decisions runtime move_status record_blocked dispatch source 0 decisions
                    m₁).1)
              same
              (run_decisions-Claims record_blocked dispatch source 0 decisions m₁ polled.at_rest))
    where
      polls :
          (r : Call (List LinearIssueSnapshot)) (m₀ : Machine W)
          → Claims [] m m₀
          → Claims [] m ((lift r >>= poll_issues poller_recorder) m₀).1
      polls (ok snapshots) m₀ t = poll_issues-Claims poller_recorder snapshots m₀ t
      polls (err e) m₀ t = t
