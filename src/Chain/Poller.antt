-- ===== src/Chain/Poller.antt =====
-- poller.py: `LinearIssuePoller.poll`.
use hermes_agent_runtime.Base.{String, Option, none, some, List, [], ◌∷◌}
use hermes_agent_runtime.Base.{if◌then◌else◌, ◌==◌, string_eq}
use hermes_agent_runtime.Runtime.Machine.{Action, M, Request, pure, lift, ask, ◌>>=◌, ◌>>◌}
use hermes_agent_runtime.Chain.Selector.{
  LinearIssueSnapshot, SelectionDecision, eligible, blocked, ignored, is_eligible, select_issue,
}

-- A `BlockedIssueRecorder`, if there is one
abbrev pub Recorder : Type 0 → Type 0
Recorder W = Option (String → String → Action W (Unit {0}))

-- `decision.reason or "ExecutionBlocked"`
abbrev pub reason_or : Option String → String → String
reason_or none default = default
reason_or (some reason) default = if reason == "" then default else reason

module _ {W : Type 0} (record_blocked : Recorder W) where
  unfoldable pub record_issue : String → String → M W (Unit {0})
  unfolding ask
  record_issue issue_id reason = elim record_blocked [
    | none ↦ pure tt
    | some recorder ↦ ask (Request.record_blocked issue_id reason) (recorder issue_id reason)
  ]

  abbrev pub record_if_blocked : SelectionDecision → M W (Unit {0})
  record_if_blocked d = elim (d.action) [
    | eligible ↦ pure tt
    | blocked ↦ record_issue d.issue.identifier (reason_or d.reason "ExecutionBlocked")
    | ignored ↦ pure tt
  ]

  abbrev pub keep : SelectionDecision → List SelectionDecision → List SelectionDecision
  keep d rest = if is_eligible d then d ∷ rest else rest

  unfoldable pub poll_issues : List LinearIssueSnapshot → M W (List SelectionDecision)
  unfolding select_issue record_issue
  poll_issues [] = pure []
  poll_issues (snapshot ∷ snapshots) = do
    decision ← lift (select_issue snapshot)
    record_if_blocked decision
    rest ← poll_issues snapshots
    pure (keep decision rest)

  unfoldable pub poll : Action W (List LinearIssueSnapshot) → M W (List SelectionDecision)
  unfolding poll_issues
  poll read_issues m =
      let (r, w) = read_issues m.world in (lift r >>= poll_issues) (record m { world = w })
