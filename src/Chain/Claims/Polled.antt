-- ===== src/Chain/Claims/Polled.antt =====
-- The poller claims nothing, and decides on the issues that a pass may run.
use hermes_agent_runtime.Base.{◌≡◌, refl, String, select, none, some, List, [], ◌∷◌, map, string_eq}
use mathlib.Core.List.{append-nil}
use hermes_agent_runtime.Base.Result.{ok, err}
use hermes_agent_runtime.Runtime.Exceptions.{Call}
use hermes_agent_runtime.Runtime.Labels.{Issue}
use hermes_agent_runtime.Runtime.Machine.{Machine, M, pure, lift, ask, ◌>>=◌, ◌>>◌}
use hermes_agent_runtime.Chain.Selector.{
  SelectionDecision, LinearIssueSnapshot, SelectionAction, eligible, blocked, ignored, select_issue,
  issue_of,
}
use hermes_agent_runtime.Chain.Laws.{is_runnable, poll_issues-select}
use hermes_agent_runtime.Chain.Poller.{
  Recorder, record_issue, record_if_blocked, reason_or, keep, poll_issues,
}
use hermes_agent_runtime.Chain.Claims.{claims_in}
use hermes_agent_runtime.Chain.Claims.Run.{Claims, Claims-before, last->>=}

-- The issues that a pass may run, of those that are read
abbrev pub issues_read : Call (List LinearIssueSnapshot) → List Issue
issues_read (ok snapshots) = map issue_of (select is_runnable snapshots)
issues_read (err _) = []

module _ {W : Type 0} where
  record_if_blocked-Claims :
      {before : Machine W} (recorder : Recorder W) (d : SelectionDecision) (m : Machine W)
      → Claims [] before m
      → Claims [] before (record_if_blocked recorder d m).1
  unfolding record_issue ask claims_in
  record_if_blocked-Claims {before} recorder d m t = go (d.action) recorder
    where
      reason : String
      reason = reason_or d.reason "ExecutionBlocked"

      go :
          (action : SelectionAction) (r : Recorder W)
          → Claims [] before
              ((elim action as (λ _. M W (Unit {0})) [
                | eligible ↦ pure tt
                | blocked ↦ record_issue r d.issue.identifier reason
                | ignored ↦ pure tt
              ])
                m).1
      go eligible r = t
      go blocked none = t
      go blocked (some note) = Claims-before _ (append-nil (claims_in m.log)) refl t
      go ignored r = t

  pub poll_issues-Claims :
      {before : Machine W} (recorder : Recorder W) (snapshots : List LinearIssueSnapshot)
      (m : Machine W)
      → Claims [] before m
      → Claims [] before (poll_issues recorder snapshots m).1
  unfolding poll_issues
  poll_issues-Claims recorder [] m t = t
  poll_issues-Claims {before} recorder (s ∷ snapshots) m t =
      let P = Claims [] before in
      let add =
        λ (d : SelectionDecision) (rest : List SelectionDecision). pure (keep recorder d rest) in
      let poll_on = λ (d : SelectionDecision). poll_issues recorder snapshots >>= add d in
      last->>= P (lift (select_issue s)) (λ d. record_if_blocked recorder d >> poll_on d) m t
        λ d _.
          let noted = record_if_blocked-Claims recorder d m t in
          last->>= P (record_if_blocked recorder d) (λ _. poll_on d) m noted
            λ _ _.
              let polled = poll_issues-Claims recorder snapshots _ noted in
              last->>= P (poll_issues recorder snapshots) (add d) _ polled (λ _ _. polled)

  pub decided_issues :
      (recorder : Recorder W) (r : Call (List LinearIssueSnapshot)) (m : Machine W)
      (decisions : List SelectionDecision)
      → ((lift r >>= poll_issues recorder) m).0 ≡ ok decisions
      → map (λ d. d.issue) decisions ≡ issues_read r
  decided_issues recorder (ok snapshots) m decisions h =
      poll_issues-select recorder snapshots m decisions h
  decided_issues recorder (err e) m decisions h = cc
