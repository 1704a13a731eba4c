-- ===== src/Tests/Policies.antt =====
-- The label policy of the chain and that of the guard.
use mathlib.Core.List.Permᴰ
use hermes_agent_runtime.Base.{
  ◌≡◌, ◌≢◌, ◌↔◌, ◌≤◌, ◌+◌, refl, none, [], ◌∷◌, List, string_eq, arith, length, select, take, drop,
  map, ◌++◌,
}
use hermes_agent_runtime.Base.Result.{ok}
use hermes_agent_runtime.Runtime.Labels.{Classification, classify_issue}
use hermes_agent_runtime.Runtime.Labels.Spec.{IsRunnable}
use hermes_agent_runtime.Runtime.Labels.Laws.{classify_issue_iff}
use hermes_agent_runtime.Runtime.Labels.Unordered.{classify_issue-perm}
use hermes_agent_runtime.Chain.Selector.{LinearIssueSnapshot, issue_of}
use hermes_agent_runtime.Guard.Policy.{gate_block_reason, missing_agent, bound}
use hermes_agent_runtime.Guard.Select.{GuardOutcome, select_with_guard, skip}
use hermes_agent_runtime.Guard.Laws.{
  select_with_guard_lem, select_with_guard_bounds, passes, stopped,
}
use hermes_agent_runtime.Guard.Agreement.{gate_block_reason-classify_issue}
use hermes_agent_runtime.Chain.Selector.{SelectionDecision, acceptance}
use hermes_agent_runtime.Chain.Poller.{poll_issues}
use hermes_agent_runtime.Chain.Laws.{is_runnable, poll_issues-select}
use hermes_agent_runtime.Tests.World.{fresh}
use hermes_agent_runtime.Tests.World.{backend_issue, backend_class}

classify_issue_iff_example :
    (classify_issue backend_issue ≡ ok backend_class) ↔ IsRunnable backend_issue backend_class
classify_issue_iff_example = classify_issue_iff backend_issue backend_class

classify_issue-perm_example :
    classify_issue (record backend_issue { labels = "risk:medium" ∷ "agent:backend" ∷ [] })
    ≡ classify_issue backend_issue
classify_issue-perm_example = classify_issue-perm backend_issue (Permᴰ.swap refl refl)

abbrev ready : LinearIssueSnapshot
ready = record {
  identifier = "HER-3";
  status = "Todo";
  labels = "agent:qa" ∷ "risk:low" ∷ "execution:auto" ∷ "env:staging" ∷ [];
}

abbrev unlabelled : LinearIssueSnapshot
unlabelled = record { identifier = "HER-4"; status = "Todo"; labels = [] }

abbrev second : LinearIssueSnapshot
second = record ready { identifier = "HER-5" }

ready_passes : gate_block_reason "HER-3" ready.labels ≡ none
unfolding gate_block_reason string_eq
ready_passes = refl

gate_block_reason-classify_issue_example :
    (c : Classification) × (classify_issue (issue_of ready) ≡ ok c)
    × (c.mode ≡ "auto")
    × (c.environment ≢ "production")
    × (c.risk ≢ "high")
    × (c.risk ≢ "critical")
gate_block_reason-classify_issue_example = gate_block_reason-classify_issue ready refl ready_passes

abbrev pub batch : List LinearIssueSnapshot
batch = ready ∷ unlabelled ∷ second ∷ []

abbrev batch_outcome : GuardOutcome
batch_outcome = record {
  dispatched = ready ∷ [];
  skipped = skip unlabelled missing_agent ∷ skip second (bound 1) ∷ [];
}

batch_run : select_with_guard batch [] 1 ≡ ok batch_outcome
unfolding select_with_guard string_eq
batch_run = refl

select_with_guard_bounds_example :
    (length batch_outcome.dispatched ≤ 1)
    × (length batch_outcome.dispatched + length batch_outcome.skipped ≡ length batch)
select_with_guard_bounds_example = select_with_guard_bounds batch [] 1 batch_outcome batch_run

select_with_guard_lem_example :
    select_with_guard batch [] 1
    ≡ ok (record {
      dispatched = take 1 (select (passes []) batch);
      skipped = stopped [] batch ++ map (λ s. skip s (bound 1)) (drop 1 (select (passes []) batch));
    })
select_with_guard_lem_example = select_with_guard_lem batch [] 1 (omega arith)

abbrev ready_class : Classification
ready_class = record {
  assignee = "qualidade";
  risk = "low";
  mode = "auto";
  environment = "staging";
}

abbrev pub polled : List SelectionDecision
polled = acceptance (issue_of ready) ready_class ∷ acceptance (issue_of second) ready_class ∷ []

poll_run : (poll_issues none batch fresh).0 ≡ ok polled
unfolding poll_issues string_eq
poll_run = refl

poll_issues-select_example : map (λ d. d.issue) polled ≡ map issue_of (select is_runnable batch)
poll_issues-select_example = poll_issues-select none batch fresh polled poll_run
