-- ===== src/Chain/Selector.antt =====
-- selector.py: the policy that decides whether an issue may reach `AgentRuntime.execute`.
use hermes_agent_runtime.Base.{
  Bool, true, false, not, String, Option, none, some, List, ◌==◌, string_eq,
}
use hermes_agent_runtime.Base.{if◌then◌else◌}
use hermes_agent_runtime.Base.Result.{ok, err}
use hermes_agent_runtime.Base.Sets.{frozenset}
use hermes_agent_runtime.Runtime.Exceptions.{Call, execution_blocked}
use hermes_agent_runtime.Runtime.Labels.{Issue, Classification, classify_issue}

pub record LinearIssueSnapshot : Type 0 where
  pub identifier : String
  pub status : String
  pub labels : List String

pub data SelectionAction : Type 0 where
  eligible blocked ignored : SelectionAction

pub record SelectionDecision : Type 0 where
  pub issue : Issue
  pub action : SelectionAction
  pub reason : Option String
  pub assignee : Option String
  pub risk : Option String
  pub execution_mode : Option String
  pub environment : Option String

-- `SelectionDecision.eligible`
abbrev pub is_eligible : SelectionDecision → Bool
is_eligible d = elim (d.action) [ eligible ↦ true | blocked ↦ false | ignored ↦ false ]

abbrev pub issue_of : LinearIssueSnapshot → Issue
issue_of s = record { identifier = s.identifier; labels = frozenset s.labels; status = s.status }

abbrev pub refusal : Issue → SelectionAction → String → SelectionDecision
refusal issue action reason = record {
  issue = issue;
  action = action;
  reason = some reason;
  assignee = none;
  risk = none;
  execution_mode = none;
  environment = none;
}

abbrev pub acceptance : Issue → Classification → SelectionDecision
acceptance issue c = record {
  issue = issue;
  action = eligible;
  reason = none;
  assignee = some c.assignee;
  risk = some c.risk;
  execution_mode = some c.mode;
  environment = some c.environment;
}

-- `try: classify_issue(issue) except ExecutionBlocked`
abbrev pub decided : Issue → Call Classification → Call SelectionDecision
decided issue (ok c) = ok (acceptance issue c)
decided issue (err (execution_blocked message)) = ok (refusal issue blocked message)
decided issue (err e) = err e

-- `LinearIssueSelector.select`
unfoldable pub select_issue : LinearIssueSnapshot → Call SelectionDecision
unfolding frozenset classify_issue
select_issue snapshot =
    let issue = issue_of snapshot in
    if not (snapshot.status == "Todo")
    then ok (refusal issue ignored "Only Todo issues are candidates")
    else decided issue (classify_issue issue)
