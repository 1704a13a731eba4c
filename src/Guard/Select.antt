-- ===== src/Guard/Select.antt =====
-- `select_with_guard`
use hermes_agent_runtime.Base.{ℕ, List, [], ◌∷◌, ◌++◌, map, String, Option, none, some}
use hermes_agent_runtime.Base.{contains, string_eq, if◌then◌else◌, ltb, take, drop}
use hermes_agent_runtime.Base.Result.{ok, err}
use hermes_agent_runtime.Runtime.Exceptions.{Call, error}
use hermes_agent_runtime.Chain.Selector.{LinearIssueSnapshot}
use hermes_agent_runtime.Guard.Policy.{Reason, card_exists, bound, gate_block_reason}

pub record Skip : Type 0 where
  pub identifier : String
  pub reason : Reason

pub record GuardOutcome : Type 0 where
  pub dispatched : List LinearIssueSnapshot
  pub skipped : List Skip

abbrev pub skip : LinearIssueSnapshot → Reason → Skip
skip snapshot reason = record { identifier = snapshot.identifier; reason = reason }

-- The dedup and the policy: why a snapshot is skipped before the bound is looked at
unfoldable pub first_reason : List String → LinearIssueSnapshot → Option Reason
unfolding contains gate_block_reason
first_reason existing snapshot =
    if contains existing snapshot.identifier
    then some card_exists
    else gate_block_reason snapshot.identifier snapshot.labels

abbrev pub add : LinearIssueSnapshot → Option Reason → GuardOutcome → GuardOutcome
add snapshot none o = record o { dispatched = o.dispatched ++ (snapshot ∷ []) }
add snapshot (some reason) o = record o { skipped = o.skipped ++ (skip snapshot reason ∷ []) }

-- The loop over the snapshots
unfoldable pub sift : List String → List LinearIssueSnapshot → GuardOutcome → GuardOutcome
unfolding first_reason
sift existing [] o = o
sift existing (snapshot ∷ snapshots) o =
    sift existing snapshots (add snapshot (first_reason existing snapshot) o)

abbrev pub cut_off : ℕ → GuardOutcome → GuardOutcome
cut_off max_dispatch o = record {
  dispatched = take max_dispatch o.dispatched;
  skipped = o.skipped ++ map (λ s. skip s (bound max_dispatch)) (drop max_dispatch o.dispatched);
}

-- A negative bound is refused as 0 is.
unfoldable pub select_with_guard : List LinearIssueSnapshot → List String → ℕ → Call GuardOutcome
unfolding sift
select_with_guard snapshots existing_ids max_dispatch =
    if ltb max_dispatch 1
    then err (error "ValueError" "max_dispatch must be >= 1")
    else ok (
        cut_off max_dispatch
          (sift existing_ids snapshots (record { dispatched = []; skipped = [] })))
