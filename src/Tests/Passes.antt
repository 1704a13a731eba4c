-- ===== src/Tests/Passes.antt =====
-- A pass over two issues that may run.
use hermes_agent_runtime.Base.{ℕ, ◌≡◌, refl, some, none, List, [], ◌∷◌, string_eq, map}
use hermes_agent_runtime.Base.Result.{ok}
use hermes_agent_runtime.Base.Sets.{frozenset}
use hermes_agent_runtime.Runtime.Context.{new_run_id}
use hermes_agent_runtime.Runtime.Machine.{Action}
use hermes_agent_runtime.Payloads.Event.{validate_event_payload}
use hermes_agent_runtime.Chain.Selector.{LinearIssueSnapshot}
use hermes_agent_runtime.Chain.Orchestrator.{
  OrchestratorRunResult, run_result, run_decisions, run_once,
}
use hermes_agent_runtime.Chain.Claims.Run.{Claims}
use hermes_agent_runtime.Chain.Claims.Polled.{issues_read}
use hermes_agent_runtime.Chain.Claims.Pass.{run_once-Claims}
use hermes_agent_runtime.Chain.Results.{Results, run_decisions-Results}
use hermes_agent_runtime.Tests.World.{easy_runtime, silent, good_work, fresh}
use hermes_agent_runtime.Tests.Policies.{batch, polled}

abbrev lists_batch : Action ℕ (List LinearIssueSnapshot)
lists_batch w = (ok batch, w)

abbrev numbered : ℕ → ℕ × ℕ
numbered n = (n, 7)

run_once-Claims_example :
    Claims
      (issues_read (ok batch))
      fresh
      (run_once easy_runtime silent none good_work numbered none lists_batch fresh).1
run_once-Claims_example =
    run_once-Claims easy_runtime silent none good_work numbered none lists_batch fresh refl

abbrev both : List OrchestratorRunResult
both =
    run_result "HER-3" "completed" (some (new_run_id 0 7)) none
    ∷ run_result "HER-5" "completed" (some (new_run_id 1 7)) none
    ∷ []

both_run : (run_decisions easy_runtime silent none good_work numbered 0 polled fresh).0 ≡ ok both
unfolding run_decisions string_eq validate_event_payload frozenset
both_run = refl

run_decisions-Results_example :
    Results easy_runtime silent none good_work numbered 0 fresh (map (λ d. d.issue) polled) both
run_decisions-Results_example =
    run_decisions-Results easy_runtime silent none good_work numbered 0 polled fresh both both_run
