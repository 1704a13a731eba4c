-- ===== src/Tests/Runs.antt =====
-- One run, from the claim to its completion.
use hermes_agent_runtime.Base.{ℕ, ◌≡◌, refl, true, ◌⊎◌, [], string_eq}
use hermes_agent_runtime.Base.Result.{ok, err}
use hermes_agent_runtime.Payloads.Contract.{IdPattern}
use hermes_agent_runtime.Payloads.Validate.{fullmatch}
use hermes_agent_runtime.Base.Text.{codes}
use hermes_agent_runtime.Runtime.Exceptions.{error}
use hermes_agent_runtime.Runtime.Labels.{classify_issue}
use hermes_agent_runtime.Runtime.Context.{ExecutionContext, new_run_id}
use hermes_agent_runtime.Runtime.Machine.{Machine, Dispatch, returns}
use hermes_agent_runtime.Runtime.Execute.{execute, claim}
use hermes_agent_runtime.Runtime.Triple.{Post}
use hermes_agent_runtime.Runtime.Protocol.{completing}
use hermes_agent_runtime.Payloads.Event.{validate_event_payload}
use hermes_agent_runtime.Runtime.Ids.{new_run_id-matches}
use hermes_agent_runtime.Runtime.Lifecycle
use hermes_agent_runtime.Runtime.Completion.{Completed, execute-Completed}
use hermes_agent_runtime.Runtime.Lifecycle.Handler
use hermes_agent_runtime.Runtime.Lifecycle.Finish.{IsFinished, execute-IsFinished}
use hermes_agent_runtime.Tests.World.{
  easy_runtime, silent, backend_issue, backend_class, backend_context, good_work, fresh,
}

classified : classify_issue backend_issue ≡ ok backend_class
unfolding classify_issue string_eq
classified = refl

unfoldable last_machine : Machine ℕ
unfolding execute
last_machine = (execute easy_runtime silent good_work 5 7 backend_issue fresh).1

returned :
    execute easy_runtime silent good_work 5 7 backend_issue fresh
    ≡ (ok backend_context, last_machine)
unfolding last_machine execute string_eq validate_event_payload
returned = refl

execute-Completed_example :
    Completed easy_runtime silent backend_context
      (good_work backend_context)
      backend_context
      last_machine
execute-Completed_example =
    execute-Completed easy_runtime silent good_work 5 7 backend_issue fresh last_machine classified
      returned

execute-protocol_example :
    Post
      (λ _. Lifecycle.Quiet easy_runtime silent backend_context [] completing)
      (Lifecycle.Failed easy_runtime silent backend_context [])
      (execute easy_runtime silent good_work 5 7 backend_issue fresh)
execute-protocol_example =
    Lifecycle.execute-protocol easy_runtime silent good_work 5 7 backend_issue fresh classified refl

new_run_id-matches_example : fullmatch IdPattern.run_id (codes (new_run_id 5 7)) ≡ true
new_run_id-matches_example = new_run_id-matches 5 7

abbrev bad_work : ExecutionContext → Dispatch ℕ
bad_work _ = returns (err (error "ValueError" "no"))

unfoldable failed_machine : Machine ℕ
unfolding execute
failed_machine = (execute easy_runtime silent bad_work 5 7 backend_issue fresh).1

failed :
    execute easy_runtime silent bad_work 5 7 backend_issue fresh
    ≡ (err (error "ValueError" "no"), failed_machine)
unfolding failed_machine execute string_eq validate_event_payload
failed = refl

held : (claim easy_runtime silent backend_context fresh).0 ≡ ok tt
unfolding claim
held = refl

execute-IsFinished_example :
    IsFinished backend_context failed_machine.log
    ⊎ Handler.UpdateFails easy_runtime silent backend_context [] (error "ValueError" "no")
execute-IsFinished_example =
    execute-IsFinished easy_runtime silent bad_work 5 7 backend_issue fresh failed_machine
      classified refl held failed refl
