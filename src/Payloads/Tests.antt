-- ===== src/Payloads/Tests.antt =====
-- Runs of the payload contract on concrete payloads.
use hermes_agent_runtime.Base.{◌≡◌, refl, true, false, [], ◌∷◌, string_eq, negsuc}
use hermes_agent_runtime.Base.Result.{ok, err}
use hermes_agent_runtime.Payloads.Value.{Payload, null, int, text}
use hermes_agent_runtime.Payloads.Validate.{invalid, validate_https_url, holds_secret}
use hermes_agent_runtime.Payloads.Event.{mapping, validate_event_payload}

abbrev pub card : Payload
card = ("kanban_task_id", text "t_1") ∷ ("status", text "done") ∷ ("assignee", null) ∷ []

card_is_normalized :
    validate_event_payload "kanban.dispatched" (mapping card)
    ≡ ok (("kanban_task_id", text "t_1") ∷ ("status", text "done") ∷ [])
unfolding validate_event_payload string_eq
card_is_normalized = refl

unknown_fields_are_sorted :
    validate_event_payload "run.created" (mapping (("b", null) ∷ ("a", null) ∷ []))
    ≡ err (invalid "Unsupported payload fields for run.created: a, b")
unfolding validate_event_payload string_eq
unknown_fields_are_sorted = refl

exit_code_may_be_negative :
    validate_event_payload "tests.completed"
      (mapping (("tests_status", text "failed") ∷ ("exit_code", int (negsuc 0)) ∷ []))
    ≡ ok (("tests_status", text "failed") ∷ ("exit_code", int (negsuc 0)) ∷ [])
unfolding validate_event_payload string_eq
exit_code_may_be_negative = refl

urls :
    (validate_https_url "u" (text "https://x.y/pull/1") ≡ ok tt)
    × (validate_https_url "u" (text " HTTPS://x.y") ≡ ok tt)
    × (validate_https_url "u" (text "http://x.y") ≡ err (invalid "u must be an HTTPS URL"))
    × (validate_https_url "u" (text "https://x.y/?a")
        ≡ err (invalid "u must not contain query string or fragment"))
unfolding validate_https_url
urls = (refl, refl, refl, refl)

secrets : (holds_secret "my GitHub_TOKEN" ≡ true) × (holds_secret "plain" ≡ false)
unfolding holds_secret
secrets = (refl, refl)
