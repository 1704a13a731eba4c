-- ===== src/Runtime/Context.antt =====
-- The values of a run: its id, its context and its result.
use Prim.Native.String.{char_at}
use hermes_agent_runtime.Base.{ℕ, zero, suc, ◌+◌, ◌*◌, ◌/◌, ◌%◌, ◌^◌, List, [], ◌∷◌, String, ◌<>◌}
use hermes_agent_runtime.Base.{Option, none, some}
use hermes_agent_runtime.Payloads.Value.{Payload, text}
use hermes_agent_runtime.Runtime.Exceptions.{Event}

-- `ALPHABET`
abbrev pub alphabet : String
alphabet = "0123456789ABCDEFGHJKMNPQRSTVWXYZ"

-- The `n` lowest digits to the base 32, the highest first: `(value >> (5 * i)) & 31` is
-- `value / 32 ^ i % 32`.
unfoldable pub digits : ℕ → ℕ → String
digits zero value = ""
digits (suc i) value = String.◌∷◌ (char_at alphabet (value / 32 ^ i % 32)) (digits i value)

-- From the clock's milliseconds and 80 random bits. `(millis << 80) | bits` is a sum, since the
-- bits lie below 2 ^ 80.
unfoldable pub new_run_id : ℕ → ℕ → String
unfolding digits
new_run_id millis bits = "run_" <> digits 26 (millis * 2 ^ 80 + bits)

pub record ExecutionContext : Type 0 where
  pub run_id : String
  pub linear_issue_id : String
  pub agent : String
  pub risk : String
  pub execution_mode : String
  pub environment : String

pub record ExecutionResult : Type 0 where
  pub commit_sha : Option String
  pub pull_request_url : Option String
  pub railway_deployment_id : Option String
  pub tests_status : Option String
  pub review_status : Option String
  pub events : List Event

abbrev field : String → Option String → Payload → Payload
field name none rest = rest
field name (some value) rest = (name, text value) ∷ rest

-- `ExecutionResult.fields`
unfoldable pub result_fields : ExecutionResult → Payload
result_fields r = field "commit_sha" r.commit_sha (
    field "pull_request_url" r.pull_request_url (
      field "railway_deployment_id" r.railway_deployment_id
        (field "tests_status" r.tests_status (field "review_status" r.review_status []))))
