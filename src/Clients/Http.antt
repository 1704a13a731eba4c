-- ===== src/Clients/Http.antt =====
-- `http_json`: one request, and what is read of its answer. `urlopen` and `json.loads` are
-- parameters, in what they answer.
use hermes_agent_runtime.Base.{ℕ, Bool, String, Option, none, some, if◌then◌else◌}
use hermes_agent_runtime.Base.Dict.{Dict, lookup}
use hermes_agent_runtime.Base.Result.{ok, err}
use hermes_agent_runtime.Base.Text.{codes, occurs}
use hermes_agent_runtime.Runtime.Exceptions.{Call, Exception}
use hermes_agent_runtime.Runtime.Machine.{Action}
use hermes_agent_runtime.Clients.Json.{Json, null, text}

-- `data` is the JSON value of which the body is the text.
pub record WebRequest : Type 0 where
  pub url : String
  pub body : Option Json
  pub headers : Dict String
  pub method : Option String
  pub timeout : ℕ

-- A body that is not empty: what `json.loads` makes of it, and its first 500 bytes as a text
pub record Body : Type 0 where
  pub loaded : Call Json
  pub start : String

-- What `urlopen` gives: a response, an `HTTPError` with the start of its body, or any other
-- exception
pub data Response : Type 0 where
  response : ℕ → Dict String → Option Body → Response
  http_error : ℕ → Dict String → String → Response
  raises : Exception → Response

abbrev pub Web : Type 0 → Type 0
Web W = WebRequest → W → Response × W

-- Status, body and headers
abbrev pub Reply : Type 0
Reply = ℕ × Json × Dict String

abbrev or_nothing : Option String → String
or_nothing none = ""
or_nothing (some s) = s

abbrev with_status : ℕ → Dict String → Call Json → Call Reply
with_status status headers (ok value) = ok (status, value, headers)
with_status status headers (err e) = err e

abbrev loaded_if : Bool → Body → Call Json
loaded_if is_json body = if is_json then body.loaded else ok (text body.start)

unfoldable pub read_response : Response → Call Reply
unfolding lookup codes occurs
read_response (response status headers none) = ok (status, null, headers)
read_response (response status headers (some body)) =
    with_status status headers
      (loaded_if (occurs (codes "json") (codes (or_nothing (lookup "Content-Type" headers)))) body)
read_response (http_error status headers start) = ok (status, text start, headers)
read_response (raises e) = err e

unfoldable pub http_json : {W : Type 0} → Web W → WebRequest → Action W Reply
unfolding read_response
http_json web request w = let (answer, w') = web request w in (read_response answer, w')
