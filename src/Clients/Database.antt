-- ===== src/Clients/Database.antt =====
-- `Supabase` of smoke_lib.py: reads and deletes through PostgREST, for the smoke tests.
use hermes_agent_runtime.Base.{ℕ, String, ◌<>◌, Option, none, some, [], ◌∷◌, eqb}
use hermes_agent_runtime.Base.Dict.{Dict, lookup, merge}
use hermes_agent_runtime.Base.Result.{ok, err}
use hermes_agent_runtime.Base.Strip.{rstrip}
use hermes_agent_runtime.Runtime.Exceptions.{Call, error}
use hermes_agent_runtime.Runtime.Machine.{Action}
use hermes_agent_runtime.Runtime.Action.{pure, ◌>>=◌}
use hermes_agent_runtime.Clients.Json.{Json}
use hermes_agent_runtime.Clients.Http.{
  WebRequest, Web, Response, response, http_error, raises, http_json,
}

pub record Supabase : Type 0 where
  pub url : String
  pub key : String

abbrev from_settings : Option String → Option String → Call Supabase
from_settings none _ = err (error "KeyError" "SUPABASE_URL")
from_settings (some _) none = err (error "KeyError" "SUPABASE_SERVICE_ROLE_KEY")
from_settings (some url) (some key) = ok (record { url = rstrip (λ c. eqb c b'/') url; key = key })

-- `__init__`, on the settings of the file
unfoldable pub supabase : Dict String → Call Supabase
unfolding lookup rstrip
supabase env = from_settings (lookup "SUPABASE_URL" env) (lookup "SUPABASE_SERVICE_ROLE_KEY" env)

-- What `count` reads of the answer to its `HEAD` request. An `HTTPError` is raised there.
abbrev content_range : Response → Call String
content_range (response status headers body) = ok (shown (lookup "Content-Range" headers))
  where
    shown : Option String → String
    shown none = ""
    shown (some s) = s
content_range (http_error status headers start) = err (error "HTTPError" start)
content_range (raises e) = err e

module _ {W : Type 0} (web : Web W) (database : Supabase) where
  unfoldable pub headers : Dict String → Dict String
  unfolding merge
  headers extra =
      merge
        (("apikey", database.key)
          ∷ ("Authorization", "Bearer " <> database.key)
          ∷ ("Content-Type", "application/json")
          ∷ ("Accept", "application/json")
          ∷ [])
        extra

  abbrev to_table : String → String → Dict String → Option String → WebRequest
  to_table table query extra method = record {
    url = database.url <> "/rest/v1/" <> table <> "?" <> query;
    body = none;
    headers = headers extra;
    method = method;
    timeout = 30;
  }

  unfoldable pub count : String → String → Action W String
  unfolding headers
  count table filter w =
      let (answer, w') =
        web
          (to_table table ("select=*" <> filter) (("Prefer", "count=exact") ∷ ("Range", "0-0") ∷ [])
            (some "HEAD"))
          w in
      (content_range answer, w')

  unfoldable pub select_rows : String → String → Action W (ℕ × Json)
  unfolding headers http_json
  select_rows table query = do
    (status, body, found) ← http_json web (to_table table query [] none)
    pure (status, body)

  unfoldable pub delete_rows : String → String → Action W (ℕ × Json)
  unfolding headers http_json
  delete_rows table query = do
    (status, body, found) ←
        http_json web
          (to_table table query (("Prefer", "return=representation") ∷ []) (some "DELETE"))
    pure (status, body)
