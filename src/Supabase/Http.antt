-- ===== src/Supabase/Http.antt =====
-- `SupabaseStore.__init__` and `_post`. `urlopen` and what comes back from it are parameters.
use Prim.Native.Char.{code}
use Prim.Native.String.{char_at}
use hermes_agent_runtime.Base.{
  ℕ, zero, suc, ◌/◌, ◌%◌, not, ◌&&◌, ◌||◌, String, ◌<>◌, [], ◌∷◌, Option, none, some,
}
use hermes_agent_runtime.Base.{◌==◌, string_eq, if◌then◌else◌, eqb, ltb}
use hermes_agent_runtime.Base.Dict.{Dict, lookup}
use hermes_agent_runtime.Base.Result.{ok, err, ◌>>=◌}
use hermes_agent_runtime.Base.Text.{starts_with}
use hermes_agent_runtime.Payloads.Value.{Value, null, Payload}
use hermes_agent_runtime.Runtime.Exceptions.{Call, Exception, run_conflict, error}
use hermes_agent_runtime.Runtime.Machine.{Action}

pub record SupabaseStore : Type 0 where
  pub url : String
  pub service_key : String
  pub timeout : ℕ

-- `s.rstrip("/")`
unfoldable pub rstrip_slash : String → String
rstrip_slash String.[] = ""
rstrip_slash (String.◌∷◌ c s) =
    let rest = rstrip_slash s in if eqb (code c) b'/' && rest == "" then "" else String.◌∷◌ c rest

unfoldable pub supabase_store : String → String → ℕ → Call SupabaseStore
unfolding starts_with rstrip_slash
supabase_store url service_key timeout =
    if not (starts_with url "https://") || service_key == ""
    then err (error "ValueError" "HTTPS Supabase URL and server-side key are required")
    else ok (record { url = rstrip_slash url; service_key = service_key; timeout = timeout })

-- `os.environ[name]`
abbrev pub required : Dict String → String → Call String
required environ name = elim (lookup name environ) [
  | none ↦ err (error "KeyError" name)
  | some setting ↦ ok setting
]

-- With the default `timeout`, 15 seconds
unfoldable pub from_environment : Dict String → Call SupabaseStore
unfolding lookup supabase_store
from_environment environ = do
  url ← required environ "SUPABASE_URL"
  service_key ← required environ "SUPABASE_SERVICE_ROLE_KEY"
  supabase_store url service_key 15

-- A field of a request's body: a scalar, or an object
pub data Field : Type 0 where
  value : Value → Field
  object : Payload → Field

pub record HttpRequest : Type 0 where
  pub url : String
  pub body : Dict Field
  pub headers : Dict String
  pub method : String
  pub timeout : ℕ

-- What `urlopen` and the reading of the response give: a body, as `json.loads` reads it if there is
-- one, an `HTTPError` with its code, or any other exception, of the network or of `json.loads`.
pub data Answer : Type 0 where
  body : Option Value → Answer
  http_error : ℕ → Answer
  raises : Exception → Answer

abbrev pub Urlopen : Type 0 → Type 0
Urlopen W = HttpRequest → W → Answer × W

-- `str(n)`, on fuel: `suc n` is enough, since a division by 10 makes a positive number less.
unfoldable pub decimal : ℕ → ℕ → String
decimal zero n = ""
decimal (suc fuel) n =
    let rest = decimal fuel (n / 10) in
    let last = String.◌∷◌ (char_at "0123456789" (n % 10)) "" in
    if ltb n 10 then last else rest <> last

-- `json.loads(data) if data else None`, or what is raised
unfoldable pub reply : Answer → Call Value
unfolding decimal
reply (body none) = ok null
reply (body (some v)) = ok v
reply (http_error code) =
    if eqb code 409
    then err (run_conflict "Active run already exists for this issue")
    else err
        (error "RuntimeError" ("Supabase request failed (HTTP " <> decimal (suc code) code <> ")"))
reply (raises e) = err e

module _ {W : Type 0} (urlopen : Urlopen W) (store : SupabaseStore) where
  unfoldable pub request : String → Dict Field → HttpRequest
  request path fields = record {
    url = store.url <> "/rest/v1/" <> path;
    body = fields;
    headers =
        ("apikey", store.service_key)
        ∷ ("Authorization", "Bearer " <> store.service_key)
        ∷ ("Content-Type", "application/json")
        ∷ ("Accept", "application/json")
        ∷ [];
    method = "POST";
    timeout = store.timeout;
  }

  -- `_post`
  unfoldable pub post : String → Dict Field → Action W Value
  unfolding request reply
  post path fields w = let (answer, w') = urlopen (request path fields) w in (reply answer, w')
