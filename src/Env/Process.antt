-- ===== src/Env/Process.antt =====
-- The environment of the process: `export_into_environ` and `missing_required`.
use hermes_agent_runtime.Base.{
  Bool, true, String, Option, none, some, List, [], ◌∷◌, ◌==◌, string_eq, select,
}
use hermes_agent_runtime.Base.Dict.{Dict, lookup, insert, merge}
use hermes_agent_runtime.Base.Result.{ok, ◌>>=◌}
use hermes_agent_runtime.Runtime.Exceptions.{Call}
use hermes_agent_runtime.Env.File.{Files, load_env}

abbrev pub default_env_file : String
default_env_file = "/home/alexandre/.hermes/shared/.env"

-- `REQUIRED_KEYS`
abbrev pub required_keys : List String
required_keys = "SUPABASE_URL" ∷ "SUPABASE_SERVICE_ROLE_KEY" ∷ "LINEAR_API_KEY" ∷ []

abbrev pub get_or : Option String → String → String
get_or none default = default
get_or (some s) default = s

unfoldable pub env_file_path : Dict String → String
unfolding lookup
env_file_path environ = get_or (lookup "POLLER_ENV_FILE" environ) default_env_file

-- `os.environ.setdefault(key, value)`
abbrev pub set_default : String → String → Dict String → Dict String
set_default key value environ = elim (lookup key environ) [
  | none ↦ insert key value environ
  | some _ ↦ environ
]

-- The loop of `export_into_environ`
unfoldable pub export : Dict String → Dict String → Dict String
unfolding lookup insert
export [] environ = environ
export ((key, value) ∷ env) environ = export env (set_default key value environ)

-- With no path given. What is returned is the new environment.
unfoldable pub export_into_environ : Files → Dict String → Call (Dict String)
unfolding export load_env env_file_path
export_into_environ files environ = do
  env ← load_env files (env_file_path environ)
  ok (export env environ)

-- `not env.get(k)`
abbrev pub is_falsy : Option String → Bool
is_falsy none = true
is_falsy (some s) = s == ""

unfoldable pub missing : Dict String → Dict String → List String
unfolding merge lookup select
missing env environ = select (λ k. is_falsy (lookup k (merge env environ))) required_keys

unfoldable pub missing_required : Files → Dict String → Call (List String)
unfolding missing load_env env_file_path
missing_required files environ = do
  env ← load_env files (env_file_path environ)
  ok (missing env environ)
