-- ===== src/Tick/Startup.antt =====
-- The check of the settings before a tick, and what the tick then finds in its environment.
use hermes_agent_runtime.Base.{
  ◌≡◌, ◌≢◌, ◌↔◌, refl, ap, ◌∙◌, ℕ, Bool, true, false, String, some, List, [], ◌∷◌, ◌==◌, string_eq,
  if◌then◌else◌,
}
use hermes_agent_runtime.Base.Dict.{Dict, lookup, keys, or_else}
use hermes_agent_runtime.Base.Result.{ok, err, ◌>>=◌, >>=-eq-ok}
use hermes_agent_runtime.Runtime.Exceptions.{Call, is_exception}
use hermes_agent_runtime.Runtime.Machine.{Dispatch, Machine}
use hermes_agent_runtime.Supabase.Http.{supabase_store, required, from_environment}
use hermes_agent_runtime.Chain.Orchestrator.{OrchestratorRunResult}
use hermes_agent_runtime.Env.File.{Files, load_env}
use hermes_agent_runtime.Env.Process.{
  env_file_path, export, export_into_environ, missing, missing_required,
}
use hermes_agent_runtime.Env.Laws.{Distinct, IsSetIn, export_complete, lookup-export}
use hermes_agent_runtime.Env.Missing.{Lacks, missing_required-Lacks, Lacks-missing_required}
use hermes_agent_runtime.Tick.Main.{
  Settings, Outside, Chain, exit_code, run_built, proceed, main, at_rest,
}

-- What the process has at hand for a tick
pub record IsReady (files : Files) (environ : Dict String) : Type 0 where
  pub environ' : Dict String
  pub exported : export_into_environ files environ ≡ ok environ'
  pub url : String
  pub service_key : String
  pub stored : from_environment environ' ≡ supabase_store url service_key 15
  pub keyed : (service_key == "") ≡ false
  pub linear : IsSetIn environ' "LINEAR_API_KEY"
  pub kept : (k v : String) → lookup k environ ≡ some v → lookup k environ' ≡ some v

required-some :
    (environ : Dict String) (name : String) {v : String}
    → lookup name environ ≡ some v
    → required environ name ≡ ok v
required-some environ name h = rw (required, h) refl

from_environment_lem :
    (environ : Dict String) {url service_key : String}
    → lookup "SUPABASE_URL" environ ≡ some url
    → lookup "SUPABASE_SERVICE_ROLE_KEY" environ ≡ some service_key
    → from_environment environ ≡ supabase_store url service_key 15
unfolding from_environment
from_environment_lem environ {url} u k =
    let connect = λ (url' service_key' : String). supabase_store url' service_key' 15 in
    let read_key =
      λ (url' : String). required environ "SUPABASE_SERVICE_ROLE_KEY" >>= connect url' in
    ap (λ r. r >>= read_key) (required-some environ "SUPABASE_URL" u)
    ∙ ap (λ r. r >>= connect url) (required-some environ "SUPABASE_SERVICE_ROLE_KEY" k)

export-keeps :
    (env environ : Dict String) (k v : String)
    → lookup k environ ≡ some v
    → lookup k (export env environ) ≡ some v
unfolding or_else
export-keeps env environ k v h = rw (lookup-export k env environ, h) refl

-- If `missing_required` finds nothing missing, `export_into_environ` returns, `from_environment`
-- then reads a URL and a service key that is not empty without a `KeyError`, the key of Linear
-- is set, and every setting that the process had before is kept. No name stands twice in an
-- environment.
pub missing_required-IsReady :
    (files : Files) (environ : Dict String)
    → Distinct (keys environ)
    → missing_required files environ ≡ ok []
    → IsReady files environ
unfolding missing_required export_into_environ
missing_required-IsReady files environ d h =
    let (env, loaded, none_missing) =
      >>=-eq-ok (load_env files (env_file_path environ)) (λ env. ok (missing env environ)) h in
    let complete : missing env environ ≡ [] = cc in
    let (u, others) = export_complete env environ d complete in
    let (k, last) = others in
    record {
      environ' = export env environ;
      exported = rw loaded refl;
      url = u.0;
      service_key = k.0;
      stored = from_environment_lem (export env environ) u.1 k.1;
      keyed = k.2;
      linear = last.0;
      kept = export-keeps env environ;
    }

module _ {W : Type 0} (outside : Outside W) (settings : Settings) (out : Dispatch W) (fuel : ℕ)
    (wakeups : List ℕ) where
  open outside use {files}

  exit_code-ne : (r : Call (List OrchestratorRunResult)) → exit_code outside settings r ≢ ok 78
  exit_code-ne (ok results) h = cc
  exit_code-ne (err e) h = go (is_exception e) h
    where
      go : (b : Bool) → if◌then◌else◌ {A = Call ℕ} b (ok 1) (err e) ≢ ok 78
      go true k = cc
      go false k = cc

  run_built-ne :
      (chain : Call (Chain W)) (w : W)
      → (run_built outside settings out fuel wakeups chain w).0 ≢ ok 78
  run_built-ne (ok chain) w h = exit_code-ne _ h
  run_built-ne (err e) w h = cc

  abbrev started : Call (List String) → Dict String → W → Call ℕ × Machine W
  started missing environ w = proceed outside settings out fuel wakeups environ missing w

  stops_of :
      (missing : Call (List String)) (environ : Dict String) (w : W)
      → (started missing environ w).0 ≡ ok 78
      → (k : String) × (ks : List String) × (missing ≡ ok (k ∷ ks))
        × (started missing environ w ≡ (ok 78, at_rest wakeups w))
  stops_of (ok []) environ w h = absurd (run_built-ne _ _ h)
  stops_of (ok (k ∷ ks)) environ w h = (k, ks, refl, refl)
  stops_of (err e) environ w h = cc

  missed_name :
      (environ : Dict String) (w : W)
      → (started (missing_required files environ) environ w).0 ≡ ok 78
      → Lacks files environ
  missed_name environ w h =
      let (k, ks, lacks, same) = stops_of (missing_required files environ) environ w h in
      missing_required-Lacks files environ lacks

  stopped :
      (environ : Dict String) (w : W)
      → Lacks files environ
      → started (missing_required files environ) environ w ≡ (ok 78, at_rest wakeups w)
  stopped environ w missed =
      let (k, ks, lacks) = Lacks-missing_required files environ missed in
      ap (λ missing. started missing environ w) lacks

  -- A tick exits with 78 exactly if the file of settings is read and a setting that is required is
  -- missing or empty in the mapping that lays the environment over the file; and exactly then it
  -- exits with 78, has made no call, and leaves the world as it was.
  pub main-Lacks :
      (environ : Dict String) (w : W)
      → (((main outside settings out fuel wakeups environ w).0 ≡ ok 78) ↔ Lacks files environ)
        × ((main outside settings out fuel wakeups environ w ≡ (ok 78, at_rest wakeups w))
            ↔ Lacks files environ)
  unfolding main
  main-Lacks environ w = (
    (missed_name environ w, λ lacks. ap (λ o. o.0) (stopped environ w lacks)),
    (λ h. missed_name environ w (ap (λ o. o.0) h), stopped environ w),
  )
