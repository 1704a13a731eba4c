-- ===== src/Canary/Checks.antt =====
-- canary_readonly.py: `main`, over what it sees of the machine. The lines that it prints are left
-- out.
use hermes_agent_runtime.Base.{
  ℕ, zero, Bool, true, false, ◌&&◌, String, ◌<>◌, Option, none, some, List, [], ◌∷◌, ◌++◌, map,
  ◌==◌, string_eq, if◌then◌else◌, ℤ, pos, ltb, all,
}
use hermes_agent_runtime.Base.Dict.{Dict, lookup}
use hermes_agent_runtime.Base.Result.{ok, err, ◌>>=◌}
use hermes_agent_runtime.Base.Text.{codes, occurs, starts_with}
use hermes_agent_runtime.Runtime.Exceptions.{Call, is_exception}
use hermes_agent_runtime.Supabase.Http.{required, rstrip_slash}
use hermes_agent_runtime.Env.File.{Files}
use hermes_agent_runtime.Env.Process.{get_or, env_file_path, export_into_environ}
use hermes_agent_runtime.Canary.Pin.{Disk, Check, pin_checks}
use hermes_agent_runtime.Canary.Secrets.{SecretFile, secret_checks}

-- What the canary sees. `imports` says which modules can be imported; `board` gives the path of the
-- board's database and the number of its tasks; `suite` is the return code of the chain's tests, if
-- their directory is there, and `verify` that of `systemd-analyze`, both of which run; `head` makes
-- the request of the network probe.
pub record Seen : Type 0 where
  pub executable : String
  pub version : String
  pub environ : Dict String
  pub disk : Disk
  pub imports : String → Bool
  pub board : Call (String × ℕ)
  pub suite : Option ℤ
  pub is_file : String → Bool
  pub verify : ℤ
  pub secrets : String → Option SecretFile
  pub files : Files
  pub head : String → String → Call (Unit {0})

abbrev pub default_pin : String
default_pin = "477b28ede946a6bff5ae562339e31b999015518e"

abbrev pub expected_home : String
expected_home = "/home/alexandre/.hermes"

-- The modules that the chain imports
abbrev pub imported : List String
imported =
    "hermes_cli" ∷ "hermes_cli.kanban_db" ∷ "hermes_cli.kanban_db_connect" ∷ "hermes_agent_runtime"
    ∷ "hermes_agent_runtime.orchestrator" ∷ "hermes_agent_runtime.poller"
    ∷ "hermes_agent_runtime.selector" ∷ "hermes_agent_runtime.adapter"
    ∷ "hermes_agent_runtime.kanban" ∷ "hermes_agent_runtime.payloads"
    ∷ "hermes_agent_runtime.supabase" ∷ []

-- `UNIT_FILES`, each with its name
abbrev pub unit_files : List (String × String)
unit_files =
    (
      "/home/alexandre/.hermes/runtime/poller/hermes-runtime-poller.service",
      "hermes-runtime-poller.service",
    )
    ∷ (
      "/home/alexandre/.hermes/runtime/poller/hermes-runtime-poller.timer",
      "hermes-runtime-poller.timer",
    )
    ∷ (
      "/home/alexandre/.config/systemd/user/hermes-runtime-poller.service",
      "hermes-runtime-poller.service",
    )
    ∷ (
      "/home/alexandre/.config/systemd/user/hermes-runtime-poller.timer",
      "hermes-runtime-poller.timer",
    )
    ∷ []

abbrev has_part : String → String → Bool
has_part word s = occurs (codes word) (codes s)

abbrev pub is_zero : ℤ → Bool
is_zero (pos zero) = true
is_zero _ = false

unfoldable pub interpreter_checks : Seen → List Check
unfolding codes occurs starts_with lookup
interpreter_checks seen =
    (
      "interpreter_is_install_venv",
      has_part "/installs/" seen.executable && has_part "/venv/bin/python" seen.executable,
    )
    ∷ ("python_major_is_3_14", starts_with seen.version "3.14")
    ∷ ("hermes_home_explicit_root", get_or (lookup "HERMES_HOME" seen.environ) "" == expected_home)
    ∷ []

abbrev pub read_board : Call (String × ℕ) → Call (List Check)
read_board (ok (path, total)) = ok (
    ("board_read", ltb 0 total)
    ∷ ("board_is_shared_path", has_part "/.hermes/kanban/boards/" path)
    ∷ [])
read_board (err e) = if is_exception e then ok (("board_read", false) ∷ []) else err e

abbrev pub suite_check : Option ℤ → Check
suite_check none = ("chain_suite", false)
suite_check (some code) = ("chain_suite", is_zero code)

unfoldable pub unit_checks : Seen → List Check
unfolding all
unit_checks seen =
    map (λ unit. ("unit_file_present[" <> unit.1 <> "]", seen.is_file unit.0)) unit_files
    ++ (if all (λ unit. seen.is_file unit.0) unit_files
        then ("systemd_analyze_verify", is_zero seen.verify) ∷ []
        else [])

-- The requests of the network probe
abbrev probe : Seen → Call (Unit {0})
probe seen = do
  environ ← export_into_environ seen.files seen.environ
  url ← required environ "SUPABASE_URL"
  key ← required environ "SUPABASE_SERVICE_ROLE_KEY"
  seen.head (rstrip_slash url <> "/rest/v1/agent_events?select=id") key

abbrev probed : Call (Unit {0}) → Call (List Check)
probed (ok _) = ok (("supabase_readonly", true) ∷ [])
probed (err e) = if is_exception e then ok (("supabase_readonly", false) ∷ []) else err e

unfoldable pub network_checks : Seen → Call (List Check)
unfolding lookup export_into_environ rstrip_slash
network_checks seen =
    if get_or (lookup "POLLER_CANARY_NETWORK" seen.environ) "" == "1"
    then probed (probe seen)
    else ok []

-- The checks in their order, with those that may raise given
abbrev pub joined : Seen → List Check → List Check → List Check → List Check → List Check
joined seen pins boards secrets network =
    interpreter_checks seen
    ++ (pins
        ++ (("imports", all seen.imports imported)
            ∷ (boards ++ (suite_check seen.suite ∷ (unit_checks seen ++ (secrets ++ network))))))

-- All checks; an exception that nothing catches ends the canary.
unfoldable pub checks : Seen → Call (List Check)
unfolding interpreter_checks pin_checks unit_checks secret_checks network_checks env_file_path
    lookup codes occurs all
checks seen = do
  pins ← pin_checks seen.disk (get_or (lookup "CHAIN_PIN" seen.environ) default_pin)
  boards ← read_board seen.board
  secrets ← secret_checks (seen.secrets (env_file_path seen.environ))
  network ← network_checks seen
  ok (joined seen pins boards secrets network)

abbrev pub exit_code : Call (List Check) → Call ℕ
exit_code (ok cs) = ok (if all (λ c. c.1) cs then 0 else 1)
exit_code (err e) = err e

unfoldable pub main : Seen → Call ℕ
unfolding checks all
main seen = exit_code (checks seen)
