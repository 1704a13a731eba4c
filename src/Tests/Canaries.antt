-- ===== src/Tests/Canaries.antt =====
-- A machine on which the canary passes.
use hermes_agent_runtime.Base.{
  Bool, ◌≡◌, ◌↔◌, refl, true, false, String, some, none, [], ◌∷◌, string_eq, contains, All, pos,
  if◌then◌else◌, ◌==◌,
}
use hermes_agent_runtime.Base.Dict.{Dict, keys}
use hermes_agent_runtime.Base.Result.{ok}
use hermes_agent_runtime.Base.Strip.{splitlines}
use hermes_agent_runtime.Env.File.{parse_env}
use hermes_agent_runtime.Env.Process.{missing_required}
use hermes_agent_runtime.Canary.Pin.{Disk, commit, generate, hash_files, pin_checks}
use hermes_agent_runtime.Canary.Secrets.{keys_in, keys_present}
use hermes_agent_runtime.Canary.Checks.{Seen, main}
use hermes_agent_runtime.Canary.Laws.{keys_in-parse_env}
use hermes_agent_runtime.Canary.Pinned.{Holds, is_covered, Same, generate-pin_checks}
use hermes_agent_runtime.Canary.Probe.{Probed, probe}
use hermes_agent_runtime.Canary.Probes.{IsComplete, probe_iff}
use hermes_agent_runtime.Canary.Prepared.{IsPrepared, main-IsPrepared}

abbrev bare : Disk
bare = record {
  listing =
      record { path = "src/a.py"; name = "a.py"; is_file = true }
      ∷ record { path = "src"; name = "src"; is_file = false }
      ∷ [];
  digest = λ path. if path == "src/a.py" then some "ab12" else none;
  pin = none;
}

abbrev pinned : Disk
unfolding generate
pinned = (generate "fix\n" "git@x\n" "2026" bare).1

generated : generate "fix\n" "git@x\n" "2026" bare ≡ (ok 0, pinned)
unfolding generate string_eq
generated = refl

generate-pin_checks_example :
    (files : Dict String) × (passed : Bool) × (hash_files bare bare.listing [] ≡ ok files)
    × All (λ entry. is_covered files entry ≡ true) bare.listing
    × All (Holds bare) files
    × (pin_checks pinned commit
        ≡ ok (("chain_pin_commit", true) ∷ ("chain_pin_files", passed) ∷ []))
    × ((passed ≡ true) ↔ All (Same pinned) files)
generate-pin_checks_example =
    generate-pin_checks "fix\n" "git@x\n" "2026" bare pinned pinned generated refl

abbrev blank_settings : String
blank_settings = "SUPABASE_URL=\nSUPABASE_SERVICE_ROLE_KEY=k\nLINEAR_API_KEY=l\n"

keys_in-parse_env_example :
    contains (keys_in (splitlines blank_settings)) "SUPABASE_URL"
    ≡ contains (keys (parse_env blank_settings)) "SUPABASE_URL"
keys_in-parse_env_example = keys_in-parse_env "SUPABASE_URL" blank_settings

-- A setting may be empty for the canary, but not for the tick.
blank_present : keys_present blank_settings ≡ true
unfolding keys_present string_eq
blank_present = refl

blank_missing : missing_required (λ _. ok blank_settings) [] ≡ ok ("SUPABASE_URL" ∷ [])
unfolding missing_required string_eq
blank_missing = refl

abbrev prepared : Seen
prepared = record {
  executable = "/opt/installs/3/venv/bin/python";
  version = "3.14.1";
  environ = ("HERMES_HOME", "/home/alexandre/.hermes") ∷ [];
  disk = pinned;
  imports = λ _. true;
  board = ok ("/root/.hermes/kanban/boards/lolcoach.db", 3);
  suite = some (pos 0);
  is_file = λ _. true;
  verify = pos 0;
  secrets = λ _. some (record { mode = "0o600"; contents = ok blank_settings });
  files = λ _. ok blank_settings;
  head = λ url key. ok tt;
}

exits_well : main prepared ≡ ok 0
unfolding main string_eq generate
exits_well = refl

main-IsPrepared_example : IsPrepared prepared
main-IsPrepared_example = main-IsPrepared prepared exits_well

abbrev able : Probed
able = record {
  imports = λ _. true;
  git = ok (pos 0, "dc3f7dfcc733caa167e2173ab5fbe4da1d680b78\n");
  attributes = λ _. ok (λ _. true);
  board = ok 4;
}

probe_iff_example : (probe able ≡ ok 0) ↔ IsComplete able
probe_iff_example = probe_iff able

probe_passes : probe able ≡ ok 0
unfolding probe string_eq
probe_passes = refl
