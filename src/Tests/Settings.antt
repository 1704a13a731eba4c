-- ===== src/Tests/Settings.antt =====
-- A file of settings, and a tick that starts from it.
use hermes_agent_runtime.Base.{
  ℕ, ◌+◌, ◌≡◌, ◌↔◌, refl, true, false, String, ◌<>◌, some, [], ◌∷◌, string_eq, All, contains, map,
  ◌==◌,
}
use hermes_agent_runtime.Base.Dict.{Dict, merge, keys}
use hermes_agent_runtime.Base.Result.{ok}
use hermes_agent_runtime.Base.Strip.{all_codes}
use hermes_agent_runtime.Payloads.Value.{bool}
use hermes_agent_runtime.Runtime.Machine.{Dispatch, returns}
use hermes_agent_runtime.Supabase.Http.{Urlopen, Answer}
use hermes_agent_runtime.Env.File.{Files, parse_env}
use hermes_agent_runtime.Env.Process.{missing_required}
use hermes_agent_runtime.Env.Laws.{Distinct}
use hermes_agent_runtime.Env.Print.{is_plain, IsEntryOf, print_env, parse_env-print_env}
use hermes_agent_runtime.Payloads.Event.{validate_event_payload}
use hermes_agent_runtime.Chain.Claims.{claims_in}
use hermes_agent_runtime.Tick.Board.{start, read_task}
use hermes_agent_runtime.Runtime.Events.{Key-discrete}
use hermes_agent_runtime.Tick.Main.{Settings, Outside, main, at_rest}
use hermes_agent_runtime.Tick.Safety.{IsCalm}
use hermes_agent_runtime.Tick.Safety.Main.{tick_bound, main-IsCalm}
use hermes_agent_runtime.Env.Missing.{Lacks}
use hermes_agent_runtime.Tick.Startup.{IsReady, missing_required-IsReady, main-Lacks}
use hermes_agent_runtime.Tests.World.{good_result}
use hermes_agent_runtime.Tests.Ticks.{linear_web, board}

abbrev entries : Dict String
entries = ("SUPABASE_URL", "https://x.y") ∷ ("LINEAR_API_KEY", "lin_1") ∷ []

url_named : ◌==◌ {A = String} "SUPABASE_URL" "" ≡ false
unfolding string_eq
url_named = refl

key_named : ◌==◌ {A = String} "LINEAR_API_KEY" "" ≡ false
unfolding string_eq
key_named = refl

entry_plain : All IsEntryOf entries
unfolding all_codes is_plain
entry_plain = (
  record {
    plain_key = refl;
    no_sign = refl;
    no_comment = refl;
    named = url_named;
    plain_value = refl;
  },
  (
    record {
      plain_key = refl;
      no_sign = refl;
      no_comment = refl;
      named = key_named;
      plain_value = refl;
    },
    tt,
  ),
)

parse_env-print_env_example : parse_env (print_env entries) ≡ merge [] entries
parse_env-print_env_example = parse_env-print_env entries entry_plain

abbrev shared_file : Files
shared_file path = ok (
    "# shared\nexport_me = no\nSUPABASE_URL=\"https://x.y\"\nSUPABASE_SERVICE_ROLE_KEY='key'\n"
    <> "LINEAR_API_KEY=lin_1\n")

abbrev environ : Dict String
environ = ("HOME", "/root") ∷ ("POLLER_MAX_DISPATCH_PER_TICK", "2") ∷ []

nothing_missing : missing_required shared_file environ ≡ ok []
unfolding missing_required string_eq
nothing_missing = refl

distinct : Distinct (keys environ)
unfolding keys contains string_eq
distinct = (refl, (refl, tt))

missing_required-IsReady_example : IsReady shared_file environ
missing_required-IsReady_example =
    missing_required-IsReady shared_file environ distinct nothing_missing

abbrev friendly : Urlopen ℕ
friendly request n = (Answer.body (some (bool true)), n + 1)

abbrev outside : Outside ℕ
outside = record {
  files = shared_file;
  web = linear_web;
  urlopen = friendly;
  board = board;
  sleep = λ n w. n + w;
  monotonic = λ w. w;
  source = λ n. (5, n);
}

abbrev settings : Settings
settings = record {
  team_key = "LOL";
  poll_seconds = 5;
  run_timeout_seconds = 60;
  claim_ttl_seconds = 600;
  heartbeat_seconds = 30;
}

abbrev given_up : Dispatch ℕ
given_up = returns (ok good_result)

main-IsCalm_example :
    IsCalm
      (tick_bound outside settings environ)
      (main outside settings given_up 13 (1 ∷ []) environ 0).1
main-IsCalm_example = main-IsCalm outside settings given_up 13 (1 ∷ []) environ 0

main-Lacks_example :
    (((main outside settings given_up 13 [] environ 0).0 ≡ ok 78) ↔ Lacks shared_file environ)
    × ((main outside settings given_up 13 [] environ 0 ≡ (ok 78, at_rest [] 0))
        ↔ Lacks shared_file environ)
main-Lacks_example = main-Lacks outside settings given_up 13 [] environ 0

-- The tick runs to its end.
exits : (main outside settings given_up 13 (1 ∷ []) environ 0).0 ≡ ok 0
unfolding main string_eq validate_event_payload start read_task Key-discrete
exits = refl

-- And it claims the run of the issue.
claims_one :
    map
      (λ c. c.linear_issue_id)
      (claims_in (main outside settings given_up 13 (1 ∷ []) environ 0).1.log)
    ≡ "LOL-7" ∷ []
unfolding main claims_in string_eq validate_event_payload start read_task Key-discrete
claims_one = refl
