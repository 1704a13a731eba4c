-- ===== src/Canary/Probe.antt =====
-- probe_env.py: `main`, over what it sees of the machine. The lines that it prints are left out.
use hermes_agent_runtime.Base.{
  ℕ, zero, suc, Bool, true, false, ◌&&◌, String, ◌<>◌, List, [], ◌∷◌, ◌==◌, string_eq,
  if◌then◌else◌, ℤ, pos, negsuc, all,
}
use hermes_agent_runtime.Base.Result.{ok, err, ◌>>=◌}
use hermes_agent_runtime.Base.Strip.{strip}
use hermes_agent_runtime.Runtime.Exceptions.{Call, is_exception, type_name}
use hermes_agent_runtime.Supabase.Http.{decimal}

-- Which modules can be imported, the return code and the output of `git rev-parse`, which names a
-- module has once it is imported, and the reading of the board
pub record Probed : Type 0 where
  pub imports : String → Bool
  pub git : Call (ℤ × String)
  pub attributes : String → Call (String → Bool)
  pub board : Call ℕ

abbrev pub chain_sha_expected : String
chain_sha_expected = "dc3f7dfcc733caa167e2173ab5fbe4da1d680b78"

abbrev pub probed_modules : List String
probed_modules =
    "hermes_cli" ∷ "hermes_cli.kanban_db" ∷ "hermes_cli.kanban_db_connect"
    ∷ "hermes_cli.kanban_db_dispatch" ∷ "hermes_agent_runtime" ∷ "hermes_agent_runtime.orchestrator"
    ∷ "hermes_agent_runtime.poller" ∷ "hermes_agent_runtime.selector"
    ∷ "hermes_agent_runtime.adapter" ∷ "hermes_agent_runtime.kanban"
    ∷ "hermes_agent_runtime.payloads" ∷ "hermes_agent_runtime.supabase" ∷ []

abbrev pub wanted_symbols : List (String × List String)
wanted_symbols =
    ("hermes_agent_runtime.orchestrator", "RuntimeOrchestrator" ∷ "OrchestratorRunResult" ∷ [])
    ∷ ("hermes_agent_runtime.poller", "LinearIssuePoller" ∷ [])
    ∷ ("hermes_agent_runtime.selector", "LinearIssueSelector" ∷ [])
    ∷ ("hermes_agent_runtime.adapter", "RuntimeDispatchAdapter" ∷ "kanban_dispatch_adapter" ∷ [])
    ∷ []

-- `str(code)`
abbrev pub shown : ℤ → String
shown (pos n) = decimal (suc n) n
shown (negsuc n) = "-" <> decimal (suc (suc n)) (suc n)

-- The output of `git`, if its return code is 0
abbrev pub commit_text : ℤ → String → String
commit_text (pos zero) output = strip output
commit_text code output = "rc=" <> shown code

abbrev pub commit_of : Call (ℤ × String) → Call String
commit_of (ok (code, output)) = ok (commit_text code output)
commit_of (err e) = if is_exception e then ok ("ERR:" <> type_name e) else err e

unfoldable pub chain_commit : Call (ℤ × String) → Call String
unfolding decimal strip
chain_commit git = commit_of git

-- Whether all the names are there; the import of a module may raise.
unfoldable pub all_symbols :
    (String → Call (String → Bool)) → List (String × List String) → Call Bool
unfolding all
all_symbols attributes [] = ok true
all_symbols attributes ((name, symbols) ∷ wanted) = do
  has ← attributes name
  rest ← all_symbols attributes wanted
  ok (all has symbols && rest)

-- `except Exception: ok_all = False`
abbrev pub or_false : Call Bool → Call Bool
or_false (ok b) = ok b
or_false (err e) = if is_exception e then ok false else err e

abbrev pub board_read : Call ℕ → Call Bool
board_read (ok total) = or_false (ok true)
board_read (err e) = or_false (err e)

unfoldable pub probe : Probed → Call ℕ
unfolding chain_commit all_symbols all
probe seen = do
  commit ← chain_commit seen.git
  symbols ← or_false (all_symbols seen.attributes wanted_symbols)
  board ← board_read seen.board
  ok (
      if all seen.imports probed_modules && (commit == chain_sha_expected && (symbols && board))
      then 0
      else 1)
