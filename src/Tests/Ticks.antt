-- ===== src/Tests/Ticks.antt =====
-- A tick over an answer of Linear with one issue, and a board with one card of another.
use hermes_agent_runtime.Base.{
  ◌<◌, take, select, ℕ, ◌+◌, ◌≡◌, ◌≤◌, refl, false, String, some, none, [], ◌∷◌, string_eq, length,
  All, any, contains, ◌&&◌,
}
use hermes_agent_runtime.Base.Dict.{Dict, keys}
use hermes_agent_runtime.Base.Result.{ok}
use hermes_agent_runtime.Payloads.Value.{text}
use hermes_agent_runtime.Chain.Selector.{LinearIssueSnapshot}
use hermes_agent_runtime.Guard.Cards.{BoardTask, match_existing_cards}
use hermes_agent_runtime.Guard.Found.{blocks, has_no_id, match_existing_cards_lem}
use hermes_agent_runtime.Clients.Json.{Json, object, array, member, end, cons, nil}
use hermes_agent_runtime.Clients.Http.{Web, response}
use hermes_agent_runtime.Clients.Linear.{Linear}
use hermes_agent_runtime.Tick.Board.{Board, TaskRow, RunRow, start}
use hermes_agent_runtime.Tick.Issues.{
  resolve_bound, linear_status_states, move_issue_status, guarded_read_issues, read_issues,
}
use hermes_agent_runtime.Tick.Guarded.{IsFree, guarded_read_issues-IsFree}
use hermes_agent_runtime.Guard.Select.{GuardOutcome, select_with_guard}
use hermes_agent_runtime.Guard.Laws.{passes}
use hermes_agent_runtime.Tick.Moves.{Moves, move_issue_status-Moves}
use hermes_agent_runtime.Tick.Bounds.{resolve_bound-select}
use hermes_agent_runtime.Tick.Start.{Starts, start-Starts}
use hermes_agent_runtime.Tests.World.{backend_context}
use hermes_agent_runtime.Tests.Cards.{board as cards}

abbrev named : String → Json
named name = object (member "name" (Json.text name) end)

abbrev todo_issue : Json
todo_issue = object (
    member "id" (Json.text "uuid-1") (
      member "identifier" (Json.text "LOL-7") (
        member "state" (named "Todo") (
          member "labels"
            (object (
              member "nodes"
                (array (
                  cons (named "agent:backend") (
                    cons (named "risk:low")
                      (cons (named "execution:auto") (cons (named "env:local") nil)))))
                end))
            end))))

abbrev answer : Json
answer = object (
    member "data"
      (object (
        member "issues" (object (member "nodes" (array (cons todo_issue nil)) end))
          (member "issueUpdate" Json.null end)))
      end)

abbrev pub linear_web : Web ℕ
linear_web request w = (
  response 200 (("Content-Type", "application/json") ∷ [])
      (some (record { loaded = ok answer; start = "" })),
  w + 1,
)

abbrev client : Linear
client = record { key = "key" }

abbrev other_card : BoardTask
other_card = record {
  id = "t_1";
  status = some "done";
  title = some "[runtime] LOL-71";
  body = none;
}

abbrev own_card : BoardTask
own_card = record other_card { title = some "again: LOL-7" }

abbrev done_row : TaskRow
done_row = record {
  status = "blocked";
  assignee = some "dev-backend";
  workspace_path = none;
  branch_name = none;
  result = none;
}

abbrev last_run : RunRow
last_run = record {
  status = some "done";
  outcome = none;
  summary = none;
  metadata = some (("tests_status", text "failed") ∷ []);
}

abbrev pub board : Board ℕ
board = record {
  list_tasks = λ w. (ok (other_card ∷ []), w);
  create_task = λ task w. (ok "t_2", w + 1);
  get_task = λ task_id w. (ok (some done_row), w);
  latest_run = λ task_id w. (ok (some last_run), w);
}

abbrev snapshot : LinearIssueSnapshot
snapshot = record {
  identifier = "LOL-7";
  status = "Todo";
  labels = "agent:backend" ∷ "risk:low" ∷ "execution:auto" ∷ "env:local" ∷ [];
}

read_one : (guarded_read_issues linear_web client board 1 "LOL" 0).0 ≡ ok (snapshot ∷ [])
unfolding guarded_read_issues string_eq
read_one = refl

guarded_read_issues-IsFree_example :
    (length (snapshot ∷ []) ≤ 1)
    × All (IsFree linear_web client board (read_issues linear_web client "LOL" 0).1) (snapshot ∷ [])
guarded_read_issues-IsFree_example =
    guarded_read_issues-IsFree linear_web client board 1 "LOL" 0 (snapshot ∷ []) read_one

match_existing_cards_lem_example :
    contains {A = String}
      (keys (match_existing_cards (own_card ∷ other_card ∷ []) ("LOL-7" ∷ [])))
      "LOL-7"
    ≡ (contains {A = String} ("LOL-7" ∷ []) "LOL-7"
        && any (blocks "LOL-7") (own_card ∷ other_card ∷ []))
match_existing_cards_lem_example =
    match_existing_cards_lem "LOL-7" (own_card ∷ other_card ∷ []) ("LOL-7" ∷ [])

named_tasks : any has_no_id (other_card ∷ []) ≡ false
unfolding any string_eq
named_tasks = refl

start-Starts_example :
    Starts board backend_context 0 (other_card ∷ []) (start board backend_context 0)
start-Starts_example = start-Starts board backend_context 0 (other_card ∷ []) refl named_tasks

abbrev environ : Dict String
environ = ("POLLER_MAX_DISPATCH_PER_TICK", " 2 ") ∷ []

resolve_bound-select_example :
    (outcome : GuardOutcome) × (select_with_guard (snapshot ∷ []) [] (resolve_bound environ)
      ≡ ok outcome)
    × (0 < resolve_bound environ)
    × (outcome.dispatched ≡ take (resolve_bound environ) (select (passes []) (snapshot ∷ [])))
resolve_bound-select_example = resolve_bound-select environ (snapshot ∷ []) []

two_at_most : resolve_bound environ ≡ 2
unfolding resolve_bound string_eq
two_at_most = refl

abbrev issues : Dict Json
issues = ("LOL-7", todo_issue) ∷ []

move_issue_status-Moves_example :
    Moves linear_web client (linear_status_states environ) issues "LOL-7" "In Review" 0 (
      move_issue_status linear_web client
        (linear_status_states environ)
        issues
        "LOL-7"
        "In Review"
        0)
move_issue_status-Moves_example =
    move_issue_status-Moves linear_web client (linear_status_states environ) issues "LOL-7"
      "In Review" 0
