-- ===== src/Tick/Issues.antt =====
-- The issues of a tick: what Linear lists, what the guard lets through, and the update of a status.
use hermes_agent_runtime.Base.{
  ℕ, String, ◌<>◌, Option, none, some, List, [], ◌∷◌, map, ◌==◌, string_eq, if◌then◌else◌,
}
use hermes_agent_runtime.Base.Dict.{Dict, lookup, keys}
use hermes_agent_runtime.Base.Result.{Result, ok, err}
use hermes_agent_runtime.Runtime.Machine.{Action}
use hermes_agent_runtime.Runtime.Action.{pure, lift, ◌>>=◌, ◌>>◌}
use hermes_agent_runtime.Chain.Selector.{LinearIssueSnapshot}
use hermes_agent_runtime.Env.Process.{get_or}
use hermes_agent_runtime.Guard.Bound.{
  BadBound, max_dispatch_per_tick, default_max_dispatch_per_tick,
}
use hermes_agent_runtime.Guard.Select.{select_with_guard}
use hermes_agent_runtime.Clients.Json.{Json, text, object, end, member, item}
use hermes_agent_runtime.Clients.Http.{Web}
use hermes_agent_runtime.Clients.Linear.{Linear, gql, set_state, state_in_progress, state_in_review}
use hermes_agent_runtime.Tick.Nodes.{snapshots_in}
use hermes_agent_runtime.Tick.Board.{Board, existing_cards}

abbrev pub todo_issues_query : String
todo_issues_query =
    "\n" <> "query($team: String!) {\n"
    <> "  issues(filter: { team: { key: { eq: $team } }, state: { name: { eq: \"Todo\" } } }, first: 50) {\n"
    <> "    nodes { id identifier title state { name } labels { nodes { name } } }\n" <> "  }\n"
    <> "}\n"

-- `STATE_BLOCKED`, when the module is loaded
unfoldable pub state_blocked : Dict String → String
unfolding lookup
state_blocked environ =
    get_or (lookup "POLLER_LINEAR_STATE_BLOCKED" environ) "142dc11e-7d2b-45d6-8122-7f0015d26c7b"

-- `LINEAR_STATUS_STATES`
unfoldable pub linear_status_states : Dict String → Dict String
unfolding state_blocked
linear_status_states environ =
    let blocked = state_blocked environ in
    ("In Progress", state_in_progress)
    ∷ ("In Review", state_in_review)
    ∷ (if blocked == "" then [] else ("Blocked", blocked) ∷ [])

-- `_resolve_bound`
abbrev pub or_one : Result BadBound ℕ → ℕ
or_one (ok bound) = bound
or_one (err _) = default_max_dispatch_per_tick

unfoldable pub resolve_bound : Dict String → ℕ
unfolding max_dispatch_per_tick
resolve_bound environ = or_one (max_dispatch_per_tick environ)

module _ {W : Type 0} (web : Web W) (client : Linear) where
  -- The `data` of the answer that lists the issues of a team
  unfoldable pub todo_issues : String → Action W Json
  unfolding gql
  todo_issues team_key = do
    (status, found) ← gql web client todo_issues_query (object (member "team" (text team_key) end))
    pure found

  unfoldable pub read_issues : String → Action W (List LinearIssueSnapshot)
  unfolding todo_issues snapshots_in
  read_issues team_key = do found ← todo_issues team_key; lift (snapshots_in found)

  -- The update of an issue that is known, to a state that is mapped
  abbrev pub set_issue : Json → Option String → Action W (Unit {0})
  set_issue target none = pure tt
  set_issue target (some state_id) = do
    id ← lift (item target "id")
    set_state web client id state_id
    pure tt

  abbrev pub move_known : Option Json → Option String → Action W (Unit {0})
  move_known none state = pure tt
  move_known (some target) state = set_issue target state

  unfoldable pub move_issue_status : Dict String → Dict Json → String → String → Action W (Unit {0})
  unfolding lookup item set_state
  move_issue_status states issues identifier status =
      move_known (lookup identifier issues) (lookup status states)

  -- The guard over what is read
  abbrev pub guarded : Board W → ℕ → List LinearIssueSnapshot → Action W (List LinearIssueSnapshot)
  guarded board bound [] = pure []
  guarded board bound (snapshot ∷ snapshots) = do
    existing ← existing_cards board (map (λ s. s.identifier) (snapshot ∷ snapshots))
    outcome ← lift (select_with_guard (snapshot ∷ snapshots) (keys existing) bound)
    pure outcome.dispatched

  unfoldable pub guarded_read_issues : Board W → ℕ → String → Action W (List LinearIssueSnapshot)
  unfolding read_issues existing_cards select_with_guard keys
  guarded_read_issues board bound team_key = do
    snapshots ← read_issues team_key
    guarded board bound snapshots
