-- ===== src/Clients/Linear.antt =====
-- `Linear`: the GraphQL client, and the calls of the issue tracker.
use hermes_agent_runtime.Base.{
  ℕ, String, ◌<>◌, Option, none, some, List, [], ◌∷◌, if◌then◌else◌, string_eq,
}
use hermes_agent_runtime.Base.Dict.{Dict, lookup}
use hermes_agent_runtime.Base.Result.{ok, err}
use hermes_agent_runtime.Runtime.Exceptions.{Call, error}
use hermes_agent_runtime.Runtime.Machine.{Action}
use hermes_agent_runtime.Runtime.Action.{pure, raise, lift, ◌>>=◌, ◌>>◌}
use hermes_agent_runtime.Env.File.{Files, load_env}
use hermes_agent_runtime.Env.Process.{default_env_file}
use hermes_agent_runtime.Clients.Json.{
  Json, null, text, array, object, Items, nil, cons, end, member, is_truthy, get, item, or_empty,
}
use hermes_agent_runtime.Clients.Labels.{label_ids_in}
use hermes_agent_runtime.Clients.Http.{WebRequest, Web, http_json}

-- Lolcoach, and the states of its issues
abbrev pub team_id : String
team_id = "ddc0d73d-2dcc-413a-89dd-7c840c1bbb4b"

abbrev pub state_todo : String
state_todo = "58e53f4e-216d-4461-abdf-e40dc2a74ddb"

abbrev pub state_in_progress : String
state_in_progress = "f7acf339-dc31-433b-8e26-574a2cae1aba"

abbrev pub state_in_review : String
state_in_review = "39604746-b04c-4488-a8b3-2a1bdfbade04"

abbrev pub label_ids_query : String
label_ids_query = "{ issueLabels(first: 100) { nodes { id name } } }"

abbrev pub create_issue_query : String
create_issue_query =
    "\n" <> "            mutation($input: IssueCreateInput!) {\n"
    <> "              issueCreate(input: $input) { success issue { id identifier title url state { name } } }\n"
    <> "            }\n" <> "            "

abbrev pub set_state_query : String
set_state_query =
    "\n" <> "            mutation($id: String!, $input: IssueUpdateInput!) {\n"
    <> "              issueUpdate(id: $id, input: $input) { success issue { id identifier state { name } } }\n"
    <> "            }\n" <> "            "

abbrev pub archive_issue_query : String
archive_issue_query =
    "\n"
    <> "            mutation($id: String!) { issueArchive(id: $id) { success entity { id identifier archivedAt } } }\n"
    <> "            "

abbrev pub issue_snapshot_query : String
issue_snapshot_query =
    "\n" <> "            query($id: String!) { issue(id: $id) {\n"
    <> "              id identifier title url state { name } labels { nodes { name } } archivedAt updatedAt } }\n"
    <> "            "

pub record Linear : Type 0 where
  pub key : String

abbrev keyed : Option String → Call Linear
keyed none = err (error "KeyError" "LINEAR_API_KEY")
keyed (some key) = ok (record { key = key })

abbrev linear_of : Call (Dict String) → Call Linear
linear_of (ok env) = keyed (lookup "LINEAR_API_KEY" env)
linear_of (err e) = err e

-- `Linear()`: its key is that of the shared file, whatever the process has in its environment.
unfoldable pub linear : Files → Call Linear
unfolding load_env lookup
linear files = linear_of (load_env files default_env_file)

-- An object of one member, and of two
abbrev one_member : String → Json → Json
one_member key value = object (member key value end)

abbrev two_members : String → Json → String → Json → Json
two_members key value key' value' = object (member key value (member key' value' end))

-- `isinstance(body, dict) and body.get("errors")`
abbrev pub errors_in : Json → Call Json
errors_in (object members) = get (object members) "errors" null
errors_in _ = ok null

abbrev items_of : List Json → Items
items_of [] = nil
items_of (value ∷ values) = cons value (items_of values)

module _ {W : Type 0} (web : Web W) (client : Linear) where
  -- The request of `gql`, with the default timeout of `http_json`
  unfoldable pub gql_request : String → Json → WebRequest
  gql_request query variables = record {
    url = "https://api.linear.app/graphql";
    body = some (two_members "query" (text query) "variables" variables);
    headers = ("Authorization", client.key) ∷ ("Content-Type", "application/json") ∷ [];
    method = none;
    timeout = 30;
  }

  -- The answer's status and its `data`. The text of an error is left out of the model.
  unfoldable pub gql : String → Json → Action W (ℕ × Json)
  unfolding gql_request http_json get
  gql query variables = do
    (status, body, headers) ← http_json web (gql_request query (or_empty variables))
    errors ← lift (errors_in body)
    if is_truthy errors then raise (error "RuntimeError" "Linear GraphQL error") else pure tt
    found ← lift (get (or_empty body) "data" null)
    pure (status, found)

  -- A query, and one member of its data
  abbrev answer : String → Json → String → Action W Json
  answer query variables name = do (status, found) ← gql query variables; lift (item found name)

  unfoldable pub label_ids : List String → Action W (List Json)
  unfolding gql label_ids_in
  label_ids names = do
    (status, found) ← gql label_ids_query (object end)
    lift (label_ids_in found names)

  unfoldable pub create_issue : String → String → List String → Action W Json
  unfolding label_ids gql item
  create_issue title description label_names = do
    ids ← label_ids label_names
    created ←
        answer create_issue_query
          (one_member "input" (
            object (
              member "teamId" (text team_id) (
                member "title" (text title) (
                  member "description" (text description) (
                    member "stateId" (text state_todo)
                      (member "labelIds" (array (items_of ids)) end)))))))
          "issueCreate"
    lift (item created "issue")

  unfoldable pub set_state : Json → String → Action W Json
  unfolding gql item
  set_state issue_id state_id =
      answer set_state_query
        (two_members "id" issue_id "input" (one_member "stateId" (text state_id))) "issueUpdate"

  unfoldable pub archive_issue : Json → Action W Json
  unfolding gql item
  archive_issue issue_id = answer archive_issue_query (one_member "id" issue_id) "issueArchive"

  unfoldable pub issue_snapshot : Json → Action W Json
  unfolding gql item
  issue_snapshot issue_id = answer issue_snapshot_query (one_member "id" issue_id) "issue"
