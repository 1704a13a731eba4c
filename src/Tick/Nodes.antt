-- ===== src/Tick/Nodes.antt =====
-- What a tick reads in the answer of Linear: the pure parts of `read_issues` and of `main`.
use hermes_agent_runtime.Base.{String, List, [], ◌∷◌}
use hermes_agent_runtime.Base.Dict.{Dict, insert}
use hermes_agent_runtime.Base.Result.{ok, ◌>>=◌}
use hermes_agent_runtime.Base.Sets.{frozenset}
use hermes_agent_runtime.Runtime.Exceptions.{Call}
use hermes_agent_runtime.Chain.Selector.{LinearIssueSnapshot}
use hermes_agent_runtime.Clients.Json.{
  Json, array, object, nil, end, get, item, elements, text_of, or_empty,
}

-- `(data or {}).get("issues", {}).get("nodes", [])`, as the loops over it read it
unfoldable pub nodes_of : Json → Call (List Json)
unfolding get elements
nodes_of found = do
  issues ← get (or_empty found) "issues" (object end)
  nodes ← get issues "nodes" (array nil)
  elements nodes

-- `value[name]`, a text
unfoldable pub text_item : Json → String → Call String
unfolding item text_of
text_item value name = do found ← item value name; text_of found

unfoldable pub label_names : List Json → Call (List String)
unfolding text_item
label_names [] = ok []
label_names (label ∷ labels) = do
  name ← text_item label "name"
  rest ← label_names labels
  ok (name ∷ rest)

unfoldable pub snapshot_of_node : Json → Call LinearIssueSnapshot
unfolding text_item item elements label_names frozenset
snapshot_of_node node = do
  identifier ← text_item node "identifier"
  state ← item node "state"
  status ← text_item state "name"
  labels ← item node "labels"
  nodes ← item labels "nodes"
  listed ← elements nodes
  names ← label_names listed
  ok (record { identifier = identifier; status = status; labels = frozenset names })

unfoldable pub snapshots_of : List Json → Call (List LinearIssueSnapshot)
unfolding snapshot_of_node
snapshots_of [] = ok []
snapshots_of (node ∷ nodes) = do
  snapshot ← snapshot_of_node node
  rest ← snapshots_of nodes
  ok (snapshot ∷ rest)

-- The snapshots in the `data` of an answer
unfoldable pub snapshots_in : Json → Call (List LinearIssueSnapshot)
unfolding nodes_of snapshots_of
snapshots_in found = do nodes ← nodes_of found; snapshots_of nodes

-- `issues_by_id`, which `main` fills
unfoldable pub index_nodes : List Json → Dict Json → Call (Dict Json)
unfolding text_item insert
index_nodes [] issues = ok issues
index_nodes (node ∷ nodes) issues = do
  identifier ← text_item node "identifier"
  index_nodes nodes (insert identifier node issues)

unfoldable pub issues_in : Json → Call (Dict Json)
unfolding nodes_of index_nodes
issues_in found = do nodes ← nodes_of found; index_nodes nodes []
