-- ===== src/Clients/Labels.antt =====
-- The ids of labels by their names: the pure part of `label_ids`.
use hermes_agent_runtime.Base.{String, List, [], ◌∷◌, Option, none, some}
use hermes_agent_runtime.Base.Dict.{Dict, lookup, insert}
use hermes_agent_runtime.Base.Result.{ok, err, ◌>>=◌}
use hermes_agent_runtime.Runtime.Exceptions.{Call, error}
use hermes_agent_runtime.Clients.Json.{Json, item, elements, text_of}

-- `{n["name"]: n["id"] for n in nodes}`
unfoldable pub by_name : List Json → Dict Json → Call (Dict Json)
unfolding item text_of insert
by_name [] found = ok found
by_name (node ∷ nodes) found = do
  name_value ← item node "name"
  name ← text_of name_value
  id ← item node "id"
  by_name nodes (insert name id found)

abbrev known : String → Option Json → Call Json
known name none = err (error "KeyError" name)
known name (some id) = ok id

-- `[by_name[n] for n in names]`
unfoldable pub ids_of : Dict Json → List String → Call (List Json)
unfolding lookup
ids_of ids [] = ok []
ids_of ids (name ∷ names) = do
  id ← known name (lookup name ids)
  rest ← ids_of ids names
  ok (id ∷ rest)

unfoldable pub label_ids_in : Json → List String → Call (List Json)
unfolding item elements by_name ids_of
label_ids_in found names = do
  labels ← item found "issueLabels"
  nodes ← item labels "nodes"
  listed ← elements nodes
  ids ← by_name listed []
  ids_of ids names
