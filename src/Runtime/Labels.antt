-- ===== src/Runtime/Labels.antt =====
-- `classify_issue` of runtime.py: from the labels of a Linear issue to its assignee, risk, mode
-- and environment.
pub mod Spec
pub mod Laws
pub mod Unordered
use hermes_agent_runtime.Base.{Bool, true, false, not, ◌&&◌, ◌||◌, List, [], ◌∷◌, map, any, select}
use hermes_agent_runtime.Base.{String, ◌<>◌, none, some, ◌==◌, string_eq, contains}
use hermes_agent_runtime.Base.Dict.{Dict, keys, lookup}
use hermes_agent_runtime.Base.Result.{ok, err, ◌>>=◌, ◌>>◌, raise_if}
use hermes_agent_runtime.Base.Text.{starts_with, remove_prefix}
use hermes_agent_runtime.Runtime.Exceptions.{Call, execution_blocked, error}

-- `AGENTS`
abbrev pub agent_table : Dict String
agent_table =
    ("agent:orchestrator", "orchestrator")
    ∷ ("agent:backend", "dev-backend")
    ∷ ("agent:frontend", "dev-frontend")
    ∷ ("agent:devops", "devops")
    ∷ ("agent:qa", "qualidade")
    ∷ ("agent:review", "code-reviewer")
    ∷ ("agent:github", "github-profile")
    ∷ []

unfoldable pub is_agent : String → Bool
unfolding contains keys
is_agent label = contains (keys agent_table) label

-- The labels of an issue are a frozenset: a list in which no label stands twice.
pub record Issue : Type 0 where
  pub identifier : String
  pub labels : List String
  pub status : String

pub record Classification : Type 0 where
  pub assignee : String
  pub risk : String
  pub mode : String
  pub environment : String

unfoldable pub is_unknown_agent : String → Bool
unfolding starts_with is_agent
is_unknown_agent label = starts_with label "agent:" && not (is_agent label)

-- The values of the labels that begin with `prefix`
unfoldable pub values_of : String → List String → List String
unfolding select starts_with remove_prefix
values_of prefix labels =
    map (λ label. remove_prefix label prefix) (select (λ label. starts_with label prefix) labels)

-- The end of `one`, on the matches
abbrev at_most_one : String → String → List String → Call String
at_most_one prefix default [] = ok default
at_most_one prefix default (value ∷ []) = ok value
at_most_one prefix default (_ ∷ _ ∷ _) =
    err (execution_blocked ("Conflicting " <> prefix <> " labels"))

unfoldable pub one : List String → String → String → Call String
unfolding values_of
one labels prefix default = at_most_one prefix default (values_of prefix labels)

-- The only element of `agents`
abbrev exactly_one : List String → Call String
exactly_one (label ∷ []) = ok label
exactly_one _ =
    err (execution_blocked "Orchestrator must classify missing or ambiguous agent labels")

abbrev pub known_risks : List String
known_risks = "low" ∷ "medium" ∷ "high" ∷ "critical" ∷ []

abbrev pub known_modes : List String
known_modes = "auto" ∷ "human" ∷ "blocked" ∷ []

abbrev pub known_environments : List String
known_environments = "local" ∷ "preview" ∷ "staging" ∷ "production" ∷ []

-- `AGENTS[label]`
unfoldable pub assignee_of : String → Call String
unfolding lookup
assignee_of label = elim (lookup label agent_table) [
  | none ↦ err (error "KeyError" label)
  | some name ↦ ok name
]

-- The two tests after the labels are read, and the tuple that is returned
unfoldable pub decide : String → String → String → String → Call Classification
unfolding contains assignee_of
decide label risk mode environment = do
  raise_if
      (not (contains known_risks risk)
        || not (contains known_modes mode)
        || not (contains known_environments environment))
      (execution_blocked "Unknown operational label")
  raise_if (not (mode == "auto") || risk == "critical" || environment == "production")
      (execution_blocked "This issue requires human intervention")
  assignee ← assignee_of label
  ok (record { assignee = assignee; risk = risk; mode = mode; environment = environment })

unfoldable pub classify_issue : Issue → Call Classification
unfolding any is_unknown_agent select is_agent one decide
classify_issue issue = do
  raise_if (not (issue.status == "Todo")) (execution_blocked "Only Todo issues can start a new run")
  raise_if (any is_unknown_agent issue.labels) (execution_blocked "Unknown agent label")
  label ← exactly_one (select is_agent issue.labels)
  risk ← one issue.labels "risk:" "low"
  mode ← one issue.labels "execution:" "auto"
  environment ← one issue.labels "env:" "local"
  decide label risk mode environment
