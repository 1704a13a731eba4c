-- ===== src/Guard/Policy.antt =====
-- `_one_label` and `gate_block_reason`. A reason is a value here, with what its text shows.
use hermes_agent_runtime.Base.{ℕ, Bool, true, false, not, ◌||◌, List, [], ◌∷◌, map, select}
use hermes_agent_runtime.Base.{String, Option, none, some, ◌==◌, string_eq, contains}
use hermes_agent_runtime.Base.Result.{Result, ok, err, ◌>>=◌, ◌>>◌, raise_if}
use hermes_agent_runtime.Base.Sets.{frozenset}
use hermes_agent_runtime.Base.Sorting.{sorted}
use hermes_agent_runtime.Base.Text.{starts_with, remove_prefix}

-- `KNOWN_AGENTS`
abbrev pub known_agents : List String
known_agents =
    "agent:orchestrator" ∷ "agent:backend" ∷ "agent:frontend" ∷ "agent:devops" ∷ "agent:qa"
    ∷ "agent:review" ∷ "agent:github" ∷ []

abbrev pub known_risk : List String
known_risk = "low" ∷ "medium" ∷ "high" ∷ "critical" ∷ []

abbrev pub known_execution : List String
known_execution = "auto" ∷ "human" ∷ "blocked" ∷ []

abbrev pub known_env : List String
known_env = "local" ∷ "preview" ∷ "staging" ∷ "production" ∷ []

-- `invalid_agents` shows the unknown labels, sorted; `missing` and `ambiguous` a prefix; `invalid`
-- and `needs_human` a prefix and a value; `bound` the bound.
pub data Reason : Type 0 where
  card_exists : Reason
  invalid_agents : List String → Reason
  missing_agent : Reason
  missing ambiguous : String → Reason
  invalid needs_human : String → String → Reason
  bound : ℕ → Reason

abbrev pub Gate : Type 0 → Type 0
Gate A = Result Reason A

abbrev pub exactly_one : String → List String → Gate String
exactly_one prefix [] = err (missing prefix)
exactly_one prefix (value ∷ []) = ok value
exactly_one prefix (_ ∷ _ ∷ _) = err (ambiguous prefix)

-- A value, or the reason that blocks
unfoldable pub one_label : List String → String → Gate String
unfolding select starts_with remove_prefix
one_label labels prefix =
    exactly_one prefix (
      map (λ label. remove_prefix label prefix) (select (λ label. starts_with label prefix) labels))

abbrev pub has_one : List String → Bool
has_one (_ ∷ []) = true
has_one _ = false

abbrev pub is_nil : List String → Bool
is_nil [] = true
is_nil (_ ∷ _) = false

unfoldable pub check_agent : List String → Gate (Unit {0})
unfolding select starts_with contains sorted
check_agent labels =
    let agents = select (λ label. starts_with label "agent:") labels in
    let unknown = select (λ label. not (contains known_agents label)) agents in
    do
      raise_if (not (is_nil unknown)) (invalid_agents (sorted unknown))
      raise_if (not (has_one agents)) missing_agent

unfoldable pub check_risk : List String → Gate (Unit {0})
unfolding one_label contains
check_risk labels = do
  risk ← one_label labels "risk:"
  raise_if (not (contains known_risk risk)) (invalid "risk:" risk)
  raise_if (risk == "high" || risk == "critical") (needs_human "risk:" risk)

unfoldable pub check_execution : List String → Gate (Unit {0})
unfolding one_label contains
check_execution labels = do
  mode ← one_label labels "execution:"
  raise_if (not (contains known_execution mode)) (invalid "execution:" mode)
  raise_if (not (mode == "auto")) (needs_human "execution:" mode)

unfoldable pub check_environment : List String → Gate (Unit {0})
unfolding one_label contains
check_environment labels = do
  environment ← one_label labels "env:"
  raise_if (not (contains known_env environment)) (invalid "env:" environment)
  raise_if (environment == "production") (needs_human "env:" environment)

unfoldable pub check_gates : List String → Gate (Unit {0})
unfolding check_agent check_risk check_execution check_environment
check_gates labels = do
  check_agent labels
  check_risk labels
  check_execution labels
  check_environment labels

abbrev pub blocking : Gate (Unit {0}) → Option Reason
blocking (ok _) = none
blocking (err reason) = some reason

-- `None` says that the issue may be dispatched. The identifier is not looked at.
unfoldable pub gate_block_reason : String → List String → Option Reason
unfolding frozenset check_gates
gate_block_reason identifier labels = blocking (check_gates (frozenset labels))
