-- ===== src/Runtime/Labels/Spec.antt =====
-- What the labels of an issue must be for a run, said without the code's order of tests.
use hermes_agent_runtime.Base.{◌≡◌, ◌≢◌, true, List, [], ◌∷◌, String, some, contains, string_eq}
use hermes_agent_runtime.Base.{select, ◌⊎◌}
use hermes_agent_runtime.Base.Dict.{lookup}
use hermes_agent_runtime.Base.Text.{starts_with}
use hermes_agent_runtime.Runtime.Labels.{
  Issue, Classification, agent_table, values_of, known_risks, known_environments,
}

-- The labels with a prefix settle a value: there is one, or none and the default holds.
abbrev pub Settles : String → String → List String → String → Type 0
Settles prefix default labels value =
    (values_of prefix labels ≡ value ∷ []) ⊎ ((values_of prefix labels ≡ []) × (value ≡ default))

pub record IsRunnable (issue : Issue) (c : Classification) : Type 0 where
  pub todo : issue.status ≡ "Todo"
  pub label : String
  pub only_agent : select (λ l. starts_with l "agent:") issue.labels ≡ label ∷ []
  pub assigned : lookup label agent_table ≡ some c.assignee
  pub risk : Settles "risk:" "low" issue.labels c.risk
  pub known_risk : contains known_risks c.risk ≡ true
  pub not_critical : c.risk ≢ "critical"
  pub mode : Settles "execution:" "auto" issue.labels c.mode
  pub automatic : c.mode ≡ "auto"
  pub environment : Settles "env:" "local" issue.labels c.environment
  pub known_environment : contains known_environments c.environment ≡ true
  pub not_production : c.environment ≢ "production"
