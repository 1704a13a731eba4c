-- ===== src/Guard/Agreement.antt =====
-- The guard and the chain agree: what the guard lets through, `classify_issue` accepts.
use hermes_agent_runtime.Base.{
  ◌≡◌, refl, ◌≢◌, inl, true, not, List, [], ◌∷◌, String, none, arith, string_eq, contains, select,
}
use hermes_agent_runtime.Base.Dict.{keys, lookup_of_contains-keys}
use hermes_agent_runtime.Base.Result.{ok, err, ◌>>◌, >>=-eq-ok, raise_if}
use hermes_agent_runtime.Base.Sets.{frozenset}
use hermes_agent_runtime.Base.Text.{starts_with}
use hermes_agent_runtime.Runtime.Labels.{
  Issue, Classification, agent_table, values_of, classify_issue, known_risks, known_environments,
}
use hermes_agent_runtime.Runtime.Labels.Spec.{IsRunnable}
use hermes_agent_runtime.Runtime.Labels.Laws.{classify_issue_of_IsRunnable}
use hermes_agent_runtime.Chain.Selector.{LinearIssueSnapshot, issue_of}
use hermes_agent_runtime.Guard.Policy.{
  Gate, Reason, known_agents, exactly_one, one_label, has_one, is_nil, check_agent, check_risk,
  check_execution, check_environment, check_gates, blocking, gate_block_reason,
}

exactly_one-eq-ok :
    (prefix : String) (values : List String) {value : String}
    → exactly_one prefix values ≡ ok value
    → values ≡ value ∷ []
exactly_one-eq-ok prefix [] h = cc
exactly_one-eq-ok prefix (v ∷ []) h = cc
exactly_one-eq-ok prefix (_ ∷ _ ∷ _) h = cc

one_label-values_of :
    (labels : List String) (prefix : String) {value : String}
    → one_label labels prefix ≡ ok value
    → values_of prefix labels ≡ value ∷ []
unfolding one_label values_of
one_label-values_of labels prefix h = exactly_one-eq-ok prefix _ h

blocking-eq-none : (g : Gate (Unit {0})) → blocking g ≡ none → g ≡ ok tt
blocking-eq-none (ok tt) h = refl
blocking-eq-none (err reason) h = cc

has_one-eq-true : (xs : List String) → has_one xs ≡ true → (x : String) × (xs ≡ x ∷ [])
has_one-eq-true [] h = cc
has_one-eq-true (x ∷ []) h = (x, refl)
has_one-eq-true (_ ∷ _ ∷ _) h = cc

agents-eq-ok :
    (agents : List String) (e f : Reason)
    → (raise_if (not (is_nil (select (λ l. not (contains known_agents l)) agents))) e
        >> raise_if (not (has_one agents)) f)
      ≡ ok tt
    → (label : String) × (agents ≡ label ∷ []) × (contains known_agents label ≡ true)
unfolding select
agents-eq-ok [] e f h = cc
agents-eq-ok (x ∷ []) e f h = (x, refl, ground arith)
agents-eq-ok (x ∷ y ∷ xs) e f h =
    let (_, _, k) =
      >>=-eq-ok
        (raise_if (not (is_nil (select (λ l. not (contains known_agents l)) (x ∷ y ∷ xs)))) e) _
        h in
    cc

check_agent-eq-ok :
    (labels : List String)
    → check_agent labels ≡ ok tt
    → (label : String) × (select (λ l. starts_with l "agent:") labels ≡ label ∷ [])
      × (contains known_agents label ≡ true)
unfolding check_agent
check_agent-eq-ok labels h = agents-eq-ok (select (λ l. starts_with l "agent:") labels) _ _ h

check_risk-eq-ok :
    (labels : List String)
    → check_risk labels ≡ ok tt
    → (risk : String) × (values_of "risk:" labels ≡ risk ∷ [])
      × (contains known_risks risk ≡ true)
      × (risk ≢ "high")
      × (risk ≢ "critical")
unfolding check_risk
check_risk-eq-ok labels h =
    let (risk, one, h₁) = >>=-eq-ok (one_label labels "risk:") _ h in
    (risk, one_label-values_of labels "risk:" one, ground arith, ground arith, ground arith)

check_execution-eq-ok :
    (labels : List String)
    → check_execution labels ≡ ok tt
    → values_of "execution:" labels ≡ "auto" ∷ []
unfolding check_execution
check_execution-eq-ok labels h =
    let (mode, one, h₁) = >>=-eq-ok (one_label labels "execution:") _ h in
    let automatic : mode ≡ "auto" = ground arith in
    rw automatic at (one_label-values_of labels "execution:" one)

check_environment-eq-ok :
    (labels : List String)
    → check_environment labels ≡ ok tt
    → (environment : String) × (values_of "env:" labels ≡ environment ∷ [])
      × (contains known_environments environment ≡ true)
      × (environment ≢ "production")
unfolding check_environment
check_environment-eq-ok labels h =
    let (environment, one, h₁) = >>=-eq-ok (one_label labels "env:") _ h in
    (environment, one_label-values_of labels "env:" one, ground arith, ground arith)

-- What the guard asks of an issue: its classification, of low or medium risk.
check_gates-IsRunnable :
    (issue : Issue)
    → issue.status ≡ "Todo"
    → check_gates issue.labels ≡ ok tt
    → (c : Classification) × IsRunnable issue c × (c.risk ≢ "high")
unfolding check_gates keys
check_gates-IsRunnable issue todo h =
    let (_, a, h₁) = >>=-eq-ok (check_agent issue.labels) _ h in
    let (_, r, h₂) = >>=-eq-ok (check_risk issue.labels) _ h₁ in
    let (_, e, n) = >>=-eq-ok (check_execution issue.labels) _ h₂ in
    let agent = check_agent-eq-ok issue.labels a in
    let risk = check_risk-eq-ok issue.labels r in
    let environment = check_environment-eq-ok issue.labels n in
    let assigned = lookup_of_contains-keys agent.0 agent_table agent.2 in
    (
      record { assignee = assigned.0; risk = risk.0; mode = "auto"; environment = environment.0 },
      record {
        todo = todo;
        label = agent.0;
        only_agent = agent.1;
        assigned = assigned.1;
        risk = inl risk.1;
        known_risk = risk.2;
        not_critical = risk.4;
        mode = inl (check_execution-eq-ok issue.labels e);
        automatic = refl;
        environment = inl environment.1;
        known_environment = environment.2;
        not_production = environment.3;
      },
      risk.3,
    )

-- An issue in Todo that the guard does not block is classified by the chain, to run automatically,
-- outside production and at a risk that is neither high nor critical.
pub gate_block_reason-classify_issue :
    (snapshot : LinearIssueSnapshot)
    → snapshot.status ≡ "Todo"
    → gate_block_reason snapshot.identifier snapshot.labels ≡ none
    → (c : Classification) × (classify_issue (issue_of snapshot) ≡ ok c)
      × (c.mode ≡ "auto")
      × (c.environment ≢ "production")
      × (c.risk ≢ "high")
      × (c.risk ≢ "critical")
unfolding gate_block_reason
gate_block_reason-classify_issue snapshot todo h =
    let (c, s, low) =
      check_gates-IsRunnable (issue_of snapshot) todo
        (blocking-eq-none (check_gates (frozenset snapshot.labels)) h) in
    (
      c,
      classify_issue_of_IsRunnable (issue_of snapshot) c s,
      s.automatic,
      s.not_production,
      low,
      s.not_critical,
    )
