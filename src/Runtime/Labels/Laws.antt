-- ===== src/Runtime/Labels/Laws.antt =====
-- `classify_issue` accepts exactly the issues that its specification accepts.
use hermes_agent_runtime.Base.{
  ◌≡◌, refl, ◌∙◌, sym, ◌≢◌, ◌↔◌, ◌⊎◌, inl, inr, true, false, not, List, [], ◌∷◌, String, some,
  arith, ◌==◌, string_eq, contains, ==-refl, select, any, all,
}
use hermes_agent_runtime.Base.Dict.{keys, lookup, contains-keys_of_lookup}
use hermes_agent_runtime.Base.Membership.{all-contains, select_congr, any-select}
use hermes_agent_runtime.Base.Result.{ok, >>=-eq-ok, raise_if, raise_if-eq-ok}
use hermes_agent_runtime.Base.Text.{starts_with}
use hermes_agent_runtime.Runtime.Labels.{
  Issue, Classification, agent_table, is_agent, is_unknown_agent, at_most_one, exactly_one, one,
  decide, classify_issue, known_risks, known_environments,
}
use hermes_agent_runtime.Runtime.Labels.Spec.{Settles, IsRunnable}

is_agent-starts_with : (label : String) → is_agent label ≡ true → starts_with label "agent:" ≡ true
unfolding is_agent starts_with all
is_agent-starts_with label h =
    all-contains (λ l. starts_with l "agent:") (keys agent_table) label refl h

-- Where no agent label is unknown, the known ones are all that begin with `agent:`.
pub select-is_agent :
    (labels : List String)
    → any is_unknown_agent labels ≡ false
    → select is_agent labels ≡ select (λ l. starts_with l "agent:") labels
unfolding is_unknown_agent
select-is_agent labels h =
    select_congr is_agent _ is_unknown_agent labels (λ l e. ground (arith, is_agent-starts_with l))
      h

at_most_one-eq-ok :
    (prefix default : String) (values : List String) {value : String}
    → at_most_one prefix default values ≡ ok value
    → (values ≡ value ∷ []) ⊎ ((values ≡ []) × (value ≡ default))
at_most_one-eq-ok prefix default [] h = inr (refl, cc)
at_most_one-eq-ok prefix default (v ∷ []) h = inl (cc)
at_most_one-eq-ok prefix default (_ ∷ _ ∷ _) h = cc

one-Settles :
    (labels : List String) (prefix default : String) {value : String}
    → one labels prefix default ≡ ok value
    → Settles prefix default labels value
unfolding one
one-Settles labels prefix default h = at_most_one-eq-ok prefix default _ h

one_of_Settles :
    (labels : List String) (prefix default : String) {value : String}
    → Settles prefix default labels value
    → one labels prefix default ≡ ok value
unfolding one
one_of_Settles labels prefix default (inl e) = rw e
one_of_Settles labels prefix default (inr (e, d)) = rw (e, d)

exactly_one-eq-ok : (xs : List String) {x : String} → exactly_one xs ≡ ok x → xs ≡ x ∷ []
exactly_one-eq-ok [] h = cc
exactly_one-eq-ok (x ∷ []) h = cc
exactly_one-eq-ok (_ ∷ _ ∷ _) h = cc

decide-eq-ok :
    (label risk mode environment : String) {c : Classification}
    → decide label risk mode environment ≡ ok c
    → (lookup label agent_table ≡ some c.assignee)
      × (c.risk ≡ risk)
      × (c.mode ≡ mode)
      × (c.environment ≡ environment)
      × (contains known_risks risk ≡ true)
      × (risk ≢ "critical")
      × (mode ≡ "auto")
      × (contains known_environments environment ≡ true)
      × (environment ≢ "production")
unfolding decide
decide-eq-ok label risk mode environment h = ground arith

-- An issue that is classified meets the specification.
pub classify_issue-IsRunnable :
    (issue : Issue) (c : Classification) → classify_issue issue ≡ ok c → IsRunnable issue c
unfolding classify_issue
classify_issue-IsRunnable issue c h =
    let (_, todo, h₁) = >>=-eq-ok (raise_if (not (issue.status == "Todo")) _) _ h in
    let (_, known, h₂) = >>=-eq-ok (raise_if (any is_unknown_agent issue.labels) _) _ h₁ in
    let (label, agent, h₃) = >>=-eq-ok (exactly_one (select is_agent issue.labels)) _ h₂ in
    let (risk, r, h₄) = >>=-eq-ok (one issue.labels "risk:" "low") _ h₃ in
    let (mode, m, h₅) = >>=-eq-ok (one issue.labels "execution:" "auto") _ h₄ in
    let (environment, n, h₆) = >>=-eq-ok (one issue.labels "env:" "local") _ h₅ in
    let d = decide-eq-ok label risk mode environment h₆ in
    record {
      todo = ground (arith, raise_if-eq-ok _ _ todo);
      label = label;
      only_agent =
          sym (select-is_agent issue.labels (raise_if-eq-ok _ _ known)) ∙ exactly_one-eq-ok _ agent;
      assigned = d.0;
      risk = rw d.1 (one-Settles issue.labels "risk:" _ r);
      known_risk = rw d.1 d.4;
      not_critical = rw d.1 d.5;
      mode = rw d.2 (one-Settles issue.labels "execution:" _ m);
      automatic = rw d.2 d.6;
      environment = rw d.3 (one-Settles issue.labels "env:" _ n);
      known_environment = rw d.3 d.7;
      not_production = rw d.3 d.8;
    }

decide_of_IsRunnable :
    (issue : Issue) (c : Classification) (s : IsRunnable issue c)
    → decide s.label c.risk c.mode c.environment ≡ ok c
unfolding decide contains
decide_of_IsRunnable issue c s = ground arith

unknown-eq-false :
    (label : String) {name : String}
    → lookup label agent_table ≡ some name
    → is_unknown_agent label ≡ false
unfolding is_unknown_agent is_agent
unknown-eq-false label h = ground (arith, contains-keys_of_lookup label agent_table h)

unknown-starts_with :
    (label : String) → is_unknown_agent label ≡ true → starts_with label "agent:" ≡ true
unfolding is_unknown_agent
unknown-starts_with label h = ground arith

known_of_IsRunnable :
    (issue : Issue) (c : Classification)
    → IsRunnable issue c
    → any is_unknown_agent issue.labels ≡ false
unfolding any
known_of_IsRunnable issue c s =
    sym (any-select is_unknown_agent (λ l. starts_with l "agent:") issue.labels unknown-starts_with)
    ∙ rw (s.only_agent, unknown-eq-false s.label s.assigned)

-- And one that meets it is classified so.
pub classify_issue_of_IsRunnable :
    (issue : Issue) (c : Classification) → IsRunnable issue c → classify_issue issue ≡ ok c
unfolding classify_issue
classify_issue_of_IsRunnable issue c s =
    let known = known_of_IsRunnable issue c s in
    rw
      (
        s.todo,
        ==-refl {A = String} "Todo",
        known,
        select-is_agent issue.labels known,
        s.only_agent,
        one_of_Settles issue.labels "risk:" "low" s.risk,
        one_of_Settles issue.labels "execution:" "auto" s.mode,
        one_of_Settles issue.labels "env:" "local" s.environment,
      )
      (decide_of_IsRunnable issue c s)

-- `classify_issue` returns a classification exactly if the issue is in Todo, its only label that
-- begins with `agent:` is that of the assignee, and the labels settle the risk, the mode and the
-- environment on known values, the mode being automatic, the risk not critical and the environment
-- not production.
pub classify_issue_iff :
    (issue : Issue) (c : Classification) → (classify_issue issue ≡ ok c) ↔ IsRunnable issue c
classify_issue_iff issue c =
    (classify_issue-IsRunnable issue c, classify_issue_of_IsRunnable issue c)
