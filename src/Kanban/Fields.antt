-- ===== src/Kanban/Fields.antt =====
-- The result fields of a card: where each comes from.
use hermes_agent_runtime.Base.{
  ◌≡◌, refl, ◌∙◌, sym, ap, Bool, true, false, inl, inr, Option, none, some, List, [], ◌∷◌, String,
}
use hermes_agent_runtime.Base.{◌==◌, string_eq, if◌then◌else◌, contains, arith}
use hermes_agent_runtime.Base.{Option-cases}
use hermes_agent_runtime.Base.Dict.{
  Dict, lookup, insert, merge, lookup-insert, or_else, or_else-none,
}
use hermes_agent_runtime.Payloads.Value.{Payload}
use hermes_agent_runtime.Kanban.Snapshot.{
  KanbanRunSnapshot, KanbanTaskSnapshot, string_field, fields_of, result_fields, card_fields,
  allowed_result_fields, keep_field, over_run, execution_result,
}
use hermes_agent_runtime.Kanban.Adapter.{Adapter, conclude, blocked_statuses}
use hermes_agent_runtime.Runtime.Exceptions.{Event}
use hermes_agent_runtime.Runtime.Context.{ExecutionContext}

lookup-keep_field :
    (j name : String) (o : Option String) (rest : Dict String)
    → lookup j (keep_field name o rest)
      ≡ (if j == name then or_else o (lookup j rest) else lookup j rest)
unfolding lookup or_else
lookup-keep_field j name none rest = ground arith
lookup-keep_field j name (some v) rest = refl

or_else_twice : (o : Option String) → or_else o o ≡ o
unfolding or_else
or_else_twice none = refl
or_else_twice (some v) = refl

or_else_if : (b : Bool) (o : Option String) → or_else o (if b then o else none) ≡ o
or_else_if true o = or_else_twice o
or_else_if false o = or_else-none o

lookup-fields_of :
    (j : String) (metadata : Payload) (names : List String)
    → lookup j (fields_of metadata names)
      ≡ (if contains names j then string_field metadata j else none)
unfolding fields_of contains lookup
lookup-fields_of j metadata [] = refl
lookup-fields_of j metadata (name ∷ names) =
    let step = lookup-keep_field j name (string_field metadata name) (fields_of metadata names) in
    let rest = lookup-fields_of j metadata names in
    let one = or_else_if (contains names j) (string_field metadata j) in ground arith

lookup-merge :
    (j : String) (d : Dict String) (metadata : Payload) (names : List String)
    → lookup j (merge d (fields_of metadata names))
      ≡ or_else (lookup j (fields_of metadata names)) (lookup j d)
unfolding fields_of merge or_else lookup
lookup-merge j d metadata [] = refl
lookup-merge j d metadata (name ∷ names) = elim (Option-cases (string_field metadata name)) [
  | inl h ↦ rw h (lookup-merge j d metadata names)
  | inr (v, h) ↦
      let rest = lookup-merge j (insert name v d) metadata names in
      let one = lookup-fields_of j metadata names in
      let new = lookup-insert j name v d in rw h (ground arith)
]

abbrev run_field : Option KanbanRunSnapshot → String → Option String
run_field none name = none
run_field (some run) name = string_field run.metadata name

-- The field of the task, or else that of its latest run
unfoldable pub field_of : KanbanTaskSnapshot → String → Option String
unfolding or_else string_field
field_of snapshot name =
    or_else (string_field snapshot.metadata name) (run_field snapshot.latest_run name)

lookup-result_fields :
    (j : String) (metadata : Payload)
    → contains allowed_result_fields j ≡ true
    → lookup j (result_fields metadata) ≡ string_field metadata j
unfolding result_fields
lookup-result_fields j metadata allowed =
    rw allowed at (lookup-fields_of j metadata allowed_result_fields)

lookup-over_run :
    (j : String) (run : Option KanbanRunSnapshot) (metadata : Payload)
    → contains allowed_result_fields j ≡ true
    → lookup j (over_run run (result_fields metadata))
      ≡ or_else (string_field metadata j) (run_field run j)
unfolding result_fields
lookup-over_run j none metadata allowed =
    lookup-result_fields j metadata allowed ∙ sym (or_else-none (string_field metadata j))
lookup-over_run j (some run) metadata allowed =
    rw (lookup-result_fields j metadata allowed, lookup-result_fields j run.metadata allowed) at
      (lookup-merge j (result_fields run.metadata) metadata allowed_result_fields)

pub card_fields_lem :
    (snapshot : KanbanTaskSnapshot) (name : String)
    → contains allowed_result_fields name ≡ true
    → lookup name (card_fields snapshot) ≡ field_of snapshot name
unfolding card_fields field_of
card_fields_lem snapshot name allowed =
    lookup-over_run name snapshot.latest_run snapshot.metadata allowed

conclude-execution_result :
    {W : Type 0} (adapter : Adapter W) (context : ExecutionContext) (s : KanbanTaskSnapshot)
    (events : List Event)
    → (log : List Event) × (conclude adapter context s events
        ≡ execution_result (card_fields s) log)
unfolding conclude
conclude-execution_result adapter context s events = go (contains blocked_statuses s.status) _ _
  where
    go :
        (b : Bool) (l l' : List Event)
        → (log : List Event) × ((if b
              then execution_result (card_fields s) l
              else execution_result (card_fields s) l')
            ≡ execution_result (card_fields s) log)
    go true l l' = (l, refl)
    go false l l' = (l', refl)

-- A card that ends, done or blocked, gives the result the field of the task where that is a text
-- that is not empty, and else that of the latest run, for each of the five fields.
pub conclude-fields :
    {W : Type 0} (adapter : Adapter W) (context : ExecutionContext) (s : KanbanTaskSnapshot)
    (events : List Event)
    → let result = conclude adapter context s events in
      (result.commit_sha ≡ field_of s "commit_sha")
      × (result.pull_request_url ≡ field_of s "pull_request_url")
      × (result.railway_deployment_id ≡ field_of s "railway_deployment_id")
      × (result.tests_status ≡ field_of s "tests_status")
      × (result.review_status ≡ field_of s "review_status")
unfolding execution_result contains string_eq
conclude-fields adapter context s events =
    let (log, e) = conclude-execution_result adapter context s events in
    (
      ap (λ r. r.commit_sha) e ∙ card_fields_lem s "commit_sha" refl,
      ap (λ r. r.pull_request_url) e ∙ card_fields_lem s "pull_request_url" refl,
      ap (λ r. r.railway_deployment_id) e ∙ card_fields_lem s "railway_deployment_id" refl,
      ap (λ r. r.tests_status) e ∙ card_fields_lem s "tests_status" refl,
      ap (λ r. r.review_status) e ∙ card_fields_lem s "review_status" refl,
    )
