-- ===== src/Chain/Claims.antt =====
-- Which runs a pass of the chain claims.
use hermes_agent_runtime.Base.{ℕ, ◌≡◌, List, [], ◌∷◌, ◌++◌, ◌∙◌, ap, sym, refl, ◌≤◌, length, arith}
use mathlib.Core.List.{append_assoc, append-nil}
use hermes_agent_runtime.Base.Result.{ok}
use hermes_agent_runtime.Runtime.Context.{ExecutionContext}
use hermes_agent_runtime.Runtime.Labels.{Issue, Classification, classify_issue}
use hermes_agent_runtime.Runtime.Machine.{Request}
use hermes_agent_runtime.Runtime.Protocol.{
  Phase, idle, claimed, working, completing, closed, rejected, before_dispatch, after_dispatch,
  still_open, after_completion, Step, claims, reports, beats, moves, stores, dispatches, completes,
  moves_late, closes, Trace, start, extend,
}
pub mod Run
pub mod Polled
pub mod Pass

abbrev pub claim_in : Request → List ExecutionContext
claim_in (Request.claim context ttl) = context ∷ []
claim_in _ = []

-- The contexts whose claim the log shows, the first claim first
unfoldable pub claims_in : List Request → List ExecutionContext
claims_in [] = []
claims_in (request ∷ log) = claims_in log ++ claim_in request

-- The context is that of a run for the issue, as its labels classify it.
pub record IsFor (issue : Issue) (context : ExecutionContext) : Type 0 where
  pub class : Classification
  pub classified : classify_issue issue ≡ ok class
  pub same_issue : context.linear_issue_id ≡ issue.identifier
  pub same_agent : context.agent ≡ class.assignee
  pub same_risk : context.risk ≡ class.risk
  pub same_mode : context.execution_mode ≡ class.mode
  pub same_environment : context.environment ≡ class.environment

-- The contexts belong to some of the issues, in their order, and each issue has one at most.
pub data Chosen : List Issue → List ExecutionContext → Type 0 where
  none_left : Chosen [] []
  passed_over :
      {issue : Issue} {issues : List Issue} {contexts : List ExecutionContext}
      → Chosen issues contexts
      → Chosen (issue ∷ issues) contexts
  taken :
      {issue : Issue} {issues : List Issue} {context : ExecutionContext}
      {contexts : List ExecutionContext}
      → IsFor issue context
      → Chosen issues contexts
      → Chosen (issue ∷ issues) (context ∷ contexts)

pub Chosen-append :
    {issue : Issue} {issues : List Issue} {first rest : List ExecutionContext}
    → Chosen (issue ∷ []) first
    → Chosen issues rest
    → Chosen (issue ∷ issues) (first ++ rest)
Chosen-append (passed_over none_left) t = passed_over t
Chosen-append (taken f none_left) t = taken f t

pub no_issue-nothing : {contexts : List ExecutionContext} → Chosen [] contexts → contexts ≡ []
no_issue-nothing none_left = refl

pub Chosen-nil : (issues : List Issue) → Chosen issues []
Chosen-nil [] = none_left
Chosen-nil (issue ∷ issues) = passed_over (Chosen-nil issues)

pub length-Chosen :
    {issues : List Issue} {contexts : List ExecutionContext}
    → Chosen issues contexts
    → length contexts ≤ length issues
length-Chosen none_left = omega arith
length-Chosen (passed_over t) = omega (arith, length-Chosen t)
length-Chosen (taken f t) = omega (arith, length-Chosen t)

module _ (context : ExecutionContext) (ttl : ℕ) where
  -- What a run has claimed in each phase
  abbrev pub made : Phase → List ExecutionContext
  made idle = []
  made _ = context ∷ []

  made-step :
      {p q : Phase} {request : Request}
      → Step context ttl p request q
      → made p ++ claim_in request ≡ made q
  made-step claims = refl
  made-step (reports reason) = refl
  made-step (beats before_dispatch) = refl
  made-step (beats after_dispatch) = refl
  made-step (moves status before_dispatch) = refl
  made-step (moves status after_dispatch) = refl
  made-step (stores kind payload (still_open before_dispatch)) = refl
  made-step (stores kind payload (still_open after_dispatch)) = refl
  made-step (stores kind payload after_completion) = refl
  made-step dispatches = refl
  made-step (completes fields) = refl
  made-step moves_late = refl
  made-step (closes status fields (still_open before_dispatch) other) = refl
  made-step (closes status fields (still_open after_dispatch) other) = refl
  made-step (closes status fields after_completion other) = refl

  -- The claims of a run that follows the protocol
  pub claims_in-Trace :
      {base log : List Request} {p : Phase}
      → Trace context ttl base log p
      → claims_in log ≡ claims_in base ++ made p
  unfolding claims_in
  claims_in-Trace {base} start = sym (append-nil (claims_in base))
  claims_in-Trace {base} (extend {log} {request} {p} t s) =
      rw (claims_in-Trace t) (append_assoc (claims_in base) (made p) (claim_in request))
      ∙ ap (λ cs. claims_in base ++ cs) (made-step s)
