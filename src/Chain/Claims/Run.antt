-- ===== src/Chain/Claims/Run.antt =====
-- A run claims at most its own issue, and leaves the machine at rest.
use hermes_agent_runtime.Base.{
  ℕ, ◌≡◌, refl, sym, ◌∙◌, false, String, List, [], ◌∷◌, ◌++◌, string_eq,
}
use mathlib.Core.List.{append_assoc, append-nil}
use hermes_agent_runtime.Base.Result.{ok, err}
use hermes_agent_runtime.Runtime.Exceptions.{Call, Exception}
use hermes_agent_runtime.Runtime.Context.{ExecutionContext, new_run_id}
use hermes_agent_runtime.Runtime.Labels.{Issue, Classification, classify_issue}
use hermes_agent_runtime.Runtime.Machine.{Dispatch, Machine, M, ◌>>=◌}
use hermes_agent_runtime.Runtime.Execute.{AgentRuntime, MoveStatus, context_of, execute}
use hermes_agent_runtime.Runtime.Triple.{Post}
use hermes_agent_runtime.Runtime.Protocol.{
  Phase, idle, claimed, working, completing, closed, rejected,
}
use hermes_agent_runtime.Runtime.Lifecycle
use hermes_agent_runtime.Runtime.Lifecycle.Handler
use hermes_agent_runtime.Chain.Claims.{
  claims_in, Chosen, none_left, passed_over, taken, Chosen-append, Chosen-nil, made,
  claims_in-Trace,
}

-- From a machine at rest to a machine at rest, with new claims for some of the issues
pub record Claims {W : Type 0} (issues : List Issue) (before after : Machine W) : Type 0 where
  pub at_rest : after.alive ≡ false
  pub contexts : List ExecutionContext
  pub claimed : claims_in after.log ≡ claims_in before.log ++ contexts
  pub chosen : Chosen issues contexts

module _ {W : Type 0} where
  pub Claims-refl : (issues : List Issue) (m : Machine W) → m.alive ≡ false → Claims issues m m
  Claims-refl issues m h = record {
    at_rest = h;
    contexts = [];
    claimed = sym (append-nil (claims_in m.log));
    chosen = Chosen-nil issues;
  }

  -- One issue, and then the others
  pub Claims-cons :
      {issue : Issue} {issues : List Issue} {m m₁ m₂ : Machine W}
      → Claims (issue ∷ []) m m₁
      → Claims issues m₁ m₂
      → Claims (issue ∷ issues) m m₂
  Claims-cons {m = m} first rest = record {
    at_rest = rest.at_rest;
    contexts = first.contexts ++ rest.contexts;
    claimed =
        rest.claimed
        ∙ rw first.claimed (append_assoc (claims_in m.log) first.contexts rest.contexts);
    chosen = Chosen-append first.chosen rest.chosen;
  }

-- The calls of a machine at rest that are no claims change nothing in them.
module _ {W : Type 0} {issues : List Issue} where
  pub Claims-after :
      {m m₁ : Machine W} (m₀ : Machine W)
      → claims_in m.log ≡ claims_in m₀.log
      → Claims issues m m₁
      → Claims issues m₀ m₁
  Claims-after m₀ same t = record {
    at_rest = t.at_rest;
    contexts = t.contexts;
    claimed = t.claimed ∙ rw same refl;
    chosen = t.chosen;
  }

  pub Claims-before :
      {m m₁ : Machine W} (m₂ : Machine W)
      → claims_in m₂.log ≡ claims_in m₁.log
      → m₂.alive ≡ m₁.alive
      → Claims issues m m₁
      → Claims issues m m₂
  Claims-before m₂ same rest t = record {
    at_rest = rest ∙ t.at_rest;
    contexts = t.contexts;
    claimed = same ∙ t.claimed;
    chosen = t.chosen;
  }

-- What holds of the machine after both parts, or after the first where it raises, holds at last.
pub last->>= :
    {W A B : Type 0} (P : Machine W → Type 0) (x : M W A) (f : A → M W B) (m : Machine W)
    → P (x m).1
    → ((a : A) → (x m).0 ≡ ok a → P (f a (x m).1).1)
    → P ((x >>= f) m).1
last->>= {W} {A} {B} P x f m h k = go (x m).0 refl
  where
    go :
        (r : Call A)
        → (x m).0 ≡ r
        → P
            (elim r as (λ _. Call B × Machine W) [
              | ok a ↦ f a (x m).1
              | err e ↦ (err e, (x m).1)
            ]).1
    go (ok a) e = k a e
    go (err e') e = h

module _ {W : Type 0} (runtime : AgentRuntime W) (move_status : MoveStatus W) where
  module _ (issue : Issue) (c : Classification) (classified : classify_issue issue ≡ ok c)
      (run_id : String) (m : Machine W) where
    abbrev context : ExecutionContext
    context = context_of runtime move_status issue c run_id

    own : Chosen (issue ∷ []) (context ∷ [])
    own =
        taken
          (record {
            class = c;
            classified = classified;
            same_issue = refl;
            same_agent = refl;
            same_risk = refl;
            same_mode = refl;
            same_environment = refl;
          })
          none_left

    made-Chosen : (p : Phase) → Chosen (issue ∷ []) (made context runtime.ttl_seconds p)
    made-Chosen idle = passed_over none_left
    made-Chosen claimed = own
    made-Chosen working = own
    made-Chosen completing = own
    made-Chosen closed = own
    made-Chosen rejected = own

    Quiet-Claims :
        {p : Phase} (m' : Machine W)
        → Lifecycle.Quiet runtime move_status context m.log p m'
        → Claims (issue ∷ []) m m'
    Quiet-Claims {p} m' (t, rest) = record {
      at_rest = rest;
      contexts = made context runtime.ttl_seconds p;
      claimed = claims_in-Trace context runtime.ttl_seconds t;
      chosen = made-Chosen p;
    }

    Ended-Claims :
        (e : Exception) (m' : Machine W)
        → Handler.Ended runtime move_status context m.log e m'
        → Claims (issue ∷ []) m m'
    Ended-Claims e m' (Handler.given_up q) = Quiet-Claims m' q
    Ended-Claims e m' (Handler.interrupted i q) = Quiet-Claims m' q
    Ended-Claims e m' (Handler.not_moved f q) = Quiet-Claims m' q

    Failed-Claims :
        (e : Exception) (m' : Machine W)
        → Lifecycle.Failed runtime move_status context m.log e m'
        → Claims (issue ∷ []) m m'
    Failed-Claims e m' (Lifecycle.refused (Lifecycle.unreported q)) = Quiet-Claims m' q
    Failed-Claims e m' (Lifecycle.refused (Lifecycle.reported q)) = Quiet-Claims m' q
    Failed-Claims e m' (Lifecycle.ended d) = Ended-Claims e m' d

    pub Post-Claims :
        (o : Call ExecutionContext × Machine W)
        → Post
            (λ _. Lifecycle.Quiet runtime move_status context m.log completing)
            (Lifecycle.Failed runtime move_status context m.log)
            o
        → Claims (issue ∷ []) m o.1
    Post-Claims (ok a, m') q = Quiet-Claims m' q
    Post-Claims (err e, m') f = Failed-Claims e m' f

  module _ (dispatch : ExecutionContext → Dispatch W) where
    pub execute-Claims :
        (millis bits : ℕ) (issue : Issue) (m : Machine W)
        → m.alive ≡ false
        → Claims (issue ∷ []) m (execute runtime move_status dispatch millis bits issue m).1
    execute-Claims millis bits issue m rest = go (classify_issue issue) refl
      where
        go :
            (r : Call Classification)
            → classify_issue issue ≡ r
            → Claims (issue ∷ []) m (execute runtime move_status dispatch millis bits issue m).1
        go (ok c) e =
            Post-Claims issue c e (new_run_id millis bits) m _
              (Lifecycle.execute-protocol runtime move_status dispatch millis bits issue m e rest)
        go (err x) e =
            rw (Lifecycle.execute_unclassified runtime move_status dispatch millis bits issue m e)
              (Claims-refl (issue ∷ []) m rest)
