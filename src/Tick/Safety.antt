-- ===== src/Tick/Safety.antt =====
-- What a pass of the chain claims over the issues that the guard lets through.
use hermes_agent_runtime.Base.{
  All-map, ℕ, ◌≤◌, ◌≡◌, ◌≢◌, refl, ◌∙◌, sym, ap, subst, Bool, true, false, String, none, some, List,
  [], ◌∷◌, map, select, length, All, arith, length-map, if◌then◌else◌, Bool-cases, inl, inr,
}
use hermes_agent_runtime.Base.Dict.{Dict}
use hermes_agent_runtime.Base.Result.{ok, err}
use hermes_agent_runtime.Runtime.Exceptions.{Call, Exception}
use hermes_agent_runtime.Runtime.Context.{ExecutionContext}
use hermes_agent_runtime.Runtime.Labels.{Issue, Classification, classify_issue}
use hermes_agent_runtime.Runtime.Labels.Laws.{classify_issue-IsRunnable}
use hermes_agent_runtime.Runtime.Machine.{Machine, Action, Dispatch}
use hermes_agent_runtime.Runtime.Action.{pure, lift, ◌>>=◌, >>=-returns, Gives, >>=-Gives}
use hermes_agent_runtime.Runtime.Execute.{AgentRuntime, agent_runtime}
use hermes_agent_runtime.Chain.Selector.{LinearIssueSnapshot, issue_of}
use hermes_agent_runtime.Chain.Laws.{is_runnable}
use hermes_agent_runtime.Chain.Claims.{
  claims_in, IsFor, Chosen, none_left, passed_over, taken, length-Chosen, no_issue-nothing,
}
use hermes_agent_runtime.Chain.Claims.Run.{Claims}
use hermes_agent_runtime.Chain.Claims.Polled.{issues_read}
use hermes_agent_runtime.Chain.Claims.Pass.{run_once-Claims}
use hermes_agent_runtime.Guard.Policy.{gate_block_reason}
use hermes_agent_runtime.Guard.Agreement.{gate_block_reason-classify_issue}
use hermes_agent_runtime.Kanban.Adapter.{Adapter, checked_adapter, dispatch}
use hermes_agent_runtime.Supabase.Http.{SupabaseStore, from_environment}
use hermes_agent_runtime.Supabase.Store.{store_of}
use hermes_agent_runtime.Env.Process.{missing_required, export_into_environ}
use hermes_agent_runtime.Clients.Json.{Json}
use hermes_agent_runtime.Clients.Linear.{Linear, linear}
use hermes_agent_runtime.Tick.Board.{start, read_task}
use hermes_agent_runtime.Tick.Nodes.{issues_in}
use hermes_agent_runtime.Tick.Issues.{
  todo_issues, guarded_read_issues, resolve_bound, move_issue_status, linear_status_states,
}
use hermes_agent_runtime.Tick.Guarded.{IsAdmitted, IsFree, guarded_read_issues-IsFree}
use hermes_agent_runtime.Tick.Main.{
  Settings, Outside, Chain, log_blocked, kanban_adapter, with_client, with_environ, with_answer,
  with_issues, with_store, with_runtime, build, run_chain, at_rest, run_built, proceed, main,
}
pub mod Main

-- What a run may be that nobody is asked about
pub record IsSafe (context : ExecutionContext) : Type 0 where
  pub automatic : context.execution_mode ≡ "auto"
  pub not_high : context.risk ≢ "high"
  pub not_critical : context.risk ≢ "critical"
  pub not_production : context.environment ≢ "production"

-- The class of a snapshot that meets the gates
gates-IsSafe :
    (s : LinearIssueSnapshot) (context : ExecutionContext)
    → gate_block_reason s.identifier s.labels ≡ none
    → IsFor (issue_of s) context
    → IsSafe context
gates-IsSafe s context gates f =
    let todo = (classify_issue-IsRunnable (issue_of s) f.class f.classified).todo in
    let (c, classified, automatic, not_production, not_high, not_critical) =
      gate_block_reason-classify_issue s todo gates in
    let same : c ≡ f.class = cc in
    record {
      automatic = f.same_mode ∙ rw (sym same) automatic;
      not_high = λ e. not_high (rw same (sym f.same_risk ∙ e));
      not_critical = λ e. not_critical (rw same (sym f.same_risk ∙ e));
      not_production = λ e. not_production (rw same (sym f.same_environment ∙ e));
    }

Chosen-IsSafe :
    (snapshots : List LinearIssueSnapshot) {contexts : List ExecutionContext}
    → All (λ s. gate_block_reason s.identifier s.labels ≡ none) snapshots
    → Chosen (map issue_of (select is_runnable snapshots)) contexts
    → (length contexts ≤ length snapshots) × All IsSafe contexts
unfolding select
Chosen-IsSafe [] h none_left = (omega arith, tt)
Chosen-IsSafe (s ∷ snapshots) (g, h) t = go (is_runnable s) t (λ _ t'. Chosen-IsSafe snapshots h t')
  where
    go :
        (b : Bool) {contexts : List ExecutionContext}
        → Chosen
            (map issue_of
              (if b then s ∷ select is_runnable snapshots else select is_runnable snapshots))
            contexts
        → ((others : List ExecutionContext)
            → Chosen (map issue_of (select is_runnable snapshots)) others
            → (length others ≤ length snapshots) × All IsSafe others)
        → (length contexts ≤ length (s ∷ snapshots)) × All IsSafe contexts
    go false t' others = let (few, safe) = others _ t' in (omega (arith, few), safe)
    go true (passed_over t') others = let (few, safe) = others _ t' in (omega (arith, few), safe)
    go true (taken {context = context} f t') others =
        let (few, safe) = others _ t' in (omega (arith, few), (gates-IsSafe s context g f, safe))

-- What a run of `main` leaves behind: the heartbeat thread stopped, few claims, all of them safe
pub record IsCalm {W : Type 0} (bound : ℕ) (m : Machine W) : Type 0 where
  pub stopped : m.alive ≡ false
  pub few : length (claims_in m.log) ≤ bound
  pub safe : All IsSafe (claims_in m.log)

module _ {W : Type 0} (outside : Outside W) (settings : Settings) where
  open outside use {files, web, urlopen, board, source}

  pub idle-IsCalm : (bound : ℕ) (wakeups : List ℕ) (w : W) → IsCalm bound (at_rest wakeups w)
  unfolding claims_in
  idle-IsCalm bound wakeups w = record { stopped = refl; few = omega arith; safe = tt }

  -- The snapshots of a guarded reading, and the claims of the pass over them
  issues_read-IsCalm :
      (client : Linear) (bound : ℕ) (w : W) (contexts : List ExecutionContext)
      (r : Call (List LinearIssueSnapshot))
      → (guarded_read_issues web client board bound settings.team_key w).0 ≡ r
      → Chosen (issues_read r) contexts
      → (length contexts ≤ bound) × All IsSafe contexts
  issues_read-IsCalm client bound w contexts (ok snapshots) h t =
      let (few, free) =
        guarded_read_issues-IsFree web client board bound settings.team_key w snapshots h in
      let gates = All-map (λ s f. f.admitted.gates) snapshots free in
      let (fewer, safe) = Chosen-IsSafe snapshots gates t in (omega (arith, few, fewer), safe)
  issues_read-IsCalm client bound w contexts (err e) h t = rw (no_issue-nothing t) (omega arith, tt)

  pub run_chain-IsCalm :
      (out : Dispatch W) (fuel bound : ℕ) (client : Linear) (chain : Chain W) (wakeups : List ℕ)
      (w : W)
      → chain.read_issues ≡ guarded_read_issues web client board bound settings.team_key
      → IsCalm bound (run_chain outside settings out fuel chain (at_rest wakeups w)).1
  unfolding run_chain claims_in
  run_chain-IsCalm out fuel bound client chain wakeups w read =
      let t =
        run_once-Claims chain.runtime chain.move_status log_blocked
          (λ context. dispatch chain.adapter context out fuel) source log_blocked chain.read_issues
          (at_rest wakeups w) refl in
      let (few, safe) =
        issues_read-IsCalm client bound w t.contexts (chain.read_issues w).0
          (ap (λ r. (r w).0) (sym read)) t.chosen in
      record { stopped = t.at_rest; few = rw t.claimed few; safe = rw t.claimed safe }
