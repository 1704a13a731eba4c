-- ===== src/Runtime/Completion/Run.antt =====
-- From the end of a completed run to the whole of `execute`.
use hermes_agent_runtime.Base.{sym, ℕ, ◌≡◌, refl, subst, ap, ◌∙◌, Option, []}
use hermes_agent_runtime.Base.Result.{ok, err}
use hermes_agent_runtime.Payloads.Value.{Payload}
use hermes_agent_runtime.Payloads.Event.{mapping, validate_event_payload}
use hermes_agent_runtime.Runtime.Exceptions.{Exception, Call}
use hermes_agent_runtime.Runtime.Context.{ExecutionContext}
use hermes_agent_runtime.Runtime.Events.{checked}
use hermes_agent_runtime.Runtime.Labels.{Issue, Classification, classify_issue}
use hermes_agent_runtime.Runtime.Context.{new_run_id}
use hermes_agent_runtime.Runtime.Machine.{Dispatch, Machine, raise, lift, ◌>>=◌, ◌>>◌, tick, join}
use hermes_agent_runtime.Runtime.Execute.{
  AgentRuntime, MoveStatus, move, stop_worker, store_event, finish, dispatched, complete, supervise,
  persist_failed, move_blocked, recover_from, at_last, run_worker, claim, context_of, execute,
  error_fields, error_name, final_error, final_status,
}
use hermes_agent_runtime.Runtime.Triple.{Post, >>=-Post, >>-Post, try_except-Post}
use hermes_agent_runtime.Runtime.Completion.Gates
use hermes_agent_runtime.Runtime.Lifecycle
use hermes_agent_runtime.Runtime.Completion.Calm

module _ {W A : Type 0} where
  Post-returns : (o : Call A × Machine W) → Post (λ a m. o ≡ (ok a, m)) Calm.Any o
  Post-returns (ok a, m) = refl
  Post-returns (err e, m) = tt

module _ {W : Type 0} (runtime : AgentRuntime W) (move_status : MoveStatus W)
    (context : ExecutionContext) where
  open runtime use {store, ttl_seconds}

  abbrev Completed : Dispatch W → ExecutionContext → Machine W → Type 0
  Completed = Gates.Completed runtime move_status context

  supervise-Completed :
      (work : Dispatch W) (m : Machine W)
      → Post (Completed work) Calm.Any (supervise runtime move_status context work m)
  unfolding supervise
  supervise-Completed work m =
      let working =
        dispatched runtime move_status context work >>= complete runtime move_status context in
      let dispatching = λ (payload : Payload).
        store_event runtime move_status context "agent.dispatched" payload >> working in
      let start_event = lift (checked (validate_event_payload "agent.dispatched" (mapping []))) in
      >>-Post (λ _. Unit) (Completed work) Calm.Any (move runtime move_status context "In Progress")
        (start_event >>= dispatching) m (Calm.Any-Post _)
        λ m₁ _.
          >>=-Post (λ _ _. Unit) (Completed work) Calm.Any start_event dispatching m₁
            (Calm.Any-Post _)
            λ payload m₂ _.
              >>-Post (λ _. Unit) (Completed work) Calm.Any
                (store_event runtime move_status context "agent.dispatched" payload) working m₂
                (Calm.Any-Post _)
                λ m₃ _.
                  let doing = dispatched runtime move_status context work in
                  >>=-Post (λ result m₄. doing m₃ ≡ (ok result, m₄)) (Completed work) Calm.Any doing
                    (complete runtime move_status context) m₃ (Post-returns (doing m₃))
                    λ result m₄ ran.
                      Gates.complete-Completed runtime move_status context work result m₃ m₄ ran

  -- The handler raises in the end, whatever happens.
  recover_from_raises :
      (work : Dispatch W) (exc : Exception) (m : Machine W)
      → Post {A = ExecutionContext}
          (Completed work)
          Calm.Any
          (recover_from runtime move_status context exc m)
  unfolding recover_from
  recover_from_raises work exc m =
      let finishing = λ (later : Option Exception).
        finish runtime move_status context (final_status (final_error exc later))
          (error_fields (error_name exc later))
        >> raise {A = ExecutionContext} exc in
      let moving = λ (later : Option Exception).
        move_blocked runtime move_status context (final_error exc later) >> finishing later in
      >>-Post (λ _. Unit) (Completed work) Calm.Any (stop_worker runtime move_status context)
        (persist_failed runtime move_status context exc >>= moving) m
        (Calm.Any-Post (stop_worker runtime move_status context m))
        λ m₁ _.
          >>=-Post (λ _ _. Unit) (Completed work) Calm.Any
            (persist_failed runtime move_status context exc) moving m₁
            (Calm.Any-Post (persist_failed runtime move_status context exc m₁))
            λ later m₂ _.
              >>-Post (λ _. Unit) (Completed work) Calm.Any
                (move_blocked runtime move_status context (final_error exc later)) (finishing later)
                m₂
                (Calm.Any-Post
                  (move_blocked runtime move_status context (final_error exc later) m₂))
                λ m₃ _.
                  >>-Post (λ _. Unit) (Completed work) Calm.Any
                    (finish runtime move_status context (final_status (final_error exc later))
                      (error_fields (error_name exc later)))
                    (raise exc) m₃
                    (Calm.Any-Post (
                      finish runtime move_status context (final_status (final_error exc later))
                        (error_fields (error_name exc later)) m₃))
                    (λ _ _. tt)

  join-Completed :
      (work : Dispatch W) (own : ExecutionContext) (m : Machine W)
      → Completed work own m
      → Completed work own (join store context ttl_seconds m)
  unfolding join tick
  join-Completed work own m c =
      let (later, e) = Calm.turn_quiet runtime move_status context m.wakeups m c.quiet in
      record {
        same = c.same;
        result = c.result;
        answers = c.answers;
        started = c.started;
        ended = c.ended;
        ran = c.ran;
        stored = c.stored;
        kept = c.kept;
        calls = ap (λ (n : Machine W). n.log) e ∙ c.calls;
        gates = c.gates;
        no_errors = ap (λ (n : Machine W). n.heartbeat_errors) e ∙ c.no_errors;
        quiet = refl;
      }

  run_worker-Completed :
      (work : Dispatch W) (m : Machine W)
      → Post (Completed work) Calm.Any (run_worker runtime move_status context work m)
  unfolding run_worker at_last
  run_worker-Completed work m = go _ (
      try_except-Post (Completed work) Calm.Any Calm.Any
        (supervise runtime move_status context work) (recover_from runtime move_status context) _
        (supervise-Completed work _) (λ e m' _ _. recover_from_raises work e m') (λ _ _ _ _. tt))
    where
      go :
          (o : Call ExecutionContext × Machine W)
          → Post (Completed work) Calm.Any o
          → Post (Completed work) Calm.Any (o.0, join store context ttl_seconds o.1)
      go (ok c, m') d = join-Completed work c m' d
      go (err e, m') d = tt

module _ {W : Type 0} (runtime : AgentRuntime W) (move_status : MoveStatus W) where
  claimed_run-Completed :
      (context : ExecutionContext) (work : Dispatch W) (m : Machine W)
      → Post
          (Gates.Completed runtime move_status context work)
          Calm.Any
          ((claim runtime move_status context >> run_worker runtime move_status context work) m)
  claimed_run-Completed context work m =
      >>-Post (λ _. Unit) (Gates.Completed runtime move_status context work) Calm.Any
        (claim runtime move_status context) (run_worker runtime move_status context work) m
        (Calm.Any-Post (claim runtime move_status context m))
        (λ m' _. run_worker-Completed runtime move_status context work m')

  -- Where `execute` returns for a classified issue, the dispatcher has returned a result that passes
  -- the gates of the issue's agent, and the calls made since the heartbeat thread was joined after
  -- that are exactly: the result's events, in their order, each accepted by the contract and with
  -- the payload that the contract makes of it, but for those with the key of an earlier one; the
  -- move of the issue to review, if there is a callback; and `finish "completed"` with the fields of
  -- that result. No heartbeat has failed, the heartbeat thread is stopped, and the context that is
  -- returned is the run's own.
  pub execute-Completed :
      (dispatch : ExecutionContext → Dispatch W) (millis bits : ℕ) (issue : Issue)
      (m m' : Machine W) {c : Classification} {returned : ExecutionContext}
      → classify_issue issue ≡ ok c
      → execute runtime move_status dispatch millis bits issue m ≡ (ok returned, m')
      → Gates.Completed runtime move_status
          (context_of runtime move_status issue c (new_run_id millis bits))
          (dispatch (context_of runtime move_status issue c (new_run_id millis bits)))
          returned
          m'
  unfolding execute
  execute-Completed dispatch millis bits issue m m' {c} known h =
      let context = context_of runtime move_status issue c (new_run_id millis bits) in
      let work = dispatch context in
      let run = claim runtime move_status context >> run_worker runtime move_status context work in
      let same : run m ≡ (ok _, m') = rw known at h in
      subst (Post (Gates.Completed runtime move_status context work) Calm.Any) same
        (claimed_run-Completed context work m)

  -- The id of the run that is returned is the new one.
  pub execute-run_id :
      (dispatch : ExecutionContext → Dispatch W) (millis bits : ℕ) (issue : Issue) (m : Machine W)
      {returned : ExecutionContext}
      → (execute runtime move_status dispatch millis bits issue m).0 ≡ ok returned
      → returned.run_id ≡ new_run_id millis bits
  execute-run_id dispatch millis bits issue m {returned} h = go (classify_issue issue) refl
    where
      run : Call ExecutionContext × Machine W
      run = execute runtime move_status dispatch millis bits issue m

      paired : run ≡ (ok returned, run.1)
      paired = ap (λ r. (r, run.1)) h

      go :
          (r : Call Classification)
          → classify_issue issue ≡ r
          → returned.run_id ≡ new_run_id millis bits
      go (ok c) known =
          ap (λ context. context.run_id)
            (execute-Completed dispatch millis bits issue m run.1 known paired).same
      go (err e) unknown =
          let refused =
            Lifecycle.execute_unclassified runtime move_status dispatch millis bits issue m
              unknown in
          let same : err e ≡ ok returned = ap (λ o. o.0) (sym refused) ∙ h in cc
