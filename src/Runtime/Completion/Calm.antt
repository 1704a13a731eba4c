-- ===== src/Runtime/Completion/Calm.antt =====
-- The calls of a run whose heartbeat thread has been joined, one by one.
use hermes_agent_runtime.Base.{ℕ, ◌≡◌, refl, ap, false, not, none, some, List, [], ◌∷◌, String}
use hermes_agent_runtime.Base.Result.{ok, err}
use hermes_agent_runtime.Runtime.Exceptions.{Event, Exception, Call, error}
use hermes_agent_runtime.Runtime.Context.{ExecutionContext}
use hermes_agent_runtime.Runtime.Machine.{Action, Request, Machine, raise_if, perform, take_turn}
use hermes_agent_runtime.Runtime.Execute.{
  AgentRuntime, MoveStatus, move, store_event, store_events, check_heartbeat, is_nil,
}
use hermes_agent_runtime.Runtime.Triple.{Post, >>-Post}
use hermes_agent_runtime.Runtime.Lifecycle.Heartbeat.{beats_quiet}

-- Nothing is said of what is raised.
abbrev pub Any : {W : Type 0} → Exception → Machine W → Type 0
Any _ _ = Unit

module _ {W A : Type 0} where
  -- What holds of every return holds where nothing is asked.
  pub Any-Post : (o : Call A × Machine W) → Post (λ _ _. Unit {0}) Any o
  Any-Post (ok a, m) = tt
  Any-Post (err e, m) = tt

module _ {W : Type 0} (runtime : AgentRuntime W) (move_status : MoveStatus W)
    (context : ExecutionContext) where
  open runtime use {store, ttl_seconds}

  -- The log after a change of the issue's status
  abbrev pub moved : String → List Request → List Request
  moved status log = elim move_status [
    | none ↦ log
    | some _ ↦ Request.move_status context.linear_issue_id status ∷ log
  ]

  -- The log after each of the events has been sent to the store, in their order
  abbrev pub with_events : List Event → List Request → List Request
  with_events [] log = log
  with_events ((kind, payload) ∷ events) log =
      with_events events (Request.event context kind payload ∷ log)

  -- The worker is stopped, and these are the errors of its heartbeat and the calls made.
  abbrev pub Calm : List Exception → List Request → Machine W → Type 0
  Calm errors log m = (m.alive ≡ false) × (m.heartbeat_errors ≡ errors) × (m.log ≡ log)

  pub turn_quiet :
      (turns : List ℕ) (m : Machine W)
      → m.alive ≡ false
      → (later : List ℕ) × (take_turn store context ttl_seconds turns m
          ≡ record m { wakeups = later })
  turn_quiet [] m q = (m.wakeups, refl)
  turn_quiet (n ∷ later) m q =
      (later, beats_quiet store context ttl_seconds [] n (record m { wakeups = later }) q)

  -- A call with the worker stopped is the action alone.
  pub perform_quiet :
      {A : Type 0} (request : Request) (action : Action W A) (m : Machine W)
      → m.alive ≡ false
      → (later : List ℕ) × (perform store context ttl_seconds request action m ≡ (
        (action m.world).0,
        record m { world = (action m.world).1; wakeups = later; log = request ∷ m.log },
      ))
  unfolding perform
  perform_quiet request action m q =
      let (later, e) = turn_quiet m.wakeups m q in
      (
        later,
        ap
            (λ (n : Machine W).
              ((action n.world).0, record n { world = (action n.world).1; log = request ∷ n.log }))
            e,
      )

  pub perform-Calm :
      {A : Type 0} (errors : List Exception) (log : List Request) (request : Request)
      (action : Action W A) (m : Machine W)
      → Calm errors log m
      → Post
          (λ _. Calm errors (request ∷ log))
          Any
          (perform store context ttl_seconds request action m)
  perform-Calm errors log request action m (q, e, l) =
      rw (perform_quiet request action m q).1
        (go (action m.world).0 _ (q, e, ap (λ calls. request ∷ calls) l))
    where
      go :
          {A : Type 0} (r : Call A) (n : Machine W)
          → Calm errors (request ∷ log) n
          → Post (λ _. Calm errors (request ∷ log)) Any (r, n)
      go (ok a) n k = k
      go (err e) n k = tt

  pub move-Calm :
      (errors : List Exception) (log : List Request) (status : String) (m : Machine W)
      → Calm errors log m
      → Post (λ _. Calm errors (moved status log)) Any (move runtime move_status context status m)
  unfolding move
  move-Calm errors log status m q = go move_status
    where
      go :
          (u : MoveStatus W)
          → Post
              (λ _. Calm errors (elim u [
                | none ↦ log
                | some _ ↦ Request.move_status context.linear_issue_id status ∷ log
              ]))
              Any
              (move runtime u context status m)
      go none = q
      go (some update) =
          perform-Calm errors log (Request.move_status context.linear_issue_id status)
            (update context.linear_issue_id status) m q

  pub store_events-Calm :
      (errors : List Exception) (log : List Request) (events : List Event) (m : Machine W)
      → Calm errors log m
      → Post
          (λ _. Calm errors (with_events events log))
          Any
          (store_events runtime move_status context events m)
  unfolding store_events store_event
  store_events-Calm errors log [] m q = q
  store_events-Calm errors log ((kind, payload) ∷ events) m q =
      let sent = Request.event context kind payload ∷ log in
      >>-Post (Calm errors sent) (λ _. Calm errors (with_events events sent)) Any
        (store_event runtime move_status context kind payload)
        (store_events runtime move_status context events) m
        (perform-Calm errors log (Request.event context kind payload)
          (store.event context kind payload) m q)
        (store_events-Calm errors sent events)

  pub check_heartbeat-Calm :
      (errors : List Exception) (log : List Request) (m : Machine W)
      → Calm errors log m
      → Post (λ _. Calm [] log) Any (check_heartbeat runtime move_status context m)
  unfolding check_heartbeat
  check_heartbeat-Calm errors log m (q, e, l) = go m.heartbeat_errors refl
    where
      go :
          (errs : List Exception)
          → m.heartbeat_errors ≡ errs
          → Post
              (λ _. Calm [] log)
              Any
              (raise_if
                (not (is_nil runtime move_status context errs))
                (error "RuntimeError" "Heartbeat failed; execution outcome requires review")
                m)
      go [] e' = (q, e', l)
      go (_ ∷ _) e' = tt
