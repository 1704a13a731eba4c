-- ===== src/Supabase/Store.antt =====
-- The five methods of `SupabaseStore`, as a store of the runtime. It is no `LockRejectionSink`.
use hermes_agent_runtime.Base.{ℕ, Bool, false, String, [], ◌∷◌, none, pos}
use hermes_agent_runtime.Base.{if◌then◌else◌}
use hermes_agent_runtime.Base.Dict.{Dict}
use hermes_agent_runtime.Base.Result.{ok, err, ◌>>=◌}
use hermes_agent_runtime.Payloads.Value.{Value, bool, int, text, Payload}
use hermes_agent_runtime.Payloads.Event.{mapping, validate_event_payload}
use hermes_agent_runtime.Runtime.Exceptions.{Call, Exception, run_conflict, error}
use hermes_agent_runtime.Runtime.Events.{checked}
use hermes_agent_runtime.Runtime.Context.{ExecutionContext}
use hermes_agent_runtime.Runtime.Machine.{Action, Store}
use hermes_agent_runtime.Supabase.Http.{SupabaseStore, Field, value, object, Urlopen, post}

-- `result is True`
abbrev pub is_true : Value → Bool
is_true (bool b) = b
is_true _ = false

-- `if result is not True: raise e`
abbrev pub require_true : Exception → Value → Call (Unit {0})
require_true e result = if is_true result then ok tt else err e

-- The body of `claim`'s request
abbrev pub claim_fields_of : ExecutionContext → ℕ → Dict Field
claim_fields_of context ttl_seconds =
    ("p_run_id", value (text context.run_id))
    ∷ ("p_issue_id", value (text context.linear_issue_id))
    ∷ ("p_agent", value (text context.agent))
    ∷ ("p_risk", value (text context.risk))
    ∷ ("p_mode", value (text context.execution_mode))
    ∷ ("p_environment", value (text context.environment))
    ∷ ("p_ttl_seconds", value (int (pos ttl_seconds)))
    ∷ []

-- The body of `event`'s request
abbrev pub event_fields_of : ExecutionContext → String → Payload → Dict Field
event_fields_of context kind payload =
    ("run_id", value (text context.run_id))
    ∷ ("linear_issue_id", value (text context.linear_issue_id))
    ∷ ("agent", value (text context.agent))
    ∷ ("event_type", value (text kind))
    ∷ ("payload", object payload)
    ∷ []

module _ {W : Type 0} (urlopen : Urlopen W) (store : SupabaseStore) where
  -- A request, and what is made of its result
  abbrev post_then : {A : Type 0} → String → Dict Field → (Value → Call A) → Action W A
  post_then path fields next w = let (r, w') = post urlopen store path fields w in (r >>= next, w')

  unfoldable pub claim : ExecutionContext → ℕ → Action W (Unit {0})
  unfolding post
  claim context ttl_seconds =
      post_then "rpc/hermes_claim_run" (claim_fields_of context ttl_seconds)
        (require_true (run_conflict "Active run already exists for this issue"))

  unfoldable pub heartbeat : ExecutionContext → ℕ → Action W Bool
  unfolding post
  heartbeat context ttl_seconds =
      post_then "rpc/hermes_heartbeat_run"
        (("p_run_id", value (text context.run_id))
          ∷ ("p_issue_id", value (text context.linear_issue_id))
          ∷ ("p_ttl_seconds", value (int (pos ttl_seconds)))
          ∷ [])
        (λ result. ok (is_true result))

  -- The validated payload is what is sent; a payload that is refused sends nothing.
  unfoldable pub event : ExecutionContext → String → Payload → Action W (Unit {0})
  unfolding post
  event context kind payload w = elim (checked (validate_event_payload kind (mapping payload))) [
    | err e ↦ (err e, w)
    | ok normalized ↦
        post_then "agent_events" (event_fields_of context kind normalized) (λ _. ok tt) w
  ]

  unfoldable pub finish : ExecutionContext → String → Payload → Action W (Unit {0})
  unfolding post
  finish context status fields =
      post_then "rpc/hermes_finish_run"
        (("p_run_id", value (text context.run_id))
          ∷ ("p_issue_id", value (text context.linear_issue_id))
          ∷ ("p_status", value (text status))
          ∷ ("p_fields", object fields)
          ∷ [])
        (require_true (error "RuntimeError" "Run no longer owns the issue lock"))

  unfoldable pub recover : String → Action W Bool
  unfolding post
  recover issue_id =
      post_then "rpc/hermes_recover_expired_lock" (("p_issue_id", value (text issue_id)) ∷ [])
        (λ result. ok (is_true result))

  unfoldable pub store_of : Store W
  unfolding claim heartbeat event finish recover
  store_of = record {
    claim = claim;
    heartbeat = heartbeat;
    event = event;
    finish = finish;
    recover = recover;
    lock_rejected = none;
  }
