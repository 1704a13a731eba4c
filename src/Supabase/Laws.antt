-- ===== src/Supabase/Laws.antt =====
-- What the store makes of the answers of the server.
use hermes_agent_runtime.Base.{ℕ, ◌≡◌, ◌≢◌, inl, inr, refl, ap, true, false, ◌∷◌, String}
use hermes_agent_runtime.Base.Result.{ok, err, ◌>>=◌}
use hermes_agent_runtime.Payloads.Value.{Value, null, bool, int, text, container, Payload}
use hermes_agent_runtime.Payloads.Event.{mapping, validate_event_payload}
use hermes_agent_runtime.Payloads.Closed.{validate_event_payload-again}
use hermes_agent_runtime.Payloads.Validate.{Failure, Checked}
use hermes_agent_runtime.Runtime.Exceptions.{Call, Exception, run_conflict}
use hermes_agent_runtime.Runtime.Events.{checked, raised}
use hermes_agent_runtime.Runtime.Context.{ExecutionContext}
use hermes_agent_runtime.Base.{Bool-cases}
use hermes_agent_runtime.Runtime.Context.{new_run_id}
use hermes_agent_runtime.Runtime.Labels.{Issue, Classification, classify_issue}
use hermes_agent_runtime.Runtime.Machine.{Dispatch, Machine, Request}
use hermes_agent_runtime.Runtime.Execute.{AgentRuntime, MoveStatus, context_of, execute}
use hermes_agent_runtime.Runtime.Completion.{execute-refused}
use hermes_agent_runtime.Supabase.Http.{SupabaseStore, Urlopen, post, request}
use hermes_agent_runtime.Supabase.Store.{
  event, event_fields_of, claim, claim_fields_of, store_of, is_true, require_true,
}

is_true-eq : (v : Value) → is_true v ≡ true → v ≡ bool true
is_true-eq (bool true) h = refl
is_true-eq (bool false) h = cc
is_true-eq null h = cc
is_true-eq (int n) h = cc
is_true-eq (text s) h = cc
is_true-eq container h = cc

-- Where the answer is not `true`, a call that requires it raises.
require_true-fails :
    (r : Call Value) (e : Exception)
    → r ≢ ok (bool true)
    → (raised_error : Exception) × ((r >>= require_true e) ≡ err raised_error)
require_true-fails (err x) e h = (x, refl)
require_true-fails (ok v) e h = elim (Bool-cases (is_true v)) [
  | inl yes_true ↦ elim (h (ap ok (is_true-eq v yes_true))) [ ]
  | inr no_true ↦ (e, rw no_true refl)
]

module _ {W : Type 0} (urlopen : Urlopen W) (store : SupabaseStore) where
  -- What `event` does with a payload: it refuses it and asks nothing of the server, or it sends one
  -- request with a payload that the contract accepts and leaves as it is.
  pub data Sends (context : ExecutionContext) (kind : String) (payload : Payload) (w : W)
      : Call (Unit {0}) × W → Type 0 where
    nothing :
        (failure : Failure)
        → validate_event_payload kind (mapping payload) ≡ err failure
        → Sends context kind payload w (err (raised failure), w)
    one_request :
        (sent : Payload) (r : Call (Unit {0}))
        → validate_event_payload kind (mapping payload) ≡ ok sent
        → validate_event_payload kind (mapping sent) ≡ ok sent
        → Sends context kind payload w (
          r,
          (urlopen (request urlopen store "agent_events" (event_fields_of context kind sent)) w).1,
        )

  -- No payload that the contract refuses reaches the server: either the payload is refused and no
  -- request is made, or one is made, to `agent_events`, and its payload is what the contract makes of the given one, a payload that the contract accepts as it is.
  pub event-Sends :
      (context : ExecutionContext) (kind : String) (payload : Payload) (w : W)
      → Sends context kind payload w (event urlopen store context kind payload w)
  unfolding event post
  event-Sends context kind payload w = go (validate_event_payload kind (mapping payload)) refl
    where
      go :
          (r : Checked Payload)
          → validate_event_payload kind (mapping payload) ≡ r
          → Sends context kind payload w (elim (checked r) [
            | err e ↦ (err e, w)
            | ok normalized ↦ (
              (post urlopen store "agent_events" (event_fields_of context kind normalized) w).0
                  >>= λ _. ok tt,
              (post urlopen store "agent_events" (event_fields_of context kind normalized) w).1,
            )
          ])
      go (err failure) h = nothing failure h
      go (ok sent) h =
          one_request sent _ h (validate_event_payload-again kind (mapping payload) sent h)

  abbrev pub runtime : ℕ → ℕ → AgentRuntime W
  runtime ttl_seconds heartbeat_seconds = record {
    store = store_of urlopen store;
    ttl_seconds = ttl_seconds;
    heartbeat_seconds = heartbeat_seconds;
  }

  -- No work without the lock: where the server does not answer the claim of a classified issue with
  -- `true`, `execute` over this store raises, and the claim is the only call that it made.
  pub execute-unlocked :
      (ttl_seconds heartbeat_seconds : ℕ) (move_status : MoveStatus W)
      (dispatch : ExecutionContext → Dispatch W) (millis bits : ℕ) (issue : Issue) (m : Machine W)
      {c : Classification}
      → classify_issue issue ≡ ok c
      → m.alive ≡ false
      → let agent = runtime ttl_seconds heartbeat_seconds in
        let context = context_of agent move_status issue c (new_run_id millis bits) in
        (post urlopen store "rpc/hermes_claim_run" (claim_fields_of context ttl_seconds) m.world).0
          ≢ ok (bool true)
        → let (r, m') = execute agent move_status dispatch millis bits issue m in
          (e : Exception) × (r ≡ err e) × (m'.log ≡ Request.claim context ttl_seconds ∷ m.log)
  unfolding store_of claim
  execute-unlocked ttl_seconds heartbeat_seconds move_status dispatch millis bits issue m {c} known
        stopped unlocked =
      let agent = runtime ttl_seconds heartbeat_seconds in
      let context = context_of agent move_status issue c (new_run_id millis bits) in
      let (e, refused) =
        require_true-fails
          (post urlopen store "rpc/hermes_claim_run" (claim_fields_of context ttl_seconds)
            m.world).0
          (run_conflict "Active run already exists for this issue") unlocked in
      let (raises, only) =
        execute-refused agent move_status dispatch millis bits issue m known stopped refl refused in
      (e, raises, only)
