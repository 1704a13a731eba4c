-- ===== src/Tick/Moves.antt =====
-- What a status update of the tick asks of Linear.
use hermes_agent_runtime.Base.{
  ℕ, ◌≡◌, refl, ◌∙◌, Bool, true, false, String, Option, none, some, ◌⊎◌, inl, inr, if◌then◌else◌,
  string_eq,
}
use hermes_agent_runtime.Base.Dict.{Dict, lookup}
use hermes_agent_runtime.Base.Result.{ok, err}
use hermes_agent_runtime.Runtime.Exceptions.{Call, Exception, error}
use hermes_agent_runtime.Runtime.Machine.{Action}
use hermes_agent_runtime.Runtime.Action.{pure, raise, lift, ◌>>=◌, ◌>>◌}
use hermes_agent_runtime.Clients.Json.{
  Json, object, text, member, end, null, get, item, is_truthy, or_empty,
}
use hermes_agent_runtime.Clients.Http.{Web, WebRequest, Reply, http_json}
use hermes_agent_runtime.Clients.Linear.{
  Linear, gql, gql_request, errors_in, set_state, set_state_query,
}
use hermes_agent_runtime.Tick.Issues.{move_issue_status, move_known}

module _ {W : Type 0} where
  -- The world after a sequence, if the second part leaves it as it is
  world->>= :
      {A B : Type 0} (x : Action W A) (f : A → Action W B) (w : W)
      → ((a : A) (w' : W) → (f a w').1 ≡ w')
      → ((x >>= f) w).1 ≡ (x w).1
  world->>= {A} {B} x f w h = go (x w).0
    where
      go :
          (r : Call A)
          → (elim r as (λ _. Call B × W) [ ok a ↦ f a (x w).1 | err e ↦ (err e, (x w).1) ]).1
            ≡ (x w).1
      go (ok a) = h a (x w).1
      go (err e) = refl

  if-world :
      (b : Bool) (e : Exception) (w : W)
      → ((if b then raise {W = W} {A = Unit {0}} e else pure tt) w).1 ≡ w
  if-world true e w = refl
  if-world false e w = refl

module _ {W : Type 0} (web : Web W) (client : Linear) where
  -- `gql` makes one request.
  gql-world :
      (query : String) (variables : Json) (w : W)
      → (gql web client query variables w).1
        ≡ (web (gql_request web client query (or_empty variables)) w).1
  unfolding gql http_json
  gql-world query variables w =
      let give = λ (status : ℕ) (found : Json). pure {W = W} (status, found) in
      let read = λ (status : ℕ) (body : Json).
        lift {W = W} (get (or_empty body) "data" null) >>= give status in
      let check = λ (errors : Json).
        if is_truthy errors
        then raise {W = W} {A = Unit {0}} (error "RuntimeError" "Linear GraphQL error")
        else pure tt in
      let rest = λ (reply : Reply).
        lift {W = W} (errors_in reply.1) >>= λ errors. check errors >> read reply.0 reply.1 in
      let read_world = λ (status : ℕ) (body : Json) (w' : W).
        world->>= (lift (get (or_empty body) "data" null)) (give status) w' (λ _ _. refl) in
      world->>= (http_json web (gql_request web client query (or_empty variables))) rest w
        λ reply w'.
          world->>= (lift (errors_in reply.1)) (λ errors. check errors >> read reply.0 reply.1) w'
            λ errors w''.
              world->>= (check errors) (λ _. read reply.0 reply.1) w''
                (λ _ u. read_world reply.0 reply.1 u)
              ∙ if-world (is_truthy errors) (error "RuntimeError" "Linear GraphQL error") w''

  -- The request of a status update
  abbrev update : Json → String → WebRequest
  update id state_id =
      gql_request web client set_state_query (
        object
          (member "id" id (member "input" (object (member "stateId" (text state_id) end)) end)))

  set_state-world :
      (id : Json) (state_id : String) (w : W)
      → (set_state web client id state_id w).1 ≡ (web (update id state_id) w).1
  unfolding set_state
  set_state-world id state_id w =
      let variables =
        object
          (member "id" id (member "input" (object (member "stateId" (text state_id) end)) end)) in
      world->>= (gql web client set_state_query variables)
        (λ answer. lift (item answer.1 "issueUpdate")) w (λ _ _. refl)
      ∙ gql-world set_state_query variables w

  module _ (states : Dict String) (issues : Dict Json) (identifier status : String) (w : W) where
    -- An issue that is not known, or a status that is not mapped, is ignored; a known issue without an
    -- id raises; and else one request is made, with the id of the issue and the state of the status.
    pub data Moves : Call (Unit {0}) × W → Type 0 where
      ignored : (lookup identifier issues ≡ none) ⊎ (lookup status states ≡ none) → Moves (ok tt, w)
      unnamed :
          (target : Json) (e : Exception)
          → lookup identifier issues ≡ some target
          → item target "id" ≡ err e
          → Moves (err e, w)
      sent :
          (target id : Json) (state_id : String)
          → lookup identifier issues ≡ some target
          → lookup status states ≡ some state_id
          → item target "id" ≡ ok id
          → (r : Call (Unit {0})) (w' : W) → w' ≡ (web (update id state_id) w).1
          → Moves (r, w')

    -- A status update of the tick returns and asks nothing if the issue is not known or the status has
    -- no state; it raises and asks nothing if the known issue has no id; and else it makes one request
    -- to Linear, which sets the state of the status on the issue with that id.
    pub move_issue_status-Moves :
        Moves (move_issue_status web client states issues identifier status w)
    unfolding move_issue_status
    move_issue_status-Moves = go (lookup identifier issues) (lookup status states) refl refl
      where
        send :
            (target : Json) (state_id : String) (r : Call Json)
            → lookup identifier issues ≡ some target
            → lookup status states ≡ some state_id
            → item target "id" ≡ r
            → Moves ((lift r >>= λ id. set_state web client id state_id >>= λ _. pure tt) w)
        send target state_id (err e) known mapped h = unnamed target e known h
        send target state_id (ok id) known mapped h = sent target id state_id known mapped h _ _ (
            world->>= (set_state web client id state_id) (λ _. pure tt) w (λ _ _. refl)
            ∙ set_state-world id state_id w)

        go :
            (target : Option Json) (state : Option String)
            → lookup identifier issues ≡ target
            → lookup status states ≡ state
            → Moves (move_known web client target state w)
        go none state h k = ignored (inl h)
        go (some target) none h k = ignored (inr k)
        go (some target) (some state_id) h k = send target state_id (item target "id") h k refl
