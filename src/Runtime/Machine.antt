-- ===== src/Runtime/Machine.antt =====
-- The setting of a run: the store, Linear and the dispatcher over a world of any type, and the
-- heartbeat thread, which wakes up between any two actions of the main thread.
use hermes_agent_runtime.Base.{ℕ, zero, suc, Bool, true, false, String, Option, List, [], ◌∷◌}
use hermes_agent_runtime.Base.{◌++◌, if◌then◌else◌}
use hermes_agent_runtime.Base.Result.{ok, err}
use hermes_agent_runtime.Payloads.Value.{Payload}
use hermes_agent_runtime.Runtime.Exceptions.{Exception, Call, error, is_exception}
use hermes_agent_runtime.Runtime.Context.{ExecutionContext, ExecutionResult}

-- An action on the world that can raise.
abbrev pub Action : Type 0 → Type 0 → Type 0
Action W A = W → Call A × W

-- `Store`, with the method of a `LockRejectionSink` if the store has it.
pub record Store (W : Type 0) : Type 0 where
  pub claim : ExecutionContext → ℕ → Action W (Unit {0})
  pub heartbeat : ExecutionContext → ℕ → Action W Bool
  pub event : ExecutionContext → String → Payload → Action W (Unit {0})
  pub finish : ExecutionContext → String → Payload → Action W (Unit {0})
  pub recover : String → Action W Bool
  pub lock_rejected : Option (ExecutionContext → String → Action W (Unit {0}))

-- A dispatcher at work: the actions that it takes one by one, each of which may look at the world,
-- and what it returns or raises. The heartbeat thread runs between them.
pub data Dispatch (W : Type 0) : Type 0 where
  returns : Call ExecutionResult → Dispatch W
  step : (W → W) → (W → Dispatch W) → Dispatch W

-- A call that the runtime makes.
pub data Request : Type 0 where
  claim : ExecutionContext → ℕ → Request
  lock_rejected : ExecutionContext → String → Request
  heartbeat : ExecutionContext → ℕ → Request
  event : ExecutionContext → String → Payload → Request
  dispatch : ExecutionContext → Request
  move_status : String → String → Request
  finish : ExecutionContext → String → Payload → Request
  recover : String → Request
  record_blocked : String → String → Request

-- `alive`: the thread runs and has not been told to stop. `wakeups` says how often it wakes up
-- before the main thread's next action, and before the one after that, and so on. The log keeps the
-- calls made, the latest first.
pub record Machine (W : Type 0) : Type 0 where
  pub world : W
  pub alive : Bool
  pub heartbeat_errors : List Exception
  pub wakeups : List ℕ
  pub log : List Request

abbrev pub M : Type 0 → Type 0 → Type 0
M W A = Machine W → Call A × Machine W

module _ {W A : Type 0} where
  abbrev pub pure : A → M W A
  pure a m = (ok a, m)

  abbrev pub raise : Exception → M W A
  raise e m = (err e, m)

  abbrev pub lift : Call A → M W A
  lift r m = (r, m)

  -- `except Exception as exc`: an interrupt goes on.
  abbrev pub try_except : M W A → (Exception → M W A) → M W A
  try_except body handler m =
      let (r, m') = body m in
      elim r [ ok a ↦ (ok a, m') | err e ↦ if is_exception e then handler e m' else (err e, m') ]

infixl 5 ◌>>=◌ ◌>>◌
abbrev pub ◌>>=◌ : {W A B : Type 0} → M W A → (A → M W B) → M W B
◌>>=◌ m f s = let (r, s') = m s in elim r [ ok a ↦ f a s' | err e ↦ (err e, s') ]

abbrev pub ◌>>◌ : {W A B : Type 0} → M W A → M W B → M W B
m >> k = m >>= λ _. k

abbrev pub raise_if : {W : Type 0} → Bool → Exception → M W (Unit {0})
raise_if c e m = (if c then err e else ok tt, m)

-- A call while no run is under way
unfoldable pub ask : {W A : Type 0} → Request → Action W A → M W A
ask request action m =
    let (r, w) = action m.world in (r, record m { world = w; log = request ∷ m.log })

-- What the thread does with the answer of a heartbeat
abbrev pub heard : {W : Type 0} → Call Bool → Machine W → Machine W
heard (ok true) m = m
heard (ok false) m = record m {
  alive = false;
  heartbeat_errors = m.heartbeat_errors ++ (error "RuntimeError" "Lock ownership lost" ∷ []);
}
heard (err e) m = record m { alive = false; heartbeat_errors = m.heartbeat_errors ++ (e ∷ []) }

-- The heartbeat thread of one run
module _ {W : Type 0} (store : Store W) (context : ExecutionContext) (ttl : ℕ) where
  -- One round of `pulse`
  unfoldable pub beat : Machine W → Machine W
  beat m =
      let (r, w) = store.heartbeat context ttl m.world in
      if m.alive then heard r (record m { world = w; log = heartbeat context ttl ∷ m.log }) else m

  unfoldable pub beats : ℕ → Machine W → Machine W
  unfolding beat
  beats zero m = m
  beats (suc n) m = beats n (beat m)

  abbrev pub take_turn : List ℕ → Machine W → Machine W
  take_turn [] m = m
  take_turn (n ∷ later) m = beats n (record m { wakeups = later })

  -- The rounds before the main thread's next action
  unfoldable pub tick : Machine W → Machine W
  unfolding beats
  tick m = take_turn m.wakeups m

  -- A call by the main thread
  unfoldable pub perform : {A : Type 0} → Request → Action W A → M W A
  unfolding tick
  perform request action m =
      let m' = tick m in
      let (r, w) = action m'.world in (r, record m' { world = w; log = request ∷ m'.log })

  unfoldable pub run_dispatch : Dispatch W → M W ExecutionResult
  unfolding tick
  run_dispatch (returns r) m = (r, m)
  run_dispatch (step act next) m =
      let m' = tick m in run_dispatch (next m'.world) (record m' { world = act m'.world })

  -- `stop.set(); worker.join()`
  unfoldable pub join : Machine W → Machine W
  unfolding tick
  join m = record (tick m) { alive = false }
