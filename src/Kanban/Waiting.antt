-- ===== src/Kanban/Waiting.antt =====
-- The adapter waits for the end of its card, and it stops waiting.
use hermes_agent_runtime.Base.{
  ℕ, zero, suc, ◌+◌, ◌*◌, ◌≤◌, ◌≡◌, refl, Bool, true, false, [], Option, none, some, List, String,
  if◌then◌else◌, leb, arith,
}
use hermes_agent_runtime.Base.Result.{ok, err}
use hermes_agent_runtime.Runtime.Exceptions.{Event, Exception, Call}
use hermes_agent_runtime.Runtime.Context.{ExecutionContext, ExecutionResult}
use hermes_agent_runtime.Runtime.Machine.{Action, Dispatch, returns, step}
use hermes_agent_runtime.Kanban.Snapshot.{KanbanTaskSnapshot}
use hermes_agent_runtime.Kanban.Adapter.{
  Adapter, Started, card, seen, is_terminal, failed_outcome, log_event, conclude, fail_run,
  time_out, attempt, wait, watch, first_look, dispatch,
}

-- The dispatcher without the heartbeat thread
unfoldable pub run_alone : {W : Type 0} → Dispatch W → W → Call ExecutionResult × W
run_alone (returns r) w = (r, w)
run_alone (step act next) w = run_alone (next w) (act w)

-- The clock never goes back, and a pause takes at least its time.
pub record Ticks {W : Type 0} (adapter : Adapter W) : Type 0 where
  pub sleep_takes :
      (n : ℕ) (w : W) → adapter.monotonic w + n ≤ adapter.monotonic (adapter.sleep n w)
  pub start_takes :
      (context : ExecutionContext) (w : W)
      → adapter.monotonic w ≤ adapter.monotonic (adapter.start context w).1
  pub read_takes :
      (task_id : String) (w : W)
      → adapter.monotonic w ≤ adapter.monotonic (adapter.read_task task_id w).1

module _ {W : Type 0} (adapter : Adapter W) (context : ExecutionContext) where
  open adapter use {start, read_task, sleep, monotonic, poll_seconds, timeout_seconds}

  -- A snapshot that a callback has returned
  pub data Seen (s : KanbanTaskSnapshot) : Type 0 where
    started : (w : W) → (start context w).0 ≡ ok (Started.seen s) → Seen s
    read : (task_id : String) (w : W) → (read_task task_id w).0 ≡ ok s → Seen s

  -- How a run of the dispatcher ends that began at the time `begin`, with the reason; and the world
  -- at its end
  pub data Ended (begin : ℕ) : Call ExecutionResult × W → Type 0 where
    not_started :
        {e : Exception} (w last : W) → (start context w).0 ≡ err e → Ended begin (err e, last)
    not_read :
        {e : Exception} (task_id : String) (w last : W)
        → (read_task task_id w).0 ≡ err e
        → Ended begin (err e, last)
    finished :
        {s : KanbanTaskSnapshot} (events : List Event) (last : W)
        → Seen s
        → is_terminal s ≡ true
        → Ended begin (ok (conclude adapter context s events), last)
    failed :
        {s : KanbanTaskSnapshot} {outcome : String} (events : List Event) (last : W)
        → Seen s
        → is_terminal s ≡ false
        → failed_outcome s ≡ some outcome
        → Ended begin (err (fail_run adapter context s outcome events), last)
    late :
        {s : KanbanTaskSnapshot} (events : List Event) (last : W)
        → Seen s
        → is_terminal s ≡ false
        → failed_outcome s ≡ none
        → begin + timeout_seconds ≤ monotonic last
        → Ended begin (err (time_out adapter context s events), last)

  Ended-attempt :
      {A : Type 0} {begin : ℕ} (action : Action W A) (f : A → Dispatch W) (w : W)
      → ((e : Exception) (last : W) → (action w).0 ≡ err e → Ended begin (err e, last))
      → ((a : A) → (action w).0 ≡ ok a → Ended begin (run_alone (f a) (action w).1))
      → Ended begin (run_alone (attempt adapter context action f) w)
  unfolding run_alone
  Ended-attempt {A} {begin} action f w raised going_on = go (action w).0 refl
    where
      go :
          (r : Call A)
          → (action w).0 ≡ r
          → Ended begin (run_alone (elim r [ ok a ↦ f a | err e ↦ returns (err e) ]) (action w).1)
      go (ok a) e = going_on a e
      go (err x) e = raised x (action w).1 e

  Ended-if :
      {begin : ℕ} (b : Bool) (p q : Dispatch W) (w : W)
      → (b ≡ true → Ended begin (run_alone p w))
      → (b ≡ false → Ended begin (run_alone q w))
      → Ended begin (run_alone (if b then p else q) w)
  Ended-if true p q w yes_case no_case = yes_case refl
  Ended-if false p q w yes_case no_case = no_case refl

  Ended-option :
      {begin : ℕ} (o : Option String) (p : String → Dispatch W) (q : Dispatch W) (w : W)
      → ((outcome : String) → o ≡ some outcome → Ended begin (run_alone (p outcome) w))
      → (o ≡ none → Ended begin (run_alone q w))
      → Ended begin (run_alone (elim o [ some outcome ↦ p outcome | none ↦ q ]) w)
  Ended-option none p q w some_case none_case = none_case refl
  Ended-option (some outcome) p q w some_case none_case = some_case outcome refl

  -- The clock after a pause and a read
  later : String → W → W
  later task_id w = (read_task task_id (sleep poll_seconds w)).1

  reached : (due deadline now : ℕ) → leb deadline now ≡ true → due ≤ deadline → due ≤ now
  reached due deadline now over h = ground arith

  -- One turn of the loop, given the turns after it
  wait-step :
      {begin : ℕ} (out : Dispatch W) (fuel : ℕ) (task_id : String) (deadline : ℕ)
      (s : KanbanTaskSnapshot) (events : List Event) (w : W)
      → Seen s
      → (leb deadline (monotonic w) ≡ false
          → (next : KanbanTaskSnapshot) (log : List Event) → Seen next
          → Ended begin (
              run_alone
                (wait adapter context out fuel task_id deadline next log)
                (later task_id w)))
      → begin + timeout_seconds ≤ deadline
      → Ended begin (run_alone (wait adapter context out (suc fuel) task_id deadline s events) w)
  unfolding wait run_alone later
  wait-step out fuel task_id deadline s events w known going_on due =
      Ended-if (is_terminal s) _ _ w (λ ended. finished events w known ended)
        (λ open_card.
          Ended-option (failed_outcome s) _ _ w
            (λ outcome failing. failed events w known open_card failing)
            (λ sound.
              Ended-if (leb deadline (monotonic w)) _ _ w
                (λ over.
                  late events w known open_card sound (reached _ deadline (monotonic w) over due))
                (λ early.
                  Ended-attempt (read_task task_id) _ (sleep poll_seconds w)
                    (λ e last raised. not_read task_id (sleep poll_seconds w) last raised)
                    (λ next returned.
                      going_on early next _ (read task_id (sleep poll_seconds w) returned)))))

  later_lem :
      Ticks adapter
      → (task_id : String) (w : W) → monotonic w + poll_seconds ≤ monotonic (later task_id w)
  unfolding later
  later_lem t task_id w =
      let slept = t.sleep_takes poll_seconds w in
      let looked = t.read_takes task_id (sleep poll_seconds w) in omega arith

  out_of_time : (deadline now poll : ℕ) → leb deadline now ≡ false → deadline ≤ now + 0 * poll → ⊥
  out_of_time deadline now poll h enough = ground arith

  less_fuel :
      (deadline now moved poll fuel : ℕ)
      → deadline ≤ now + suc fuel * poll
      → now + poll ≤ moved
      → deadline ≤ moved + fuel * poll
  less_fuel deadline now moved poll fuel h k = ground arith

  +-monotone : (now a b : ℕ) → a ≤ b → now + a ≤ now + b
  +-monotone now a b h = omega arith

  +-monotone_left : (a b later_by : ℕ) → a ≤ b → a + later_by ≤ b + later_by
  +-monotone_left a b later_by h = omega arith

  wait-Ended :
      {begin : ℕ}
      → Ticks adapter
      → (out : Dispatch W) (fuel : ℕ) (task_id : String) (deadline : ℕ) (s : KanbanTaskSnapshot)
        (events : List Event) (w : W)
      → deadline ≤ monotonic w + fuel * poll_seconds
      → begin + timeout_seconds ≤ deadline
      → Seen s
      → Ended begin (run_alone (wait adapter context out (suc fuel) task_id deadline s events) w)
  wait-Ended t out zero task_id deadline s events w enough due known =
      wait-step out zero task_id deadline s events w known
        (λ early next log seen_next.
          elim (out_of_time deadline (monotonic w) poll_seconds early enough) [ ])
        due
  wait-Ended t out (suc fuel) task_id deadline s events w enough due known =
      wait-step out (suc fuel) task_id deadline s events w known
        (λ early next log seen_next.
          wait-Ended t out fuel task_id deadline next log (later task_id w)
            (less_fuel deadline _ _ poll_seconds fuel enough (later_lem t task_id w)) due seen_next)
        due

  watch-Ended :
      {begin : ℕ}
      → Ticks adapter
      → (out : Dispatch W) (fuel : ℕ) (s : KanbanTaskSnapshot) (w : W)
      → timeout_seconds ≤ fuel * poll_seconds
      → begin ≤ monotonic w
      → Seen s
      → Ended begin (run_alone (watch adapter context out (suc fuel) s) w)
  unfolding watch run_alone log_event
  watch-Ended t out fuel s w enough began known =
      wait-Ended t out fuel s.task_id (monotonic w + timeout_seconds) s
        (log_event adapter context [] "kanban.dispatched" s []) w (+-monotone _ _ _ enough)
        (+-monotone_left _ _ _ began) known

  later_still : (a b c : ℕ) → a ≤ b → b ≤ c → a ≤ c
  later_still a b c h k = omega arith

  first_look-Ended :
      {begin : ℕ}
      → Ticks adapter
      → (out : Dispatch W) (fuel : ℕ) (first : Started) (w before : W)
      → timeout_seconds ≤ fuel * poll_seconds
      → begin ≤ monotonic w
      → (start context before).0 ≡ ok first
      → Ended begin
          (run_alone (first_look adapter context (watch adapter context out (suc fuel)) first) w)
  first_look-Ended t out fuel (seen s) w before enough began h =
      watch-Ended t out fuel s w enough began (started before h)
  first_look-Ended t out fuel (card task_id) w before enough began h =
      Ended-attempt (read_task task_id) _ w (λ e last raised. not_read task_id w last raised)
        (λ s returned.
          watch-Ended t out fuel s _ enough (later_still _ _ _ began (t.read_takes task_id w))
            (read task_id w returned))

  -- Where the clock never goes back, a pause takes at least its time, and the fuel is one more than
  -- the polls that fill the timeout, the dispatcher ends before the fuel does, whatever would come
  -- after it: with what `start` or `read_task` has raised; or, for a snapshot that a callback has
  -- returned, with what `conclude` makes of it if it is terminal, with the failure if it is not and
  -- its latest run has failed, and with the timeout only if it is neither and the time since the
  -- call is up.
  pub dispatch-Ended :
      Ticks adapter
      → (out : Dispatch W) (fuel : ℕ) (w : W) → timeout_seconds ≤ fuel * poll_seconds
      → Ended (monotonic w) (run_alone (dispatch adapter context out (suc fuel)) w)
  unfolding dispatch
  dispatch-Ended t out fuel w enough =
      Ended-attempt (start context) _ w (λ e last raised. not_started w last raised)
        (λ first returned.
          first_look-Ended t out fuel first _ w enough (t.start_takes context w) returned)
