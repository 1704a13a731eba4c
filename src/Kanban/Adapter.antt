-- ===== src/Kanban/Adapter.antt =====
-- `KanbanDispatcherAdapter`: it starts a card and polls it until the card ends, its latest run
-- fails or the time is up. Times are natural numbers of some unit.
use hermes_agent_runtime.Base.{ℕ, zero, suc, ◌+◌, Bool, ◌||◌, not, String, Option, none, some}
use hermes_agent_runtime.Base.{
  List, [], ◌∷◌, ◌++◌, ◌==◌, string_eq, contains, if◌then◌else◌, leb, eqb,
}
use hermes_agent_runtime.Base.Dict.{Dict}
use hermes_agent_runtime.Base.Result.{ok, err}
use hermes_agent_runtime.Runtime.Exceptions.{Event, Exception, Call, execution_event_error, error}
use hermes_agent_runtime.Runtime.Context.{ExecutionContext, ExecutionResult}
use hermes_agent_runtime.Runtime.Machine.{Action, Dispatch, returns, step}
use hermes_agent_runtime.Kanban.Snapshot.{
  KanbanRunSnapshot, KanbanTaskSnapshot, card_fields, execution_result, event_payload,
}

abbrev pub done_statuses : List String
done_statuses = "done" ∷ []

abbrev pub blocked_statuses : List String
blocked_statuses = "blocked" ∷ []

abbrev pub failed_outcomes : List String
failed_outcomes = "failed" ∷ "timed_out" ∷ "spawn_failed" ∷ "rate_limited" ∷ []

-- What `start` hands back: a card's id, or a first snapshot of it
pub data Started : Type 0 where
  card : String → Started
  seen : KanbanTaskSnapshot → Started

-- The callbacks and the settings of the adapter
pub record Adapter (W : Type 0) : Type 0 where
  pub start : ExecutionContext → Action W Started
  pub read_task : String → Action W KanbanTaskSnapshot
  pub sleep : ℕ → W → W
  pub monotonic : W → ℕ
  pub poll_seconds : ℕ
  pub timeout_seconds : ℕ

-- The checks of `__init__`. A negative time is refused as 0 is.
unfoldable pub checked_adapter : {W : Type 0} → Adapter W → Call (Adapter W)
checked_adapter a =
    if eqb a.poll_seconds 0
    then err (error "ValueError" "poll_seconds must be positive")
    else if eqb a.timeout_seconds 0
    then err (error "ValueError" "timeout_seconds must be positive")
    else ok a

unfoldable pub is_terminal : KanbanTaskSnapshot → Bool
unfolding contains
is_terminal snapshot =
    contains done_statuses snapshot.status || contains blocked_statuses snapshot.status

-- `latest.outcome`, where it is one of the failures
abbrev failure_in : Option String → Option String
failure_in none = none
failure_in (some outcome) = if contains failed_outcomes outcome then some outcome else none

abbrev run_outcome : Option KanbanRunSnapshot → Option String
run_outcome none = none
run_outcome (some run) = run.outcome

unfoldable pub failed_outcome : KanbanTaskSnapshot → Option String
unfolding contains
failed_outcome snapshot = failure_in (run_outcome snapshot.latest_run)

module _ {W : Type 0} (adapter : Adapter W) (context : ExecutionContext) where
  open adapter use {start, read_task, sleep, monotonic, poll_seconds, timeout_seconds}

  -- An event about a card, behind those before it
  unfoldable pub log_event : List Event → String → KanbanTaskSnapshot → Dict String → List Event
  unfolding event_payload
  log_event events kind snapshot extra =
      events ++ ((kind, event_payload context snapshot extra) ∷ [])

  -- After the loop
  unfoldable pub conclude : KanbanTaskSnapshot → List Event → ExecutionResult
  unfolding contains execution_result card_fields log_event
  conclude snapshot events =
      let fields = card_fields snapshot in
      if contains blocked_statuses snapshot.status
      then execution_result fields (log_event events "kanban.blocked" snapshot [])
      else execution_result fields (log_event events "kanban.completed" snapshot fields)

  unfoldable pub fail_run : KanbanTaskSnapshot → String → List Event → Exception
  unfolding log_event
  fail_run snapshot outcome events =
      execution_event_error "RuntimeError"
        (log_event events "kanban.failed" snapshot (("kanban_outcome", outcome) ∷ []))

  unfoldable pub time_out : KanbanTaskSnapshot → List Event → Exception
  unfolding log_event
  time_out snapshot events =
      execution_event_error "TimeoutError" (log_event events "kanban.timeout" snapshot [])

  -- The event of a poll that shows another status
  unfoldable pub note_status : KanbanTaskSnapshot → String → List Event → List Event
  unfolding log_event
  note_status snapshot last_status events =
      if not (snapshot.status == last_status)
      then log_event events "kanban.status_changed" snapshot []
      else events

  -- An action that can raise, and what comes after it
  abbrev pub attempt : {A : Type 0} → Action W A → (A → Dispatch W) → Dispatch W
  attempt action next =
      step (λ w. (action w).1)
        (λ w. elim ((action w).0) [ ok a ↦ next a | err e ↦ returns (err e) ])

  -- The `while` loop. `last_status` is the status of `snapshot`. Where the fuel ends the dispatcher
  -- goes on as `out`.
  unfoldable pub wait : Dispatch W → ℕ → String → ℕ → KanbanTaskSnapshot → List Event → Dispatch W
  unfolding is_terminal failed_outcome conclude fail_run time_out note_status
  wait out zero task_id deadline snapshot events = out
  wait out (suc fuel) task_id deadline snapshot events =
      let next = λ (later : KanbanTaskSnapshot).
        wait out fuel task_id deadline later (note_status later snapshot.status events) in
      let again = step (sleep poll_seconds) (λ _. attempt (read_task task_id) next) in
      let look =
        step (λ w. w)
          (λ w.
            if leb deadline (monotonic w)
            then returns (err (time_out snapshot events))
            else again) in
      let go_on : Dispatch W = elim (failed_outcome snapshot) [
        | some outcome ↦ returns (err (fail_run snapshot outcome events))
        | none ↦ look
      ] in
      if is_terminal snapshot then returns (ok (conclude snapshot events)) else go_on

  -- The deadline is read once the first event is noted.
  unfoldable pub watch : Dispatch W → ℕ → KanbanTaskSnapshot → Dispatch W
  unfolding wait log_event
  watch out fuel snapshot =
      step (λ w. w)
        (λ w.
          wait out fuel snapshot.task_id (monotonic w + timeout_seconds) snapshot
            (log_event [] "kanban.dispatched" snapshot []))

  abbrev pub first_look : (KanbanTaskSnapshot → Dispatch W) → Started → Dispatch W
  first_look next (seen snapshot) = next snapshot
  first_look next (card task_id) = attempt (read_task task_id) next

  -- `__call__`
  unfoldable pub dispatch : Dispatch W → ℕ → Dispatch W
  unfolding watch
  dispatch out fuel = attempt (start context) (first_look (watch out fuel))
