-- ===== src/Tick/Start.antt =====
-- What `start` does to the board.
use hermes_agent_runtime.Base.{
  ◌<>◌, refl, ◌≡◌, sym, ap, ◌∙◌, true, false, String, Option, some, List, [], ◌∷◌, string_eq, any,
  contains, arith, Bool-cases, inl, inr, Option-cases, ==-refl,
}
use hermes_agent_runtime.Base.Dict.{Dict, lookup}
use hermes_agent_runtime.Base.Result.{ok, err}
use hermes_agent_runtime.Runtime.Exceptions.{Call, execution_blocked}
use hermes_agent_runtime.Runtime.Context.{ExecutionContext}
use hermes_agent_runtime.Runtime.Action.{pure, ◌>>=◌, >>=-at}
use hermes_agent_runtime.Guard.Cards.{BoardTask, is_some, match_existing_cards}
use hermes_agent_runtime.Guard.Found.{
  blocks, is_card_of, lookup-match_existing_cards, has_no_id, contains-keys,
  match_existing_cards_lem, match_existing_cards-blank,
}
use hermes_agent_runtime.Kanban.Snapshot.{truthy}
use hermes_agent_runtime.Kanban.Adapter.{Started, card}
use hermes_agent_runtime.Tick.Board.{
  Board, NewTask, new_task, needs_human, existing_cards, start, card_for,
}
use hermes_agent_runtime.Tick.Safety.{IsSafe}

needs_human-IsSafe : (context : ExecutionContext) → needs_human context ≡ false → IsSafe context
unfolding needs_human contains
needs_human-IsSafe context h = record {
  automatic = ground arith;
  not_high = ground arith;
  not_critical = ground arith;
  not_production = ground arith;
}

needs_human-unsafe : (context : ExecutionContext) → needs_human context ≡ true → ¬ IsSafe context
unfolding needs_human contains
needs_human-unsafe context h safe =
    let a = safe.automatic in
    let b = safe.not_high in
    let c = safe.not_critical in let d = safe.not_production in ground arith

module _ {W : Type 0} (board : Board W) (context : ExecutionContext) (w : W)
    (tasks : List BoardTask) where
  abbrev listed : W
  listed = (board.list_tasks w).1

  -- What becomes of the board and of the run: nothing is done for a context that needs a human, a
  -- card that is there is used again, and else one is created, with a key of the issue.
  pub data Starts : Call Started × W → Type 0 where
    refused :
        ¬ IsSafe context
        → Starts (err (execution_blocked "dispatch guard: issue requires human intervention"), w)
    reused :
        IsSafe context
        → (task_id : String) → any (is_card_of context.linear_issue_id task_id) tasks ≡ true
        → lookup context.linear_issue_id (match_existing_cards tasks (context.linear_issue_id ∷ []))
          ≡ some task_id
        → Starts (ok (card task_id), listed)
    created :
        IsSafe context
        → any (blocks context.linear_issue_id) tasks ≡ false
        → (task : NewTask) → task.assignee ≡ context.agent
        → task.idempotency_key ≡ "runtime:linear:" <> context.linear_issue_id
        → Starts ((board.create_task task >>= λ task_id. pure (card task_id)) listed)

  abbrev found : Option String
  found = lookup context.linear_issue_id (match_existing_cards tasks (context.linear_issue_id ∷ []))

  is_found : is_some found ≡ any (blocks context.linear_issue_id) tasks
  unfolding contains
  is_found =
      sym (contains-keys context.linear_issue_id _)
      ∙ match_existing_cards_lem context.linear_issue_id tasks (context.linear_issue_id ∷ [])
      ∙ ground (arith, ==-refl context.linear_issue_id)

  card_for-Starts :
      (safe : IsSafe context)
      → any has_no_id tasks ≡ false
      → Starts (card_for board context (truthy found) listed)
  unfolding new_task
  card_for-Starts safe named = elim (Option-cases found) [
    | inl gone ↦
        rw gone (created safe (sym is_found ∙ ap is_some gone) (new_task context) refl refl)
    | inr (task_id, here) ↦
        let blank = match_existing_cards-blank context.linear_issue_id tasks _ named here in
        rw (here, blank)
          (reused safe task_id
            (lookup-match_existing_cards context.linear_issue_id task_id tasks
              (context.linear_issue_id ∷ []) here)
            here)
  ]

  existing_cards_at :
      (board.list_tasks w).0 ≡ ok tasks
      → (identifiers : List String)
      → existing_cards board identifiers w ≡ (ok (match_existing_cards tasks identifiers), listed)
  unfolding existing_cards
  existing_cards_at given identifiers =
      >>=-at board.list_tasks (λ ts. pure {W = W} (match_existing_cards ts identifiers)) w given

  -- On a board that lists its tasks, each with an id, `start` refuses a context that is not safe and
  -- touches nothing; for a safe one it gives back the id of a task of the board that is not archived
  -- and mentions the issue, the one that `match_existing_cards` finds, if there is one; and if there is
  -- none, it asks the board for one new task, of the context's agent and with the key of the issue,
  -- and gives back its id.
  pub start-Starts :
      (board.list_tasks w).0 ≡ ok tasks
      → any has_no_id tasks ≡ false
      → Starts (start board context w)
  unfolding start
  start-Starts given named = elim (Bool-cases (needs_human context)) [
    | inl unsafe ↦ rw unsafe (refused (needs_human-unsafe context unsafe))
    | inr unasked ↦
        let look = existing_cards board (context.linear_issue_id ∷ []) in
        let cards = match_existing_cards tasks (context.linear_issue_id ∷ []) in
        let go_on = λ (existing : Dict String).
          card_for board context (truthy (lookup context.linear_issue_id existing)) in
        let seen = existing_cards_at given (context.linear_issue_id ∷ []) in
        let step = >>=-at look go_on w (ap (λ o. o.0) seen) ∙ ap (λ o. go_on cards o.1) seen in
        rw (unasked, step) (card_for-Starts (needs_human-IsSafe context unasked) named)
  ]
