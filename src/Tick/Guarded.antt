-- ===== src/Tick/Guarded.antt =====
-- What the guarded reading of a tick lets through.
use hermes_agent_runtime.Base.{
  ℕ, suc, zero, ◌≤◌, ◌≡◌, refl, ◌∙◌, sym, ap, true, false, String, Option, none, some, List, [],
  ◌∷◌, map, contains, string_eq, select, any, take, length, All, arith, length-take-le, Bool-cases,
  inl, inr, ==-refl,
}
use hermes_agent_runtime.Base.Dict.{Dict, keys}
use hermes_agent_runtime.Base.Result.{ok, err}
use hermes_agent_runtime.Runtime.Exceptions.{Call}
use hermes_agent_runtime.Runtime.Action.{pure, lift, ◌>>=◌, >>=-returns}
use hermes_agent_runtime.Chain.Selector.{LinearIssueSnapshot}
use hermes_agent_runtime.Guard.Policy.{gate_block_reason}
use hermes_agent_runtime.Guard.Cards.{BoardTask, is_some, match_existing_cards}
use hermes_agent_runtime.Guard.Found.{blocks, match_existing_cards_lem}
use hermes_agent_runtime.Guard.Select.{GuardOutcome, select_with_guard}
use hermes_agent_runtime.Guard.Laws.{passes, select_with_guard_lem, select_with_guard_refuses}
use hermes_agent_runtime.Clients.Http.{Web}
use hermes_agent_runtime.Clients.Linear.{Linear}
use hermes_agent_runtime.Tick.Board.{Board, existing_cards}
use hermes_agent_runtime.Tick.Issues.{read_issues, guarded, guarded_read_issues}

-- A snapshot that the guard lets through: the gates are met, and no card of the board, of those
-- that are not archived, mentions the issue.
pub record IsAdmitted (tasks : List BoardTask) (s : LinearIssueSnapshot) : Type 0 where
  pub gates : gate_block_reason s.identifier s.labels ≡ none
  pub no_card : any (blocks s.identifier) tasks ≡ false

take-All {ℓ κ} : {A : Type ℓ} (P : A → Type κ) (n : ℕ) (xs : List A) → All P xs → All P (take n xs)
take-All P zero xs h = tt
take-All P (suc n) [] h = tt
take-All P (suc n) (x ∷ xs) (p, h) = (p, take-All P n xs h)

is_some-none {ℓ} : {A : Type ℓ} (o : Option A) → is_some o ≡ false → o ≡ none
is_some-none none h = refl
is_some-none (some a) h = cc

-- Those that pass, of snapshots whose identifiers were all looked for
select-passes :
    (tasks : List BoardTask) (identifiers : List String) (snapshots : List LinearIssueSnapshot)
    → All (λ s. contains identifiers s.identifier ≡ true) snapshots
    → All
        (IsAdmitted tasks)
        (select (passes (keys (match_existing_cards tasks identifiers))) snapshots)
unfolding select
select-passes tasks identifiers [] h = tt
select-passes tasks identifiers (s ∷ snapshots) (here, h) =
    let found = keys (match_existing_cards tasks identifiers) in
    let rest = select-passes tasks identifiers snapshots h in
    let same = match_existing_cards_lem s.identifier tasks identifiers in
    elim (Bool-cases (passes found s)) [
      | inr stopped ↦ rw stopped rest
      | inl passed ↦
          rw passed (record { gates = is_some-none _ (ground arith); no_card = ground arith }, rest)
    ]

contains-map :
    (seen : List String) (snapshots : List LinearIssueSnapshot)
    → ((k : String)
        → contains (map (λ s. s.identifier) snapshots) k ≡ true
        → contains seen k ≡ true)
    → All (λ s. contains seen s.identifier ≡ true) snapshots
unfolding contains
contains-map seen [] sub = tt
contains-map seen (s ∷ snapshots) sub = (
  sub s.identifier (ground (arith, ==-refl s.identifier)),
  contains-map seen snapshots (λ k h. sub k (ground arith)),
)

dispatched_of : Call GuardOutcome → List LinearIssueSnapshot
dispatched_of (ok outcome) = outcome.dispatched
dispatched_of (err _) = []

dispatched_lem :
    (tasks : List BoardTask) (read : List LinearIssueSnapshot) (bound : ℕ) (outcome : GuardOutcome)
    → let identifiers = map (λ s. s.identifier) read in
      select_with_guard read (keys (match_existing_cards tasks identifiers)) bound ≡ ok outcome
      → (length outcome.dispatched ≤ bound) × All (IsAdmitted tasks) outcome.dispatched
unfolding dispatched_of
dispatched_lem tasks read bound outcome h =
    let identifiers = map (λ s. s.identifier) read in
    let found = keys (match_existing_cards tasks identifiers) in
    let positive = select_with_guard_refuses read found bound h in
    let known = ap dispatched_of (sym h ∙ select_with_guard_lem read found bound positive) in
    let free = select-passes tasks identifiers read (contains-map identifiers read (λ k m. m)) in
    rw known (length-take-le bound _, take-All (IsAdmitted tasks) bound _ free)

module _ {W : Type 0} (web : Web W) (client : Linear) (board : Board W) where
  -- As the board is listed in a world
  pub record IsFree (w : W) (s : LinearIssueSnapshot) : Type 0 where
    pub tasks : List BoardTask
    pub listed : (board.list_tasks w).0 ≡ ok tasks
    pub admitted : IsAdmitted tasks s

  IsFree-All :
      (w : W) (tasks : List BoardTask) (snapshots : List LinearIssueSnapshot)
      → (board.list_tasks w).0 ≡ ok tasks
      → All (IsAdmitted tasks) snapshots
      → All (IsFree w) snapshots
  IsFree-All w tasks [] listed h = tt
  IsFree-All w tasks (s ∷ snapshots) listed (a, h) = (
    record { tasks = tasks; listed = listed; admitted = a },
    IsFree-All w tasks snapshots listed h,
  )

  guarded_lem :
      (bound : ℕ) (read : List LinearIssueSnapshot) (w : W) {snapshots : List LinearIssueSnapshot}
      → (guarded web client board bound read w).0 ≡ ok snapshots
      → (length snapshots ≤ bound) × All (IsFree w) snapshots
  unfolding existing_cards
  guarded_lem bound [] w {snapshots} h = let e : snapshots ≡ [] = cc in rw e (omega arith, tt)
  guarded_lem bound (s ∷ read) w {snapshots} h =
      let identifiers = map (λ s. s.identifier) (s ∷ read) in
      let look = existing_cards board identifiers in
      let choose = λ (existing : Dict String).
        lift (select_with_guard (s ∷ read) (keys existing) bound) >>= λ (outcome : GuardOutcome).
        pure outcome.dispatched in
      let (existing, looked, h₁) = >>=-returns look choose w h in
      let (tasks, listed, found) =
        >>=-returns board.list_tasks
          (λ (tasks : List BoardTask). pure (match_existing_cards tasks identifiers)) w looked in
      let (outcome, chosen, last) =
        >>=-returns (lift (select_with_guard (s ∷ read) (keys existing) bound))
          (λ (outcome : GuardOutcome). pure outcome.dispatched) (look w).1 h₁ in
      let same : existing ≡ match_existing_cards tasks identifiers = cc in
      let (few, free) = dispatched_lem tasks (s ∷ read) bound outcome (rw same at chosen) in
      let dispatched : snapshots ≡ outcome.dispatched = cc in
      rw dispatched (few, IsFree-All w tasks outcome.dispatched listed free)

  -- Where the guarded reading returns, it returns at most as many snapshots as the bound says, and
  -- each meets the gates of the guard and is free: of the tasks that the board listed after Linear was
  -- read, none that is not archived mentions its issue.
  pub guarded_read_issues-IsFree :
      (bound : ℕ) (team_key : String) (w : W) (snapshots : List LinearIssueSnapshot)
      → (guarded_read_issues web client board bound team_key w).0 ≡ ok snapshots
      → (length snapshots ≤ bound) × All (IsFree (read_issues web client team_key w).1) snapshots
  unfolding guarded_read_issues
  guarded_read_issues-IsFree bound team_key w snapshots h =
      let (read, done, h₁) =
        >>=-returns (read_issues web client team_key) (guarded web client board bound) w h in
      guarded_lem bound read (read_issues web client team_key w).1 h₁
