-- ===== src/Guard/Laws.antt =====
-- `select_with_guard` dispatches the first snapshots that neither the board nor the policy stops,
-- as many as the bound allows, and accounts for every other.
use hermes_agent_runtime.Base.{
  ℕ, ◌+◌, ◌≤◌, ◌<◌, ◌≡◌, refl, ◌∙◌, sym, Bool, true, false, not, ◌&&◌, List, [], ◌∷◌, ◌++◌, map,
  String, Option, none, some, contains, string_eq, if◌then◌else◌, ltb, length, take, drop, select,
  arith, length-append, length-map, length-take-le, length-take-drop, subst,
}
use mathlib.Core.List.{append_assoc, append-nil}
use hermes_agent_runtime.Base.Result.{ok, err}
use hermes_agent_runtime.Runtime.Exceptions.{Call}
use hermes_agent_runtime.Chain.Selector.{LinearIssueSnapshot}
use hermes_agent_runtime.Guard.Policy.{Reason, card_exists, bound, gate_block_reason}
use hermes_agent_runtime.Guard.Cards.{is_some}
use hermes_agent_runtime.Guard.Select.{
  Skip, GuardOutcome, skip, first_reason, add, sift, select_with_guard,
}

-- Nothing stops the snapshot: no card stands for it, and the gates let it through.
abbrev pub passes : List String → LinearIssueSnapshot → Bool
passes existing s =
    not (contains existing s.identifier) && not (is_some (gate_block_reason s.identifier s.labels))

passes-first_reason :
    (existing : List String) (s : LinearIssueSnapshot)
    → passes existing s ≡ not (is_some (first_reason existing s))
unfolding first_reason
passes-first_reason existing s = go (contains existing s.identifier)
  where
    go :
        (b : Bool)
        → (not b && not (is_some (gate_block_reason s.identifier s.labels)))
          ≡ not (is_some (if b then some card_exists else gate_block_reason s.identifier s.labels))
    go true = refl
    go false = refl

add-dispatched :
    (s : LinearIssueSnapshot) (r : Option Reason) (o : GuardOutcome)
    (rest : List LinearIssueSnapshot)
    → (add s r o).dispatched ++ rest ≡ o.dispatched ++ (if not (is_some r) then s ∷ rest else rest)
add-dispatched s none o rest = append_assoc o.dispatched (s ∷ []) rest
add-dispatched s (some r) o rest = refl

sift-dispatched :
    (existing : List String) (snapshots : List LinearIssueSnapshot) (o : GuardOutcome)
    → (sift existing snapshots o).dispatched ≡ o.dispatched ++ select (passes existing) snapshots
unfolding sift select
sift-dispatched existing [] o = sym (append-nil _)
sift-dispatched existing (s ∷ snapshots) o =
    sift-dispatched existing snapshots (add s (first_reason existing s) o)
    ∙ rw (passes-first_reason existing s)
        (add-dispatched s (first_reason existing s) o (select (passes existing) snapshots))

-- The snapshots that the board or the policy stops, with the reasons
abbrev note_stop : LinearIssueSnapshot → Option Reason → List Skip → List Skip
note_stop s none rest = rest
note_stop s (some reason) rest = skip s reason ∷ rest

unfoldable pub stopped : List String → List LinearIssueSnapshot → List Skip
unfolding first_reason
stopped existing [] = []
stopped existing (s ∷ snapshots) =
    note_stop s (first_reason existing s) (stopped existing snapshots)

add-skipped :
    (s : LinearIssueSnapshot) (r : Option Reason) (o : GuardOutcome) (rest : List Skip)
    → (add s r o).skipped ++ rest ≡ o.skipped ++ note_stop s r rest
add-skipped s none o rest = refl
add-skipped s (some r) o rest = append_assoc o.skipped (skip s r ∷ []) rest

sift-skipped :
    (existing : List String) (snapshots : List LinearIssueSnapshot) (o : GuardOutcome)
    → (sift existing snapshots o).skipped ≡ o.skipped ++ stopped existing snapshots
unfolding sift stopped
sift-skipped existing [] o = sym (append-nil _)
sift-skipped existing (s ∷ snapshots) o =
    sift-skipped existing snapshots (add s (first_reason existing s) o)
    ∙ add-skipped s (first_reason existing s) o (stopped existing snapshots)

-- With a positive bound the guard dispatches, in order, the first snapshots that pass, as many as
-- the bound says; it skips the others, those that pass with the bound as the reason.
pub select_with_guard_lem :
    (snapshots : List LinearIssueSnapshot) (existing : List String) (max_dispatch : ℕ)
    → 0 < max_dispatch
    → let passing = select (passes existing) snapshots in
      select_with_guard snapshots existing max_dispatch
      ≡ ok (record {
        dispatched = take max_dispatch passing;
        skipped =
            stopped existing snapshots
            ++ map (λ s. skip s (bound max_dispatch)) (drop max_dispatch passing);
      })
unfolding select_with_guard
select_with_guard_lem snapshots existing max_dispatch h =
    let o : GuardOutcome = record { dispatched = []; skipped = [] } in
    let positive : ltb max_dispatch 1 ≡ false = ground arith in
    rw (positive, sift-dispatched existing snapshots o, sift-skipped existing snapshots o)

length-note_stop :
    (s : LinearIssueSnapshot) (r : Option Reason) (xs : List LinearIssueSnapshot) (rest : List Skip)
    → length (if not (is_some r) then s ∷ xs else xs) + length (note_stop s r rest)
      ≡ length xs + length rest + 1
length-note_stop s none xs rest = omega arith
length-note_stop s (some r) xs rest = omega arith

-- No snapshot is lost, and none counted twice.
stopped-passing :
    (existing : List String) (snapshots : List LinearIssueSnapshot)
    → length (select (passes existing) snapshots) + length (stopped existing snapshots)
      ≡ length snapshots
unfolding stopped select
stopped-passing existing [] = omega arith
stopped-passing existing (s ∷ snapshots) = rw (passes-first_reason existing s) (
    omega (
      arith,
      stopped-passing existing snapshots,
      length-note_stop s (first_reason existing s) (select (passes existing) snapshots)
          (stopped existing snapshots),
    ))

pub select_with_guard_refuses :
    (snapshots : List LinearIssueSnapshot) (existing : List String) (max_dispatch : ℕ)
    {o : GuardOutcome}
    → select_with_guard snapshots existing max_dispatch ≡ ok o
    → 0 < max_dispatch
unfolding select_with_guard
select_with_guard_refuses snapshots existing max_dispatch h = ground arith

cut-length :
    (max_dispatch : ℕ) (stops : List Skip) (passing : List LinearIssueSnapshot)
    → length (take max_dispatch passing)
        + length (stops ++ map (λ s. skip s (bound max_dispatch)) (drop max_dispatch passing))
      ≡ length passing + length stops
cut-length max_dispatch stops passing = omega (
  arith,
  length-append stops (map (λ s. skip s (bound max_dispatch)) (drop max_dispatch passing)),
  length-map (λ (s : LinearIssueSnapshot). skip s (bound max_dispatch)) (drop max_dispatch passing),
  length-take-drop max_dispatch passing,
)

-- Whenever the guard gives an outcome, at most the bound is dispatched, and the dispatched and the
-- skipped are together as many as the snapshots.
pub select_with_guard_bounds :
    (snapshots : List LinearIssueSnapshot) (existing : List String) (max_dispatch : ℕ)
    (o : GuardOutcome)
    → select_with_guard snapshots existing max_dispatch ≡ ok o
    → (length o.dispatched ≤ max_dispatch)
      × (length o.dispatched + length o.skipped ≡ length snapshots)
select_with_guard_bounds snapshots existing max_dispatch o h =
    let passing = select (passes existing) snapshots in
    let same =
      sym (
        select_with_guard_lem snapshots existing max_dispatch
          (select_with_guard_refuses snapshots existing max_dispatch h))
      ∙ h in
    subst
      (λ (r : Call GuardOutcome). elim r [
        | ok o' ↦
            (length o'.dispatched ≤ max_dispatch)
            × (length o'.dispatched + length o'.skipped ≡ length snapshots)
        | err _ ↦ Unit
      ])
      same
      (
        length-take-le max_dispatch passing,
        cut-length max_dispatch (stopped existing snapshots) passing
            ∙ stopped-passing existing snapshots,
      )
